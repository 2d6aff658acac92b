-- ===== src/Mail.antt =====
-- internal/adapter/mail: the two senders of verification codes. That the request's context is
-- done is one of the failures of `send_mail`.
use auth_service_go.Base.{[], ◌∷◌, ◌++◌}
use auth_service_go.Base.Strings.{Str, codes}
use auth_service_go.Platform.{Mail, send_mail, log_code}
use auth_service_go.Usecase.Ports.{CodeSender}

pub record SmtpSender : Type 0 where
  pub host : Str
  pub port : Str
  pub username : Str
  pub password : Str
  pub from : Str

abbrev pub new_smtp_sender : Str → Str → Str → Str → Str → SmtpSender
new_smtp_sender host port username password from = record {
  host = host;
  port = port;
  username = username;
  password = password;
  from = from;
}

abbrev pub crlf : Str
crlf = 0x0D ∷ 0x0A ∷ []

abbrev pub subject : Str
subject = codes "Seu código de acesso OrderHub"

unfoldable pub body : Str → Str
body code =
    codes "Seu código de verificação é: "
    ++ (code
        ++ (crlf
            ++ (crlf
                ++ codes
                    "Ele expira em 10 minutos. Se você não pediu esse código, ignore este e-mail.")))

unfoldable pub mail_text : Str → Str → Str → Str
unfolding body
mail_text from to code =
    codes "From: "
    ++ (from
        ++ (crlf
            ++ (codes "To: "
                ++ (to
                    ++ (crlf
                        ++ (codes "Subject: "
                            ++ (subject ++ (crlf ++ (crlf ++ (body code ++ crlf))))))))))

unfoldable pub verification_mail : SmtpSender → Str → Str → Mail
verification_mail s to code = record {
  address = s.host ++ b':' ∷ s.port;
  from = s.from;
  to = to;
  message = mail_text s.from to code;
}

abbrev pub smtp_sender : SmtpSender → CodeSender
smtp_sender s = record {
  send_verification_code = λ to code. send_mail (verification_mail s to code);
}

abbrev pub console_sender : CodeSender
console_sender = record { send_verification_code = log_code }
