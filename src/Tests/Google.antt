-- ===== src/Tests/Google.antt =====
-- A sign-in with Google of an address that has no account.
use auth_service_go.Base.{◌≡◌, refl, true, some, []}
use auth_service_go.Base.Strings.{
  codes, str_eq, utf8, trim_space, to_lower, is_space, lower_rune, is_empty,
}
use auth_service_go.Database.{accepts_user, accepts_refresh_token}
use auth_service_go.Encoding.{
  hex, encode, letter, decode, cut_dot, letter_value, values, from_values, drop_line_ends,
}
use auth_service_go.Jwt.{
  issue_access_token, new_refresh_token_value, hash_refresh_token_value, access_claims,
}
use auth_service_go.Oauth.{
  exchange, exchange_code_for_token, fetch_userinfo, client_do, token_request, userinfo_request,
}
use auth_service_go.Platform.{World, ok, ◌>>=◌}
use auth_service_go.Postgres.Repositories.{found, find_by_email, insert_user, insert_refresh_token}
use auth_service_go.Postgres.Statements.{select_user_by_email, create_user, create_refresh_token}
use auth_service_go.Service.{Config, complete_google_oauth_uc}
use auth_service_go.Service.SignIn.Ways.{IsGoogleSignIn, complete_google_oauth-SignsIn}
use auth_service_go.Usecase.Accounts.{normalize_email, issue_token_pair_for}
use auth_service_go.Usecase.Codes.{find_or_create}
use auth_service_go.Usecase.Google.{
  CompleteGoogleOAuthInput, CompleteGoogleOAuthResult, complete_google_oauth, complete_verified,
  sign_in, sig, open_state, verify_parts, verify,
}
use auth_service_go.Tests.Fixtures.{platform, config, world}

-- Google answers every request, with the address " Bob@x ".
abbrev online : Config
online = record config {
  google = record config.google {
    http = record config.google.http {
      client_do = λ n request. some (record { status = 200; body = [] });
      decode_token =
          λ body. some (record { access_token = codes "g"; error = []; error_desc = [] });
      decode_userinfo =
          λ body. some (record { email = codes " bob@x "; email_verified = true; name = [] });
    };
  };
}

abbrev input : CompleteGoogleOAuthInput
input = record { code = codes "4/x"; state = codes "ew.ZXc" }

abbrev later : World
later = record world { calls = 30 }

abbrev signed_in : CompleteGoogleOAuthResult
signed_in = record {
  tokens = record {
    access_token = codes "token";
    refresh_token = codes "JiYmJiYmJiYmJiYmJiYmJiYmJiYmJiYmJiYmJiYmJiY";
    expires_in = 300;
  };
  redirect_to = codes "/";
}

completed :
    (complete_google_oauth (complete_google_oauth_uc online) input platform later).0 ≡ ok signed_in
unfolding complete_google_oauth complete_verified sign_in verify verify_parts open_state cut_dot
    decode encode letter letter_value values from_values drop_line_ends sig utf8 str_eq exchange
    exchange_code_for_token fetch_userinfo client_do token_request userinfo_request is_empty
    issue_token_pair_for normalize_email trim_space to_lower find_by_email found
    select_user_by_email insert_user create_user accepts_user insert_refresh_token
    create_refresh_token accepts_refresh_token issue_access_token access_claims
    new_refresh_token_value hash_refresh_token_value hex is_space lower_rune find_or_create ◌>>=◌
completed = refl

complete_google_oauth-SignsIn_example :
    IsGoogleSignIn online platform input later
      (complete_google_oauth (complete_google_oauth_uc online) input platform later).1
      signed_in
complete_google_oauth-SignsIn_example =
    complete_google_oauth-SignsIn online platform later input signed_in completed
