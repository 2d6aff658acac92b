-- ===== src/Startup/Keys/Restart.antt =====
-- The key pair over restarts.
use mathlib.Core.Path.{subst}
use auth_service_go.Base.{
  ℕ, ◌+◌, ◌≡◌, ◌≢◌, refl, ap, ◌∙◌, true, false, Option, some, ◌⊎◌, inl, inr, Bool-cases,
  Option-cases,
}
use auth_service_go.Base.Strings.{Str, Bytes, codes, str_eq, str_eq→eq, str_eq_refl}
use auth_service_go.Platform.{ok}
use auth_service_go.Startup.{Host, Machine, put_file, ◌>>=◌}
use auth_service_go.Startup.Keys.{
  KeyLib, RsaPrivateKey, load_private_key, save_private_key, save_public_key, generate_key_pair,
  both_exist, load_or_generate_key_pair,
}

-- The encoders and their readers: `pem.Decode` finds the block that `pem.EncodeToMemory` wrote, and
-- the PKCS #1 parser undoes the marshaller.
pub record IsKeyLib (lib : KeyLib) : Type 0 where
  pub pem :
      (kind : Str) (content : Bytes) → lib.pem_decode (lib.pem_encode kind content) ≡ some content
  pub pkcs1 : (key : RsaPrivateKey) → lib.parse_pkcs1 (lib.marshal_pkcs1 key) ≡ some key

-- The two files of a key pair: the private one holds the key.
pub record IsSaved (lib : KeyLib) (private_path public_path : Str) (key : RsaPrivateKey)
    (files : Str → Option Bytes) : Type 0 where
  pub private_there :
      (content : Bytes) × (files private_path ≡ some content)
      × (block : Bytes) × (lib.pem_decode content ≡ some block)
      × (lib.parse_pkcs1 block ≡ some key)
  pub public_there : (content : Bytes) × (files public_path ≡ some content)

str_eq_ne : (s t : Str) → s ≢ t → str_eq s t ≡ false
str_eq_ne s t ne = elim (Bool-cases (str_eq s t)) [
  | inl same ↦ absurd (ne (str_eq→eq s t same))
  | inr other ↦ other
]

abbrev later : Machine → Machine
later m = record m { calls = m.calls + 1 }

-- Both files are there, or no key is loaded; the files stay as they are.
both_exist-cases :
    (private_path public_path : Str) (h : Host) (m : Machine)
    → ((content : Bytes) × (m.files public_path ≡ some content)
        × (both_exist private_path public_path h m ≡ (ok true, later (later m))))
      ⊎ ((m' : Machine) × (m'.files ≡ m.files)
          × (both_exist private_path public_path h m ≡ (ok false, m')))
unfolding both_exist ◌>>=◌
both_exist-cases private_path public_path h m = elim (Bool-cases (h.fails m.calls)) [
  | inl f0 ↦ inr (later m, refl, rw f0 refl)
  | inr w0 ↦ elim (Option-cases (m.files private_path)) [
    | inl f1 ↦ inr (later m, refl, rw (w0, f1) refl)
    | inr (_, private) ↦ elim (Bool-cases (h.fails (m.calls + 1))) [
      | inl f2 ↦ inr (later (later m), refl, rw (w0, private, f2) refl)
      | inr w2 ↦ elim (Option-cases (m.files public_path)) [
        | inl f3 ↦ inr (later (later m), refl, rw (w0, private, w2, f3) refl)
        | inr (content, public) ↦ inl (content, public, rw (w0, private, w2, public) refl)
      ]
    ]
  ]
]

module _ (lib : KeyLib) (private_path public_path : Str) where
  -- A start on a saved pair, with no failing call, gives the key.
  saved_is_loaded :
      (key : RsaPrivateKey) (h : Host) (m : Machine)
      → ((n : ℕ) → h.fails n ≡ false)
      → IsSaved lib private_path public_path key m.files
      → (load_or_generate_key_pair lib private_path public_path h m).0 ≡ ok key
  unfolding load_or_generate_key_pair both_exist load_private_key ◌>>=◌
  saved_is_loaded key h m works s =
      let (content, there, block, decoded, parsed) = s.private_there in
      rw
        (
          works m.calls,
          there,
          works (m.calls + 1),
          s.public_there.1,
          there,
          works (m.calls + 1 + 1),
          decoded,
          parsed,
        )
        refl

  loaded-IsSaved :
      (key : RsaPrivateKey) (h : Host) (m : Machine)
      → (public : (content : Bytes) × (m.files public_path ≡ some content))
      → (load_private_key lib private_path h m).0 ≡ ok key
      → IsSaved lib private_path public_path key (load_private_key lib private_path h m).1.files
  unfolding load_private_key ◌>>=◌
  loaded-IsSaved key h m public q = elim (Option-cases (m.files private_path)) [
    | inl absent ↦ cc (rw absent at q)
    | inr (content, there) ↦ elim (Bool-cases (h.fails m.calls)) [
      | inl failed ↦ cc (rw (there, failed) at q)
      | inr works ↦ elim (Option-cases (lib.pem_decode content)) [
        | inl garbled ↦ cc (rw (there, works, garbled) at q)
        | inr (block, decoded) ↦ elim (Option-cases (lib.parse_pkcs1 block)) [
          | inl unparsed ↦ cc (rw (there, works, decoded, unparsed) at q)
          | inr (k, parsed) ↦
              rw (there, works, decoded)
                (record {
                  private_there = (
                    content,
                    there,
                    block,
                    decoded,
                    parsed ∙ ap some (cc (rw (there, works, decoded, parsed) at q)),
                  );
                  public_there = public;
                })
        ]
      ]
    ]
  ]

  abbrev private_content : RsaPrivateKey → Bytes
  private_content k = lib.pem_encode (codes "RSA PRIVATE KEY") (lib.marshal_pkcs1 k)

  abbrev written : (Str → Option Bytes) → RsaPrivateKey → Bytes → Str → Option Bytes
  written files k der =
      put_file public_path (some (lib.pem_encode (codes "PUBLIC KEY") der))
        (put_file private_path (some (private_content k)) files)

  written-IsSaved :
      (files : Str → Option Bytes) (k : RsaPrivateKey) (der : Bytes)
      → IsKeyLib lib
      → private_path ≢ public_path
      → IsSaved lib private_path public_path k (written files k der)
  written-IsSaved files k der good apart = record {
    private_there = (
      private_content k,
      rw (str_eq_ne private_path public_path apart, str_eq_refl private_path) refl,
      lib.marshal_pkcs1 k,
      good.pem _ _,
      good.pkcs1 k,
    );
    public_there = (lib.pem_encode (codes "PUBLIC KEY") der, rw (str_eq_refl public_path) refl);
  }

  generated-IsSaved :
      (key : RsaPrivateKey) (h : Host) (m : Machine)
      → IsKeyLib lib
      → private_path ≢ public_path
      → (generate_key_pair lib private_path public_path h m).0 ≡ ok key
      → IsSaved lib private_path public_path key
          (generate_key_pair lib private_path public_path h m).1.files
  unfolding generate_key_pair save_private_key save_public_key ◌>>=◌
  generated-IsSaved key h m good apart q = elim (Bool-cases (h.fails m.calls)) [
    | inl f0 ↦ cc (rw f0 at q)
    | inr w0 ↦ elim (Option-cases (lib.generate m.calls)) [
      | inl f1 ↦ cc (rw (w0, f1) at q)
      | inr (k, drawn) ↦ elim (Bool-cases (h.fails (m.calls + 1))) [
        | inl f2 ↦ cc (rw (w0, drawn, f2) at q)
        | inr w2 ↦ elim (Bool-cases (h.fails (m.calls + 1 + 1))) [
          | inl f3 ↦ cc (rw (w0, drawn, w2, f3) at q)
          | inr w3 ↦ elim (Bool-cases (h.fails (m.calls + 1 + 1 + 1))) [
            | inl f4 ↦ cc (rw (w0, drawn, w2, w3, f4) at q)
            | inr w4 ↦ elim (Option-cases (lib.marshal_pkix k.public)) [
              | inl f5 ↦ cc (rw (w0, drawn, w2, w3, w4, f5) at q)
              | inr (der, marshalled) ↦ elim (Bool-cases (h.fails (m.calls + 1 + 1 + 1 + 1))) [
                | inl f6 ↦ cc (rw (w0, drawn, w2, w3, w4, marshalled, f6) at q)
                | inr w6 ↦
                    let same : k ≡ key = cc (rw (w0, drawn, w2, w3, w4, marshalled, w6) at q) in
                    rw (w0, drawn, w2, w3, w4, marshalled, w6)
                      (subst (λ x. IsSaved lib private_path public_path x (written m.files k der))
                        same (written-IsSaved m.files k der good apart))
              ]
            ]
          ]
        ]
      ]
    ]
  ]

  load_or_generate-IsSaved :
      (key : RsaPrivateKey) (h : Host) (m : Machine)
      → IsKeyLib lib
      → private_path ≢ public_path
      → (load_or_generate_key_pair lib private_path public_path h m).0 ≡ ok key
      → IsSaved lib private_path public_path key
          (load_or_generate_key_pair lib private_path public_path h m).1.files
  unfolding load_or_generate_key_pair ◌>>=◌
  load_or_generate-IsSaved key h m good apart q =
      elim (both_exist-cases private_path public_path h m) [
        | inr (m', same, missing) ↦
            rw missing (generated-IsSaved key h m' good apart (rw missing at q))
        | inl (content, there, both) ↦
            rw both (loaded-IsSaved key h (later (later m)) (content, there) (rw both at q))
      ]

-- A start that gives a key pair leaves files from which every later start gives the same key: where
-- the two paths differ, the two files are still as the first start left them, and no call of the
-- later start fails. Sessions and tokens survive a restart.
pub restart_keeps_key :
    (lib : KeyLib) (private_path public_path : Str) (key : RsaPrivateKey) (h h' : Host)
    (m m' : Machine)
    → IsKeyLib lib
    → private_path ≢ public_path
    → (load_or_generate_key_pair lib private_path public_path h m).0 ≡ ok key
    → (load_or_generate_key_pair lib private_path public_path h m).1.files ≡ m'.files
    → ((n : ℕ) → h'.fails n ≡ false)
    → (load_or_generate_key_pair lib private_path public_path h' m').0 ≡ ok key
restart_keeps_key lib private_path public_path key h h' m m' good apart first kept works =
    saved_is_loaded lib private_path public_path key h' m' works (
      subst (IsSaved lib private_path public_path key) kept
        (load_or_generate-IsSaved lib private_path public_path key h m good apart first))
