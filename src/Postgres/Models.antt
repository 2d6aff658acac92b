-- ===== src/Postgres/Models.antt =====
-- internal/adapter/postgres/models.go: between the entities and the rows.
use auth_service_go.Domain.{User, RefreshToken, VerificationCode}
use auth_service_go.Database.{UserModel, RefreshTokenModel, VerificationCodeModel}

abbrev pub from_domain_user : User → UserModel
from_domain_user u = record {
  id = u.id;
  email = u.email;
  password_hash = u.password_hash;
  name = u.name;
  roles = u.roles;
  created_at = u.created_at;
  updated_at = u.updated_at;
}

abbrev pub to_domain_user : UserModel → User
to_domain_user m = record {
  id = m.id;
  email = m.email;
  password_hash = m.password_hash;
  name = m.name;
  roles = m.roles;
  created_at = m.created_at;
  updated_at = m.updated_at;
}

abbrev pub from_domain_verification_code : VerificationCode → VerificationCodeModel
from_domain_verification_code c = record {
  id = c.id;
  email = c.email;
  code_hash = c.code_hash;
  expires_at = c.expires_at;
  consumed_at = c.consumed_at;
  attempts = c.attempts;
  created_at = c.created_at;
}

abbrev pub to_domain_verification_code : VerificationCodeModel → VerificationCode
to_domain_verification_code m = record {
  id = m.id;
  email = m.email;
  code_hash = m.code_hash;
  expires_at = m.expires_at;
  consumed_at = m.consumed_at;
  attempts = m.attempts;
  created_at = m.created_at;
}

abbrev pub from_domain_refresh_token : RefreshToken → RefreshTokenModel
from_domain_refresh_token t = record {
  id = t.id;
  user_id = t.user_id;
  token_hash = t.token_hash;
  expires_at = t.expires_at;
  revoked_at = t.revoked_at;
  created_at = t.created_at;
}

abbrev pub to_domain_refresh_token : RefreshTokenModel → RefreshToken
to_domain_refresh_token m = record {
  id = m.id;
  user_id = m.user_id;
  token_hash = m.token_hash;
  expires_at = m.expires_at;
  revoked_at = m.revoked_at;
  created_at = m.created_at;
}
