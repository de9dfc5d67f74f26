-- ===== src/Auth/SignIn.antt =====
-- internal/auth/auth.go: Auth, which turns a code of Apple's into a session. It draws two identifiers, a
-- user's and the token's.
use tea_elephant_memory.Prelude.{ℕ, Bytes, bytes_eq, [], ◌+ℤ◌}
use tea_elephant_memory.Clock.{Time, Duration, hours}
use tea_elephant_memory.Store.{Db, Result, ok, err}
use tea_elephant_memory.Adapter as Adapter
use tea_elephant_memory.Adapter.Users.{get_or_create_user}
use tea_elephant_memory.Auth.{
  apple_auth, of_storage, wrapped, Answer, answer, fails, panics, ◌>>=◌, check, guard, Libraries,
  Service, Session, NewClaims, get_secret,
}

-- JwtDurationHour hours.
abbrev pub jwt_duration : Duration
jwt_duration = hours 24

module _ (lib : Libraries) where
  -- What Apple knows the user by.
  unfoldable pub unique_of : Service → Bytes → Answer Bytes
  unique_of a token = do
    resp ← check "verify apple app token" (lib.verify_app_token a.cfg.client_id a.secret token)
    guard (bytes_eq resp.error []) (apple_auth resp.error_description) >>= λ _. do
      _ ← check "get claims" (lib.get_claims resp.id_token)
      check "get unique id" (lib.get_unique_id resp.id_token)

  unfoldable pub new_claims : ℕ → ℕ → Time → NewClaims
  new_claims user jti exp = record {
    issuer = lib.uuid_string user;
    expires_at = lib.numeric_date exp;
    id = lib.uuid_string jti;
  }

  unfoldable pub issue_session : Service → ℕ → Time → Bytes → ℕ → Answer Session
  unfolding new_claims
  issue_session a jti now unique user = do
    let exp = now +ℤ jwt_duration
    key ← check "get secret" (get_secret lib a)
    signed ← check "sign jwt" (lib.signed_string (new_claims user jti exp) key)
    answer
        (record { jwt = signed; user = record { id = user; apple_id = unique }; expired_at = exp })

  abbrev pub after_user :
      Service → ℕ → Time → Bytes → Result Adapter.Error ℕ × Db → Answer Session × Db
  after_user a jti now unique (ok user, db) = (issue_session a jti now unique user, db)
  after_user a jti now unique (err e, db) =
      (fails (wrapped "get or create user" (of_storage e)), db)

  abbrev pub after_unique : Service → ℕ → ℕ → Time → Answer Bytes → Db → Answer Session × Db
  after_unique a id jti now (answer unique) db =
      after_user a jti now unique (get_or_create_user id now unique db)
  after_unique a id jti now (fails e) db = (fails e, db)
  after_unique a id jti now panics db = (panics, db)

  unfoldable pub sign_in : Service → ℕ → ℕ → Time → Bytes → Db → Answer Session × Db
  unfolding unique_of issue_session
  sign_in a id jti now token db = after_unique a id jti now (unique_of a token) db
