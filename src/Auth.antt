-- ===== src/Auth.antt =====
-- internal/auth/auth.go: sign-in by Apple, the program's own tokens, the administrator's tokens, and who a
-- request comes from. The packages that it calls (jwt, apple, pem, x509, uuid, os) are the record
-- Libraries; the service's fields are the record Service. What is logged is left out, and one instant
-- stands for the readings of the clock by the parser and after it.
pub mod SignIn
pub mod Requests
pub mod Answers
pub mod Admin
pub mod Sessions
pub mod Principals
mod Tests
use Prim.Native.String.{String}
use tea_elephant_memory.Prelude.{
  ℕ, Bool, true, false, not, Option, none, some, List, [], ◌∷◌, ◌++◌, Bytes, bytes_eq, ◌==◌, ◌&&◌,
  if◌then◌else◌, ◌+ℤ◌, ℤ, pos, leb, length, drop,
}
use tea_elephant_memory.Clock.{Time, Duration, before, after, hours}
use tea_elephant_memory.Domain.{
  User, CommonError, expired_token, invalid_token, user_not_found, jwt_incorrect, unauthorized,
  not_admin,
}
use tea_elephant_memory.Store.{Db, Result, ok, err}
use tea_elephant_memory.Adapter as Adapter
use tea_elephant_memory.Adapter.Users.{get_or_create_user}

-- The package's sentinels, those of package common, what other packages return, the storage's errors, and
-- fmt.Errorf("message: %w", cause).
pub data AuthError : Type 0 where
  apple_auth : Bytes → AuthError
  empty_block_decode : AuthError
  admin_key_not_ecdsa : AuthError
  admin_verification_key_absent : AuthError
  unexpected_signing_method : AuthError
  sentinel : CommonError → AuthError
  foreign : ℕ → AuthError
  of_storage : Adapter.Error → AuthError
  wrapped : String → AuthError → AuthError

-- A call answers, fails, or panics on a nil pointer.
pub data Answer (A : Type 0) : Type 0 where
  answer : A → Answer A
  fails : AuthError → Answer A
  panics : Answer A

infixl 5 ◌>>=◌
abbrev pub ◌>>=◌ : {A B : Type 0} → Answer A → (A → Answer B) → Answer B
answer a >>= f = f a
fails e >>= f = fails e
panics >>= f = panics

-- if err != nil { return fmt.Errorf("message: %w", err) }
abbrev pub check : {A : Type 0} → String → Result AuthError A → Answer A
check message (ok a) = answer a
check message (err e) = fails (wrapped message e)

-- A method call or field access on a pointer.
abbrev pub deref : {A : Type 0} → Option A → Answer A
deref none = panics
deref (some a) = answer a

abbrev pub guard : Bool → AuthError → Answer (Unit {0})
guard true e = answer tt
guard false e = fails e

-- A key of package ecdsa, by a number, or of another kind.
pub data Key : Type 0 where
  ecdsa_private : ℕ → Key
  ecdsa_public : ℕ → Key
  other_key : ℕ → Key

-- jwt.MapClaims as its methods and type assertions read it: a claim may be of the wrong type, or absent.
pub record Claims : Type 0 where
  pub iss : Result AuthError Bytes
  pub exp : Result AuthError (Option Time)
  pub iat : Result AuthError (Option Time)
  pub jti : Option Bytes
  pub admin : Option Bool

-- jwt.Token: the claims are none where they are no MapClaims, the kid where it is no string.
pub record Token : Type 0 where
  pub is_ecdsa : Bool
  pub alg : Bytes
  pub kid : Option Bytes
  pub claims : Option Claims
  pub valid : Bool

-- The options of jwt.Parse that the package uses.
pub record ParserOptions : Type 0 where
  pub valid_methods : List Bytes
  pub issuer : Bytes
  pub audience : Bytes
  pub leeway : Duration

-- jwt.RegisteredClaims as Auth fills them.
pub record NewClaims : Type 0 where
  pub issuer : Bytes
  pub expires_at : Time
  pub id : Bytes

-- apple.ValidationResponse
pub record ValidationResponse : Type 0 where
  pub error : Bytes
  pub error_description : Bytes
  pub id_token : Bytes

pub record Libraries : Type 0 where
  pub parse :
      Option ParserOptions → Time → Bytes → (Token → Result AuthError Key) → Result AuthError Token
  pub signed_string : NewClaims → Key → Result AuthError Bytes
  pub numeric_date : Time → Time
  pub uuid_parse : Bytes → Result AuthError ℕ
  pub uuid_string : ℕ → Bytes
  pub pem_decode : Bytes → Option Bytes
  pub parse_pkcs8_private_key : Bytes → Result AuthError Key
  pub parse_pkix_public_key : Bytes → Result AuthError Key
  pub public_of : ℕ → ℕ
  pub read_file : Bytes → Result AuthError Bytes
  pub generate_client_secret : Bytes → Bytes → Bytes → Bytes → Result AuthError Bytes
  pub verify_app_token : Bytes → Bytes → Bytes → Result AuthError ValidationResponse
  pub get_claims : Bytes → Result AuthError (Unit {0})
  pub get_unique_id : Bytes → Result AuthError Bytes

pub record Configuration : Type 0 where
  pub secret : Bytes
  pub team_id : Bytes
  pub client_id : Bytes
  pub key_id : Bytes
  pub admin_public_key_path : Bytes

-- The map of the administrator's public keys by kid is a list of entries, the latest first.
pub record Service : Type 0 where
  pub cfg : Configuration
  pub secret : Bytes
  pub admin_keys : List (Bytes × ℕ)

abbrev pub bearer_prefix : Bytes
bearer_prefix = b'B' ∷ b'e' ∷ b'a' ∷ b'r' ∷ b'e' ∷ b'r' ∷ b' ' ∷ []

abbrev pub es256 : Bytes
es256 = b'E' ∷ b'S' ∷ b'2' ∷ b'5' ∷ b'6' ∷ []

-- "TeaElephantEditor"
abbrev pub admin_issuer : Bytes
admin_issuer =
    b'T' ∷ b'e' ∷ b'a' ∷ b'E' ∷ b'l' ∷ b'e' ∷ b'p' ∷ b'h' ∷ b'a' ∷ b'n' ∷ b't' ∷ b'E' ∷ b'd' ∷ b'i'
    ∷ b't' ∷ b'o' ∷ b'r' ∷ []

-- "tea-elephant-api"
abbrev pub admin_audience : Bytes
admin_audience =
    b't' ∷ b'e' ∷ b'a' ∷ b'-' ∷ b'e' ∷ b'l' ∷ b'e' ∷ b'p' ∷ b'h' ∷ b'a' ∷ b'n' ∷ b't' ∷ b'-' ∷ b'a'
    ∷ b'p' ∷ b'i' ∷ []

-- ClockSkewSeconds, as a duration.
abbrev pub clock_skew : Duration
clock_skew = pos 300_000_000_000

abbrev pub admin_options : ParserOptions
admin_options = record {
  valid_methods = es256 ∷ [];
  issuer = admin_issuer;
  audience = admin_audience;
  leeway = clock_skew;
}

pub record AdminPrincipal : Type 0 where
  pub jti : Bytes
  pub issued_at : Time
  pub expires_at : Time

-- common.User with its Session, as Validate fills it.
pub record ValidUser : Type 0 where
  pub id : ℕ
  pub jwt : Bytes
  pub expired_at : Time

pub record Session : Type 0 where
  pub jwt : Bytes
  pub user : User
  pub expired_at : Time

-- The lookup of a kid among the entries.
pub key_of : Bytes → List (Bytes × ℕ) → Option ℕ
key_of kid [] = none
key_of kid ((k, key) ∷ keys) = if bytes_eq k kid then some key else key_of kid keys

-- kid, _ := token.Header["kid"].(string)
abbrev pub string_or_empty : Option Bytes → Bytes
string_or_empty none = []
string_or_empty (some s) = s

abbrev pub or_default : Option ℕ → Option ℕ → Option ℕ
or_default none default = default
or_default (some key) default = some key

abbrev pub key_or_absent : Option ℕ → Result AuthError Key
key_or_absent none = err admin_verification_key_absent
key_or_absent (some key) = ok (ecdsa_public key)

pub admin_verification_key : Service → Token → Result AuthError Key
unfolding key_of
admin_verification_key a token =
    if bytes_eq token.alg es256
    then key_or_absent
        (or_default (key_of (string_or_empty token.kid) a.admin_keys) (key_of [] a.admin_keys))
    else err unexpected_signing_method

-- claims, ok := result.Claims.(jwt.MapClaims); if !ok || !result.Valid
abbrev pub valid_claims : Option Claims → Bool → Answer Claims
valid_claims none valid = fails (sentinel invalid_token)
valid_claims (some claims) false = fails (sentinel invalid_token)
valid_claims (some claims) true = answer claims

pub claims_of_valid : Token → Answer Claims
claims_of_valid token = valid_claims token.claims token.valid

abbrev pub is_true : Option Bool → Bool
is_true none = false
is_true (some b) = b

pub extract_valid_claims : Time → Token → Answer (Claims × Time)
unfolding claims_of_valid
extract_valid_claims now token = do
  claims ← claims_of_valid token
  claimed ← check "get expiration time" claims.exp
  exp ← deref claimed
  guard (not (after now exp)) (sentinel expired_token) >>= λ _. answer (claims, exp)

module _ (lib : Libraries) where
  pub get_secret : Service → Result AuthError Key
  get_secret a = elim (lib.pem_decode a.cfg.secret) [
    | none ↦ err empty_block_decode
    | some block ↦ elim (lib.parse_pkcs8_private_key block) [
      | ok key ↦ ok key
      | err e ↦ err (wrapped "parse pkcs8 private key" e)
    ]
  ]

  abbrev pub public_part : Result AuthError Key → Result AuthError Key
  public_part (ok (ecdsa_private k)) = ok (ecdsa_public (lib.public_of k))
  public_part (ok key) = ok key
  public_part (err e) = err (wrapped "get secret" e)

  pub verification_key : Service → Token → Result AuthError Key
  unfolding get_secret
  verification_key a token =
      if token.is_ecdsa then public_part (get_secret a) else err unexpected_signing_method

  pub issuer_uuid : Claims → Answer ℕ
  issuer_uuid claims = do
    text ← check "get issuer" claims.iss
    check "parse uuid" (lib.uuid_parse text)

  pub validate : Service → Time → Bytes → Answer ValidUser
  unfolding verification_key extract_valid_claims issuer_uuid
  validate a now jwt = do
    token ← check "parse jwt" (lib.parse none now jwt (verification_key a))
    (claims, exp) ← extract_valid_claims now token
    user_id ← issuer_uuid claims
    answer (record { id = user_id; jwt = jwt; expired_at = exp })

  -- The dates of the principal: a claim that is absent is a nil pointer.
  pub principal_of : Claims → Answer AdminPrincipal
  principal_of claims = do
    iat ← check "missing iat" claims.iat
    exp ← check "missing exp" claims.exp
    issued_at ← deref iat
    expires_at ← deref exp
    answer (record {
      jti = string_or_empty claims.jti;
      issued_at = issued_at;
      expires_at = expires_at;
    })

  pub validate_admin : Service → Time → Bytes → Answer AdminPrincipal
  unfolding admin_verification_key claims_of_valid principal_of
  validate_admin a now jwt = do
    token ←
        check "parse admin jwt" (lib.parse (some admin_options) now jwt (admin_verification_key a))
    claims ← claims_of_valid token
    guard (is_true claims.admin) (sentinel not_admin) >>= λ _. principal_of claims

  abbrev pub ecdsa_public_key : Key → Answer ℕ
  ecdsa_public_key (ecdsa_public key) = answer key
  ecdsa_public_key (ecdsa_private key) = fails admin_key_not_ecdsa
  ecdsa_public_key (other_key key) = fails admin_key_not_ecdsa

  abbrev pub decoded : Option Bytes → Answer Bytes
  decoded none = fails empty_block_decode
  decoded (some block) = answer block

  pub load_public_key_from_file : Bytes → Answer ℕ
  load_public_key_from_file path = do
    text ← check "read admin public key" (lib.read_file path)
    block ← decoded (lib.pem_decode text)
    pk ← check "parse admin public key" (lib.parse_pkix_public_key block)
    ecdsa_public_key pk

  -- The key is stored under the empty kid.
  pub load_admin_keys : Service → Answer Service
  unfolding load_public_key_from_file
  load_admin_keys a = do
    key ← load_public_key_from_file a.cfg.admin_public_key_path
    answer (record a { admin_keys = ([], key) ∷ a.admin_keys })

  abbrev pub wrapped_answer : {A : Type 0} → String → Answer A → Answer A
  wrapped_answer message (answer a) = answer a
  wrapped_answer message (fails e) = fails (wrapped message e)
  wrapped_answer message panics = panics

  pub start : Service → Answer Service
  unfolding load_admin_keys
  start a = do
    secret ←
        check "generate apple client secret"
          (lib.generate_client_secret a.cfg.secret a.cfg.team_id a.cfg.client_id a.cfg.key_id)
    wrapped_answer "load admin keys" (load_admin_keys (record a { secret = secret }))
