-- ===== src/Auth/Tests.antt =====
-- Instances of the theorems on authentication, over packages that behave as documented: a signed text is
-- the key followed by the claims, and an administrator's token the number of its key.
use tea_elephant_memory.Prelude.{
  ℕ, zero, suc, ◌*◌, ◌/◌, ◌+◌, inl, inr, Bool-cases, ◌≡◌, refl, ap, sym, subst, Bool, true, false,
  Option, none, some, [], ◌∷◌, ◌++◌, Bytes, pos, negsuc, length, take, drop, take-append,
  drop-append, ◌==◌, ==_refl, if◌then◌else◌, arith, ◌+ℤ◌, bytes_eq, bytes_eq→eq, ◌∙◌,
}
use tea_elephant_memory.Clock.{Time, before, hours}
use tea_elephant_memory.Domain.{not_admin, user_not_found, unauthorized, jwt_incorrect}
use tea_elephant_memory.Store.{Db, Result, ok, err, exists}
use tea_elephant_memory.Auth.{
  AuthError, foreign, sentinel, answer, fails, panics, Claims, Token, Key, ecdsa_private,
  ecdsa_public, other_key, ParserOptions, NewClaims, Libraries, Service, Session, AdminPrincipal,
  ValidUser, es256, admin_issuer, key_of, string_or_empty, or_default, admin_verification_key,
  claims_of_valid, principal_of, validate_admin, validate, get_secret, is_true, bearer_prefix,
}
use tea_elephant_memory.Auth.SignIn.{new_claims, sign_in}
use tea_elephant_memory.Auth.Requests.{Principals, intercept_response, ws_init_func}
use tea_elephant_memory.Auth.Admin.{ParserLaws, validate_admin_genuine, validate_admin_dates}
use tea_elephant_memory.Auth.Sessions.{token_of, SigningLaws, Accepts, sign_in-validate}
use tea_elephant_memory.Auth.Principals.{nobody, Guards, principals_lem}

abbrev sign_of : Time → ℕ
sign_of (pos n) = 0
sign_of (negsuc n) = 1

abbrev size_of : Time → ℕ
size_of (pos n) = n
size_of (negsuc n) = n

abbrev time_of : ℕ → ℕ → Time
time_of zero n = pos n
time_of (suc s) n = negsuc n

time_round_trip : (t : Time) → time_of (sign_of t) (size_of t) ≡ t
time_round_trip (pos n) = refl
time_round_trip (negsuc n) = refl

abbrev encoded : NewClaims → ℕ → Bytes
encoded c k = k ∷ sign_of c.expires_at ∷ size_of c.expires_at ∷ length c.issuer ∷ (c.issuer ++ c.id)

-- The only key of the curve is the configured one.
abbrev is_p256 : ℕ → Bool
is_p256 k = k == 7

-- Whole seconds.
abbrev numeric_date : Time → Time
numeric_date (pos n) = pos (n / 1_000_000_000 * 1_000_000_000)
numeric_date (negsuc n) = negsuc (n / 1_000_000_000 * 1_000_000_000 + 999_999_999)

abbrev sign : NewClaims → Key → Result AuthError Bytes
sign c (ecdsa_private k) = if k == 7 then ok (encoded c k) else err (foreign 1)
sign c (ecdsa_public k) = err (foreign 1)
sign c (other_key k) = err (foreign 1)

abbrev checked : ℕ → Token → Result AuthError Key → Result AuthError Token
checked k token (ok (ecdsa_public p)) = if p == suc k then ok token else err (foreign 2)
checked k token (ok (ecdsa_private p)) = err (foreign 2)
checked k token (ok (other_key p)) = err (foreign 2)
checked k token (err e) = err e

abbrev decoded : ℕ → ℕ → ℕ → Bytes → NewClaims
decoded s n len rest = record {
  issuer = take len rest;
  expires_at = time_of s n;
  id = drop len rest;
}

abbrev parse_session : Time → Bytes → (Token → Result AuthError Key) → Result AuthError Token
parse_session now (k ∷ s ∷ n ∷ len ∷ rest) key_func =
    if before now (time_of s n)
    then checked k (token_of (decoded s n len rest))
        (key_func (record (token_of (decoded s n len rest)) { valid = false }))
    else err (foreign 3)
parse_session now text key_func = err (foreign 4)

abbrev admin_claims : Bytes → Claims
admin_claims issuer = record {
  iss = ok issuer;
  exp = ok none;
  iat = ok (some (pos 4));
  jti = none;
  admin = some true;
}

abbrev admin_token : Bytes → Token
admin_token issuer = record {
  is_ecdsa = true;
  alg = es256;
  kid = none;
  claims = some (admin_claims issuer);
  valid = true;
}

abbrev parse_admin : ParserOptions → Bytes → (Token → Result AuthError Key) → Result AuthError Token
parse_admin opts [] key_func = err (foreign 4)
parse_admin opts (k ∷ text) key_func =
    checked k (admin_token opts.issuer) (key_func (admin_token opts.issuer))

abbrev parse :
    Option ParserOptions → Time → Bytes → (Token → Result AuthError Key) → Result AuthError Token
parse none now text key_func = parse_session now text key_func
parse (some opts) now text key_func = parse_admin opts text key_func

abbrev packages : Libraries
packages = record {
  parse = parse;
  signed_string = sign;
  numeric_date = numeric_date;
  uuid_parse = λ text. elim text [ [] ↦ err (foreign 5) | b ∷ rest ↦ ok b ];
  uuid_string = λ id. id ∷ [];
  pem_decode = λ text. some text;
  parse_pkcs8_private_key = λ text. ok (ecdsa_private 7);
  parse_pkix_public_key = λ text. ok (ecdsa_public 9);
  public_of = suc;
  read_file = λ path. ok path;
  generate_client_secret = λ secret team client key. ok secret;
  verify_app_token =
      λ client secret code. ok (record { error = []; error_description = []; id_token = code });
  get_claims = λ token. ok tt;
  get_unique_id = λ token. ok (b'u' ∷ []);
}

encoded_parses :
    (c : NewClaims) (k : ℕ) (now : Time) (key_func : Token → Result AuthError Key)
    → key_func (record (token_of c) { valid = false }) ≡ ok (ecdsa_public (suc k))
    → before now c.expires_at ≡ true
    → parse_session now (encoded c k) key_func ≡ ok (token_of c)
encoded_parses c k now key_func key early =
    rw
      (
        time_round_trip c.expires_at,
        take-append c.issuer c.id,
        drop-append c.issuer c.id,
        early,
        key,
        ==_refl (suc k),
      )
      refl

abbrev value_or : {A : Type 0} → A → Result AuthError A → A
value_or default (ok a) = a
value_or default (err e) = default

not_ok : {A : Type 0} (e : AuthError) (a : A) → ◌≡◌ {A = Result AuthError A} (err e) (ok a) → ⊥
not_ok e a h = ground arith

ok_injective : {A : Type 0} (a b : A) → ◌≡◌ {A = Result AuthError A} (ok a) (ok b) → a ≡ b
ok_injective a b h = ap (value_or a) h

encoded_lem :
    (c : NewClaims) (k : ℕ) (text : Bytes) → sign c (ecdsa_private k) ≡ ok text → encoded c k ≡ text
encoded_lem c k text h = elim (Bool-cases (k == 7)) [
  | inl e ↦ ok_injective (encoded c k) text (sym (rw e refl) ∙ h)
  | inr e ↦ absurd (not_ok (foreign 1) text (sym (rw e refl) ∙ h))
]

packages-SigningLaws : SigningLaws packages is_p256
unfolding new_claims
packages-SigningLaws = record {
  signs = λ user jti k exp curve. (encoded (new_claims packages user jti exp) k, rw curve refl);
  parses = λ user jti k exp now text key_func curve range signed key early.
      let c = new_claims packages user jti exp in
      subst (λ t. parse_session now t key_func ≡ ok (token_of c)) (encoded_lem c k text signed)
        (encoded_parses c k now key_func key early);
  refuses = λ user jti k exp now text key_func range signed late.
      let c = new_claims packages user jti exp in
      (
        foreign 3,
        subst (λ t. parse_session now t key_func ≡ err (foreign 3)) (encoded_lem c k text signed)
            (rw (time_round_trip c.expires_at, late) refl),
      );
  reads_uuid = λ id. refl;
}

abbrev service : Service
service = record {
  cfg = record {
    secret = b's' ∷ [];
    team_id = [];
    client_id = [];
    key_id = [];
    admin_public_key_path = [];
  };
  secret = b's' ∷ [];
  admin_keys = ([], 9) ∷ [];
}

abbrev database : Db
database = record {
  users = record { id = 51; apple_id = b'x' ∷ []; created_at = pos 1 } ∷ [];
  teas = [];
  tag_categories = [];
  tags = [];
  tea_tags = [];
  qr_records = [];
  collections = [];
  items = [];
  devices = [];
  notifications = [];
  consumptions = [];
  faults = [];
}

accepts : (code : Bytes) → Accepts packages service code (b'u' ∷ []) 7
unfolding get_secret
accepts code = record {
  response = record { error = []; error_description = []; id_token = code };
  verified = refl;
  no_error = refl;
  has_claims = refl;
  has_unique = refl;
  key = refl;
}

sign_in-validate_example :
    (s : Session) × (db' : Db) × (sign_in packages service 52 1 (pos 1000) (b'c' ∷ []) database
      ≡ (answer s, db'))
    × (s.expired_at ≡ pos 1000 +ℤ hours 24)
    × ((time : Time)
        → before time (packages.numeric_date s.expired_at) ≡ true
        → validate packages service time s.jwt
          ≡ answer (record {
            id = s.user.id;
            jwt = s.jwt;
            expired_at = packages.numeric_date s.expired_at;
          }))
    × ((time : Time)
        → before time (packages.numeric_date s.expired_at) ≡ false
        → (e : AuthError) × (validate packages service time s.jwt ≡ fails e))
    × ((s' : Session) × (sign_in packages service 53 2 (pos 2000) (b'd' ∷ []) db'
          ≡ (answer s', db'))
        × (s'.user.id ≡ s.user.id))
unfolding exists ◌+ℤ◌
sign_in-validate_example =
    sign_in-validate packages is_p256 packages-SigningLaws service 52 1 53 2 7 (pos 1000) (pos 2000)
      (b'c' ∷ []) (b'd' ∷ []) (b'u' ∷ []) database (accepts (b'c' ∷ [])) (accepts (b'd' ∷ [])) refl
      (omega arith, omega arith) refl refl

-- An administrator's token, with no date of expiry.
abbrev undated : Bytes
undated = 8 ∷ []

validate_admin_dates_example :
    (is_true (admin_claims admin_issuer).admin ≡ false
      → validate_admin packages service (pos 5) undated ≡ fails (sentinel not_admin))
    × (is_true (admin_claims admin_issuer).admin ≡ true
        → ((iat exp : Time)
            → (admin_claims admin_issuer).iat ≡ ok (some iat)
            → (admin_claims admin_issuer).exp ≡ ok (some exp)
            → validate_admin packages service (pos 5) undated
              ≡ answer (record { jti = []; issued_at = iat; expires_at = exp }))
          × ((exp : Option Time)
              → (admin_claims admin_issuer).iat ≡ ok none
              → (admin_claims admin_issuer).exp ≡ ok exp
              → validate_admin packages service (pos 5) undated ≡ panics)
          × ((iat : Option Time)
              → (admin_claims admin_issuer).iat ≡ ok iat
              → (admin_claims admin_issuer).exp ≡ ok none
              → validate_admin packages service (pos 5) undated ≡ panics))
unfolding admin_verification_key key_of bytes_eq
validate_admin_dates_example =
    validate_admin_dates packages service (pos 5) undated (admin_token admin_issuer)
      (admin_claims admin_issuer) refl refl refl

-- An administrator's token of the key 9, with both dates.
abbrev dated_claims : Claims
dated_claims = record (admin_claims admin_issuer) { exp = ok (some (pos 9000)) }

abbrev dated_token : Token
dated_token = record (admin_token admin_issuer) { claims = some dated_claims }

abbrev parse_dated : ParserOptions → Bytes → (Token → Result AuthError Key) → Result AuthError Token
parse_dated opts [] key_func = err (foreign 4)
parse_dated opts (k ∷ text) key_func =
    if bytes_eq opts.issuer admin_issuer
    then checked k dated_token (key_func dated_token)
    else err (foreign 6)

abbrev dated_packages : Libraries
dated_packages = record packages {
  parse = λ opts now text key_func. elim opts [
    | none ↦ err (foreign 4)
    | some options ↦ parse_dated options text key_func
  ];
}

abbrev signed : Key → Bytes → Bool
signed (ecdsa_public p) [] = false
signed (ecdsa_public p) (k ∷ text) = p == suc k
signed (ecdsa_private p) text = false
signed (other_key p) text = false

guarded :
    (b : Bool) (r : Result AuthError Token) (token : Token) (e : AuthError)
    → (if b then r else err e) ≡ ok token
    → (b ≡ true) × (r ≡ ok token)
guarded true r token e h = (refl, h)
guarded false r token e h = absurd (ground arith)

abbrev issuer_of : Option Claims → Result AuthError Bytes
issuer_of none = err (foreign 7)
issuer_of (some claims) = claims.iss

if_ok :
    (b : Bool) (given token : Token) (e : AuthError)
    → (if b then ok given else err e) ≡ ok token
    → (b ≡ true) × (given ≡ token)
if_ok true given token e h = (refl, ok_injective given token h)
if_ok false given token e h = absurd (ground arith)

checked_lem :
    (k : ℕ) (text : Bytes) (given token : Token) (r : Result AuthError Key)
    → checked k given r ≡ ok token
    → (key : Key) × (r ≡ ok key) × (signed key (k ∷ text) ≡ true) × (given ≡ token)
checked_lem k text given token (ok (ecdsa_public p)) h =
    let (e, same) = if_ok (p == suc k) given token (foreign 2) h in (ecdsa_public p, refl, e, same)
checked_lem k text given token (ok (ecdsa_private p)) h = absurd (ground arith)
checked_lem k text given token (ok (other_key p)) h = absurd (ground arith)
checked_lem k text given token (err e) h = absurd (ground arith)

dated_accepted :
    (opts : ParserOptions) (text : Bytes) (key_func : Token → Result AuthError Key) (token : Token)
    → parse_dated opts text key_func ≡ ok token
    → (key : Key) × (key_func token ≡ ok key)
      × (signed key text ≡ true)
      × ((claims : Claims) → token.claims ≡ some claims → claims.iss ≡ ok opts.issuer)
dated_accepted opts [] key_func token h = absurd (ground arith)
dated_accepted opts (k ∷ text) key_func token h =
    let (e, parsed) =
      guarded (bytes_eq opts.issuer admin_issuer) (checked k dated_token (key_func dated_token))
        token (foreign 6) h in
    let (key, chosen, signature, same) =
      checked_lem k text dated_token token (key_func dated_token) parsed in
    (
      key,
      subst (λ t. key_func t ≡ ok key) same chosen,
      signature,
      λ claims there.
          ap issuer_of (sym there)
          ∙ sym (ap (λ (t : Token). issuer_of t.claims) same)
          ∙ ap ok (sym (bytes_eq→eq opts.issuer admin_issuer e)),
    )

dated_packages-ParserLaws : ParserLaws dated_packages signed
dated_packages-ParserLaws = record {
  accepted = λ opts now text key_func token h. dated_accepted opts text key_func token h;
}

validate_admin_genuine_example :
    (token : Token) × (claims : Claims) × (k : ℕ) × (or_default
        (key_of (string_or_empty token.kid) service.admin_keys)
        (key_of [] service.admin_keys)
      ≡ some k)
    × (signed (ecdsa_public k) (8 ∷ []) ≡ true)
    × (token.alg ≡ es256)
    × (token.claims ≡ some claims)
    × (claims.iss ≡ ok admin_issuer)
    × (claims.admin ≡ some true)
unfolding validate_admin admin_verification_key key_of bytes_eq claims_of_valid principal_of
validate_admin_genuine_example =
    validate_admin_genuine dated_packages signed dated_packages-ParserLaws service (pos 5) (8 ∷ [])
      (record { jti = []; issued_at = pos 4; expires_at = pos 9000 }) refl

principals_lem_example :
    ((intercept_response packages service (pos 5) true [] nobody ≡ answer (nobody, false))
      × (ws_init_func packages service (pos 5) nobody [] ≡ answer nobody)
      × Guards nobody (err user_not_found) (err unauthorized))
    × ((u : ValidUser)
        → validate packages service (pos 5) undated ≡ answer u
        → let ctx : Principals = record { user = some u; admin = none } in
          (intercept_response packages service (pos 5) true (bearer_prefix ++ undated) nobody
            ≡ answer (ctx, false))
          × (ws_init_func packages service (pos 5) nobody (bearer_prefix ++ undated) ≡ answer ctx)
          × Guards ctx (ok u) (err unauthorized))
    × ((e : AuthError) (p : AdminPrincipal)
        → validate packages service (pos 5) undated ≡ fails e
        → validate_admin packages service (pos 5) undated ≡ answer p
        → let ctx : Principals = record { user = none; admin = some p } in
          (intercept_response packages service (pos 5) true (bearer_prefix ++ undated) nobody
            ≡ answer (ctx, false))
          × (ws_init_func packages service (pos 5) nobody (bearer_prefix ++ undated) ≡ answer ctx)
          × Guards ctx (err user_not_found) (ok tt))
    × ((e e' : AuthError)
        → validate packages service (pos 5) undated ≡ fails e
        → validate_admin packages service (pos 5) undated ≡ fails e'
        → (intercept_response packages service (pos 5) true (bearer_prefix ++ undated) nobody
            ≡ answer (nobody, true))
          × (ws_init_func packages service (pos 5) nobody (bearer_prefix ++ undated)
              ≡ fails (sentinel jwt_incorrect)))
    × (validate packages service (pos 5) undated ≡ panics
        → (intercept_response packages service (pos 5) true (bearer_prefix ++ undated) nobody
            ≡ panics)
          × (ws_init_func packages service (pos 5) nobody (bearer_prefix ++ undated) ≡ panics))
    × ((e : AuthError)
        → validate packages service (pos 5) undated ≡ fails e
        → validate_admin packages service (pos 5) undated ≡ panics
        → (intercept_response packages service (pos 5) true (bearer_prefix ++ undated) nobody
            ≡ panics)
          × (ws_init_func packages service (pos 5) nobody (bearer_prefix ++ undated) ≡ panics))
principals_lem_example = principals_lem packages service (pos 5) undated
