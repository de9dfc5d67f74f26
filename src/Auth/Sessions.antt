-- ===== src/Auth/Sessions.antt =====
-- Sessions: what Auth issues is what Validate accepts, for as long as it lasts.
use tea_elephant_memory.Prelude.{
  ℕ, Bool, pos, ◌≤ℤ◌, ◌≡◌, refl, true, false, not, none, some, [], Bytes, bytes_eq, ◌+ℤ◌, arith,
  ◌==◌,
}
use tea_elephant_memory.Clock.{Time, before, after, hours}
use tea_elephant_memory.Store.{Db, Result, ok, err, UserRow, exists}
use tea_elephant_memory.Adapter.Users.Accounts.{get_or_create_user_twice}
use tea_elephant_memory.Auth.{
  AuthError, wrapped, answer, fails, Token, Key, ecdsa_private, ecdsa_public, Libraries, Service,
  NewClaims, ValidationResponse, Session, es256, get_secret, verification_key, claims_of_valid,
  extract_valid_claims, issuer_uuid, validate,
}
use tea_elephant_memory.Auth.SignIn.{jwt_duration, unique_of, new_claims, issue_session, sign_in}

-- What a parser reads of a token that the program has signed.
abbrev pub token_of : NewClaims → Token
token_of c = record {
  is_ecdsa = true;
  alg = es256;
  kid = none;
  claims = some (record {
    iss = ok c.issuer;
    exp = ok (some c.expires_at);
    iat = ok none;
    jti = some c.id;
    admin = none;
  });
  valid = true;
}

-- An instant from the epoch on that 64 bits of nanoseconds hold: its seconds are exact in a token.
abbrev pub InRange : Time → Type 0
InRange t = pos 0 ≤ℤ t × t ≤ℤ pos 9_223_372_036_854_775_807

-- What the documentation of the packages says of the claims that the program makes, for the keys of the
-- curve P-256, which are those that ES256 takes: such a key signs the claims; the signed text is parsed,
-- before its date of expiry, which counts whole seconds, where the key function gives the public part
-- of the key to the token not yet verified, and refused from then on; and the text of an identifier is
-- parsed back.
pub record SigningLaws (lib : Libraries) (is_p256 : ℕ → Bool) : Type 0 where
  pub signs :
      (user jti k : ℕ) (exp : Time)
      → is_p256 k ≡ true
      → (text : Bytes) × (lib.signed_string (new_claims lib user jti exp) (ecdsa_private k)
          ≡ ok text)
  pub parses :
      (user jti k : ℕ) (exp now : Time) (text : Bytes) (key_func : Token → Result AuthError Key)
      → is_p256 k ≡ true
      → InRange (lib.numeric_date exp)
      → lib.signed_string (new_claims lib user jti exp) (ecdsa_private k) ≡ ok text
      → key_func (record (token_of (new_claims lib user jti exp)) { valid = false })
        ≡ ok (ecdsa_public (lib.public_of k))
      → before now (lib.numeric_date exp) ≡ true
      → lib.parse none now text key_func ≡ ok (token_of (new_claims lib user jti exp))
  pub refuses :
      (user jti k : ℕ) (exp now : Time) (text : Bytes) (key_func : Token → Result AuthError Key)
      → InRange (lib.numeric_date exp)
      → lib.signed_string (new_claims lib user jti exp) (ecdsa_private k) ≡ ok text
      → before now (lib.numeric_date exp) ≡ false
      → (e : AuthError) × (lib.parse none now text key_func ≡ err e)
  pub reads_uuid : (id : ℕ) → lib.uuid_parse (lib.uuid_string id) ≡ ok id

-- Apple's client takes the code for that of a user, and the configured secret is an ECDSA key.
pub record Accepts (lib : Libraries) (a : Service) (code unique : Bytes) (k : ℕ) : Type 0 where
  pub response : ValidationResponse
  pub verified : lib.verify_app_token a.cfg.client_id a.secret code ≡ ok response
  pub no_error : response.error ≡ []
  pub has_claims : lib.get_claims response.id_token ≡ ok tt
  pub has_unique : lib.get_unique_id response.id_token ≡ ok unique
  pub key : get_secret lib a ≡ ok (ecdsa_private k)

still_valid : (now exp : Time) → before now exp ≡ true → not (after now exp) ≡ true
still_valid now exp h = ground arith

module _ (lib : Libraries) (is_p256 : ℕ → Bool) (laws : SigningLaws lib is_p256) where
  unique_lem :
      (a : Service) (code unique : Bytes) (k : ℕ)
      → Accepts lib a code unique k
      → unique_of lib a code ≡ answer unique
  unfolding unique_of bytes_eq
  unique_lem a code unique k acc =
      rw (acc.verified, acc.no_error, acc.has_claims, acc.has_unique) refl

  validate_before :
      (a : Service) (k user jti : ℕ) (exp now : Time) (text : Bytes)
      → get_secret lib a ≡ ok (ecdsa_private k)
      → is_p256 k ≡ true
      → InRange (lib.numeric_date exp)
      → lib.signed_string (new_claims lib user jti exp) (ecdsa_private k) ≡ ok text
      → before now (lib.numeric_date exp) ≡ true
      → validate lib a now text
        ≡ answer (record { id = user; jwt = text; expired_at = lib.numeric_date exp })
  unfolding validate new_claims verification_key extract_valid_claims claims_of_valid issuer_uuid
  validate_before a k user jti exp now text key curve range signed early =
      rw
        (
          laws.parses user jti k exp now text (verification_key lib a) curve range signed
              (rw key refl) early,
          still_valid now (lib.numeric_date exp) early,
          laws.reads_uuid user,
        )
        refl

  validate_after :
      (a : Service) (k user jti : ℕ) (exp now : Time) (text : Bytes)
      → InRange (lib.numeric_date exp)
      → lib.signed_string (new_claims lib user jti exp) (ecdsa_private k) ≡ ok text
      → before now (lib.numeric_date exp) ≡ false
      → (e : AuthError) × (validate lib a now text ≡ fails e)
  unfolding validate new_claims
  validate_after a k user jti exp now text range signed late =
      let (e, refused) =
        laws.refuses user jti k exp now text (verification_key lib a) range signed late in
      (wrapped "parse jwt" e, rw refused refl)

  issue_lem :
      (a : Service) (jti user k : ℕ) (now : Time) (unique text : Bytes)
      → get_secret lib a ≡ ok (ecdsa_private k)
      → lib.signed_string (new_claims lib user jti (now +ℤ jwt_duration)) (ecdsa_private k)
        ≡ ok text
      → issue_session lib a jti now unique user
        ≡ answer (record {
          jwt = text;
          user = record { id = user; apple_id = unique };
          expired_at = now +ℤ jwt_duration;
        })
  unfolding issue_session
  issue_lem a jti user k now unique text key signed = rw (key, signed) refl

  -- With packages that behave as documented, on a healthy connection, for a code that Apple takes, a key of
  -- the curve P-256 as the secret, a new identifier, and an expiry from the epoch on that 64 bits of
  -- nanoseconds hold: the sign-in answers a session of 24 hours. Until that time,
  -- as the token states it, Validate answers the session's user for the session's token, and from
  -- then on it fails. A later sign-in of the same Apple user, with any code, answers a session of the
  -- same user and changes nothing in the storage.
  pub sign_in-validate :
      (a : Service) (id jti later_id later_jti k : ℕ) (now later : Time)
      (code later_code unique : Bytes) (db : Db)
      → Accepts lib a code unique k
      → Accepts lib a later_code unique k
      → is_p256 k ≡ true
      → InRange (lib.numeric_date (now +ℤ hours 24))
      → db.faults ≡ []
      → exists (λ (u : UserRow). u.id == id) db.users ≡ false
      → (s : Session) × (db' : Db) × (sign_in lib a id jti now code db ≡ (answer s, db'))
        × (s.expired_at ≡ now +ℤ hours 24)
        × ((time : Time)
            → before time (lib.numeric_date s.expired_at) ≡ true
            → validate lib a time s.jwt
              ≡ answer (record {
                id = s.user.id;
                jwt = s.jwt;
                expired_at = lib.numeric_date s.expired_at;
              }))
        × ((time : Time)
            → before time (lib.numeric_date s.expired_at) ≡ false
            → (e : AuthError) × (validate lib a time s.jwt ≡ fails e))
        × ((s' : Session) × (sign_in lib a later_id later_jti later later_code db'
              ≡ (answer s', db'))
            × (s'.user.id ≡ s.user.id))
  unfolding sign_in
  sign_in-validate a id jti later_id later_jti k now later code later_code unique db acc acc' curve
        range healthy new =
      let (user, db', first, second) =
        get_or_create_user_twice id later_id now later unique db healthy new in
      let exp = now +ℤ jwt_duration in
      let (text, signed) = laws.signs user jti k exp curve in
      let (text', signed') = laws.signs user later_jti k (later +ℤ jwt_duration) curve in
      (
        record { jwt = text; user = record { id = user; apple_id = unique }; expired_at = exp },
        db',
        rw
            (
              unique_lem a code unique k acc,
              first,
              issue_lem a jti user k now unique text acc.key signed,
            )
            refl,
        refl,
        λ time early. validate_before a k user jti exp time text acc.key curve range signed early,
        λ time late. validate_after a k user jti exp time text range signed late,
        (
          record {
            jwt = text';
            user = record { id = user; apple_id = unique };
            expired_at = later +ℤ jwt_duration;
          },
          rw
              (
                unique_lem a later_code unique k acc',
                second,
                issue_lem a later_jti user k later unique text' acc.key signed',
              )
              refl,
          refl,
        ),
      )
