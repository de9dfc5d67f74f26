-- ===== src/Auth/Admin.antt =====
-- Whose tokens ValidateAdmin accepts, and what it does with an accepted token that lacks a date.
use tea_elephant_memory.Prelude.{
  ℕ, ◌≡◌, refl, ap, subst, inl, inr, Bool, true, false, Option, Option-cases, none, some, [], Bytes,
  bytes_eq, bytes_eq→eq, arith, if◌then◌else◌,
}
use tea_elephant_memory.Clock.{Time}
use tea_elephant_memory.Domain.{not_admin}
use tea_elephant_memory.Store.{Result, ok, err}
use tea_elephant_memory.Auth.Answers.{bind_answers, check_answers, guard_answers}
use tea_elephant_memory.Auth.{
  is_true, valid_claims, sentinel, unexpected_signing_method, AuthError, answer, fails, panics,
  Claims, Token, Key, ecdsa_public, Libraries, ParserOptions, Service, AdminPrincipal, es256,
  admin_issuer, admin_options, key_of, string_or_empty, or_default, key_or_absent,
  admin_verification_key, claims_of_valid, principal_of, validate_admin,
}

-- What the documentation of jwt.Parse says of a token that it accepts: the text is signed by the key that
-- the key function gives for it, the token is valid, and it claims the issuer of the options.
pub record ParserLaws (lib : Libraries) (signed : Key → Bytes → Bool) : Type 0 where
  pub accepted :
      (opts : ParserOptions) (now : Time) (text : Bytes) (key_func : Token → Result AuthError Key)
      (token : Token)
      → lib.parse (some opts) now text key_func ≡ ok token
      → (key : Key) × (key_func token ≡ ok key)
        × (signed key text ≡ true)
        × ((claims : Claims) → token.claims ≡ some claims → claims.iss ≡ ok opts.issuer)

picked :
    (same : Bool) (found : Option ℕ) (key : Key)
    → (if same then key_or_absent found else err unexpected_signing_method) ≡ ok key
    → (k : ℕ) × (key ≡ ecdsa_public k) × (same ≡ true) × (found ≡ some k)
picked true (some k) key h = (k, ground arith, refl, refl)
picked true none key h = absurd (ground arith)
picked false found key h = absurd (ground arith)

-- The key function answers a key of the service's map, and only for the one algorithm.
admin_verification_key_lem :
    (a : Service) (token : Token) (key : Key)
    → admin_verification_key a token ≡ ok key
    → (k : ℕ) × (key ≡ ecdsa_public k)
      × (token.alg ≡ es256)
      × (or_default (key_of (string_or_empty token.kid) a.admin_keys) (key_of [] a.admin_keys)
          ≡ some k)
unfolding admin_verification_key
admin_verification_key_lem a token key h =
    let (k, same, alg, found) = picked (bytes_eq token.alg es256) _ key h in
    (k, same, bytes_eq→eq token.alg es256 alg, found)

claimed :
    (o : Option Claims) (valid : Bool) (claims : Claims)
    → valid_claims o valid ≡ answer claims
    → o ≡ some claims
claimed (some c) true claims h = ap some (ground arith)
claimed (some c) false claims h = absurd (ground arith)
claimed none valid claims h = absurd (ground arith)

is_true_lem : (o : Option Bool) → is_true o ≡ true → o ≡ some true
is_true_lem none h = absurd (ground arith)
is_true_lem (some b) h = ap some h

module _ (lib : Libraries) (signed : Key → Bytes → Bool) (laws : ParserLaws lib signed) where
  -- Where a parser with the documented behaviour is used and ValidateAdmin answers a principal, the text is
  -- a token of the algorithm ES256, signed by the administrator's key that is stored for its kid, or,
  -- if none is, be it for an absent or an unknown kid, by the default key, its issuer is the editor, and
  -- it claims to be an administrator's.
  pub validate_admin_genuine :
      (a : Service) (now : Time) (text : Bytes) (principal : AdminPrincipal)
      → validate_admin lib a now text ≡ answer principal
      → (token : Token) × (claims : Claims) × (k : ℕ) × (or_default
            (key_of (string_or_empty token.kid) a.admin_keys)
            (key_of [] a.admin_keys)
          ≡ some k)
        × (signed (ecdsa_public k) text ≡ true)
        × (token.alg ≡ es256)
        × (token.claims ≡ some claims)
        × (claims.iss ≡ ok admin_issuer)
        × (claims.admin ≡ some true)
  unfolding validate_admin claims_of_valid
  validate_admin_genuine a now text principal h =
      let (token, checked, h₁) = bind_answers _ _ principal h in
      let parsed = check_answers _ _ token checked in
      let (claims, valid, h₂) = bind_answers (claims_of_valid token) _ principal h₁ in
      let (is_admin, _) = guard_answers (is_true claims.admin) _ _ principal h₂ in
      let (key, chosen, signature, issuer) =
        laws.accepted admin_options now text (admin_verification_key a) token parsed in
      let (k, same, alg, found) = admin_verification_key_lem a token key chosen in
      let there = claimed token.claims token.valid claims valid in
      (
        token,
        claims,
        k,
        found,
        subst (λ x. signed x text ≡ true) same signature,
        alg,
        there,
        issuer claims there,
        is_true_lem claims.admin is_admin,
      )

-- Of a valid token with claims that the parser accepts, ValidateAdmin answers the principal where the token
-- claims to be an administrator's and has both dates, refuses it where it does not claim that, and
-- panics where it does but the date of issue or that of expiry is absent.
pub validate_admin_dates :
    (lib : Libraries) (a : Service) (now : Time) (text : Bytes) (token : Token) (claims : Claims)
    → lib.parse (some admin_options) now text (admin_verification_key a) ≡ ok token
    → token.claims ≡ some claims
    → token.valid ≡ true
    → (is_true claims.admin ≡ false → validate_admin lib a now text ≡ fails (sentinel not_admin))
      × (is_true claims.admin ≡ true
          → ((iat exp : Time)
              → claims.iat ≡ ok (some iat)
              → claims.exp ≡ ok (some exp)
              → validate_admin lib a now text
                ≡ answer (record {
                  jti = string_or_empty claims.jti;
                  issued_at = iat;
                  expires_at = exp;
                }))
            × ((exp : Option Time)
                → claims.iat ≡ ok none
                → claims.exp ≡ ok exp
                → validate_admin lib a now text ≡ panics)
            × ((iat : Option Time)
                → claims.iat ≡ ok iat
                → claims.exp ≡ ok none
                → validate_admin lib a now text ≡ panics))
unfolding validate_admin claims_of_valid principal_of
validate_admin_dates lib a now text token claims parsed there valid = (
  λ other. rw (parsed, there, valid, other) refl,
  λ admin. (
    λ iat exp issued expires. rw (parsed, there, valid, admin, issued, expires) refl,
    λ exp issued expires. rw (parsed, there, valid, admin, issued, expires) refl,
    λ iat issued expires. elim (Option-cases iat) [
      | inl absent ↦ rw (parsed, there, valid, admin, issued, expires, absent) refl
      | inr (t, given) ↦ rw (parsed, there, valid, admin, issued, expires, given) refl
    ],
  ),
)
