-- ===== src/Auth/Requests.antt =====
-- internal/auth/auth.go: who a request or a connection comes from, and what the resolvers ask of it.
use tea_elephant_memory.Prelude.{
  Bool, true, false, Option, none, some, [], ◌∷◌, Bytes, ◌==◌, ◌&&◌, if◌then◌else◌, length, drop,
}
use tea_elephant_memory.Clock.{Time}
use tea_elephant_memory.Domain.{CommonError, jwt_incorrect, unauthorized, user_not_found}
use tea_elephant_memory.Store.{Result, ok, err}
use tea_elephant_memory.Auth.{
  sentinel, Answer, answer, fails, panics, ◌>>=◌, Libraries, Service, ValidUser, AdminPrincipal,
  validate, validate_admin, bearer_prefix,
}

-- What the context holds under userCtxKey and adminCtxKey.
pub record Principals : Type 0 where
  pub user : Option ValidUser
  pub admin : Option AdminPrincipal

unfoldable pub has_prefix : Bytes → Bytes → Bool
has_prefix [] s = true
has_prefix (p ∷ ps) [] = false
has_prefix (p ∷ ps) (b ∷ s) = p == b && has_prefix ps s

-- strings.Replace(s, old, "", 1): without the first occurrence.
unfoldable pub remove_first : Bytes → Bytes → Bytes
unfolding has_prefix
remove_first old [] = []
remove_first old (b ∷ s) =
    let rest = remove_first old s in
    if has_prefix old (b ∷ s) then drop (length old) (b ∷ s) else b ∷ rest

-- What the two validations find a token to be.
pub data Identity : Type 0 where
  is_user : ValidUser → Identity
  is_admin : AdminPrincipal → Identity
  is_nobody : Identity

abbrev pub or_nobody : Answer AdminPrincipal → Answer Identity
or_nobody (answer principal) = answer (is_admin principal)
or_nobody (fails e) = answer is_nobody
or_nobody panics = panics

abbrev pub or_admin : Answer ValidUser → Answer AdminPrincipal → Answer Identity
or_admin (answer user) second = answer (is_user user)
or_admin (fails e) second = or_nobody second
or_admin panics second = panics

module _ (lib : Libraries) (a : Service) (now : Time) where
  -- First as a user's token, then as an administrator's.
  unfoldable pub identify : Bytes → Answer Identity
  identify token = or_admin (validate lib a now token) (validate_admin lib a now token)

  abbrev pub of_connection : Principals → Identity → Answer Principals
  of_connection ctx (is_user user) = answer (record ctx { user = some user })
  of_connection ctx (is_admin principal) = answer (record ctx { admin = some principal })
  of_connection ctx is_nobody = fails (sentinel jwt_incorrect)

  unfoldable pub ws_init_func : Principals → Bytes → Answer Principals
  unfolding identify remove_first
  ws_init_func ctx [] = answer ctx
  ws_init_func ctx (b ∷ header) =
      identify (remove_first bearer_prefix (b ∷ header)) >>= of_connection ctx

  -- The context that the next handler gets, and whether the response carries the error UNAUTHENTICATED.
  abbrev pub of_request : Principals → Identity → Answer (Principals × Bool)
  of_request ctx (is_user user) = answer (record ctx { user = some user }, false)
  of_request ctx (is_admin principal) = answer (record ctx { admin = some principal }, false)
  of_request ctx is_nobody = answer (ctx, true)

  unfoldable pub intercept_response : Bool → Bytes → Principals → Answer (Principals × Bool)
  unfolding identify remove_first
  intercept_response false header ctx = answer (ctx, false)
  intercept_response true [] ctx = answer (ctx, false)
  intercept_response true (b ∷ header) ctx =
      identify (remove_first bearer_prefix (b ∷ header)) >>= of_request ctx

abbrev pub user_or_not_found : Option ValidUser → Result CommonError ValidUser
user_or_not_found none = err user_not_found
user_or_not_found (some user) = ok user

unfoldable pub get_user : Principals → Result CommonError ValidUser
get_user ctx = user_or_not_found ctx.user

abbrev pub present : Option AdminPrincipal → Result CommonError (Unit {0})
present none = err unauthorized
present (some principal) = ok tt

unfoldable pub require_admin : Principals → Result CommonError (Unit {0})
require_admin ctx = present ctx.admin
