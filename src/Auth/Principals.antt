-- ===== src/Auth/Principals.antt =====
-- Who gets past the resolvers' guards, over HTTP and over a websocket.
use tea_elephant_memory.Prelude.{◌≡◌, refl, true, false, none, some, [], ◌++◌, Bytes}
use tea_elephant_memory.Clock.{Time}
use tea_elephant_memory.Domain.{CommonError, user_not_found, unauthorized, jwt_incorrect}
use tea_elephant_memory.Store.{Result, ok, err}
use tea_elephant_memory.Auth.{
  AuthError, sentinel, answer, fails, panics, Libraries, Service, ValidUser, AdminPrincipal,
  validate, validate_admin, bearer_prefix,
}
use tea_elephant_memory.Auth.Requests.{
  Principals, has_prefix, remove_first, identify, ws_init_func, intercept_response, get_user,
  require_admin,
}

abbrev pub nobody : Principals
nobody = record { user = none; admin = none }

-- What a guard of each kind says of the context.
abbrev pub Guards :
    Principals → Result CommonError ValidUser → Result CommonError (Unit {0}) → Type 0
Guards ctx user admin = (get_user ctx ≡ user) × (require_admin ctx ≡ admin)

module _ (lib : Libraries) (a : Service) (now : Time) where
  -- Without an Authorization header a request and a websocket get no principal. Of one with a header that
  -- holds a token after "Bearer ": where Validate accepts the token, both get its user, and the
  -- resolvers' guards let a user's calls pass and refuse an administrator's; where Validate refuses it
  -- and ValidateAdmin accepts it, both get its administrator, and the guards do the reverse. Where both
  -- refuse it, the websocket is refused, but the HTTP request goes on, with the error UNAUTHENTICATED
  -- and no principal. Where Validate panics, or refuses it and ValidateAdmin panics, so do both.
  pub principals_lem :
      (token : Bytes)
      → let header = bearer_prefix ++ token in
        ((intercept_response lib a now true [] nobody ≡ answer (nobody, false))
          × (ws_init_func lib a now nobody [] ≡ answer nobody)
          × Guards nobody (err user_not_found) (err unauthorized))
        × ((u : ValidUser)
            → validate lib a now token ≡ answer u
            → let ctx : Principals = record { user = some u; admin = none } in
              (intercept_response lib a now true header nobody ≡ answer (ctx, false))
              × (ws_init_func lib a now nobody header ≡ answer ctx)
              × Guards ctx (ok u) (err unauthorized))
        × ((e : AuthError) (p : AdminPrincipal)
            → validate lib a now token ≡ fails e
            → validate_admin lib a now token ≡ answer p
            → let ctx : Principals = record { user = none; admin = some p } in
              (intercept_response lib a now true header nobody ≡ answer (ctx, false))
              × (ws_init_func lib a now nobody header ≡ answer ctx)
              × Guards ctx (err user_not_found) (ok tt))
        × ((e e' : AuthError)
            → validate lib a now token ≡ fails e
            → validate_admin lib a now token ≡ fails e'
            → (intercept_response lib a now true header nobody ≡ answer (nobody, true))
              × (ws_init_func lib a now nobody header ≡ fails (sentinel jwt_incorrect)))
        × (validate lib a now token ≡ panics
            → (intercept_response lib a now true header nobody ≡ panics)
              × (ws_init_func lib a now nobody header ≡ panics))
        × ((e : AuthError)
            → validate lib a now token ≡ fails e
            → validate_admin lib a now token ≡ panics
            → (intercept_response lib a now true header nobody ≡ panics)
              × (ws_init_func lib a now nobody header ≡ panics))
  unfolding intercept_response ws_init_func identify remove_first has_prefix get_user require_admin
  principals_lem token = (
    (refl, refl, (refl, refl)),
    λ u user. (rw user refl, rw user refl, (refl, refl)),
    λ e p user admin. (rw (user, admin) refl, rw (user, admin) refl, (refl, refl)),
    λ e e' user admin. (rw (user, admin) refl, rw (user, admin) refl),
    λ user. (rw user refl, rw user refl),
    λ e user admin. (rw (user, admin) refl, rw (user, admin) refl),
  )
