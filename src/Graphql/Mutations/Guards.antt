-- ===== src/Graphql/Mutations/Guards.antt =====
-- Who may call which mutation.
use tea_elephant_memory.Prelude.{ℕ, ◌≡◌, refl, Option, none, some, List, Bytes}
use tea_elephant_memory.Clock.{Time}
use tea_elephant_memory.Domain.{unauthorized, user_not_found}
use tea_elephant_memory.Store.{Postgres, err}
use tea_elephant_memory.Models.{Tea, TagCategory, TeaInput, Collection}
use tea_elephant_memory.Auth.{ValidUser, AdminPrincipal}
use tea_elephant_memory.Auth.Requests.{
  Principals, get_user, user_or_not_found, require_admin, present,
}
use tea_elephant_memory.Graphql.{cast, unauthenticated, numbered, common}
use tea_elephant_memory.Graphql.Mutations.{
  World, responds, Resolver, TagAnswer, as_admin, as_user, new_tea, update_tea, add_tag_to_tea,
  delete_tag_from_tea, delete_tea, create_tag_category, update_tag_category, delete_tag_category,
  create_tag, update_tag, change_tag_category, delete_tag, create_collection,
  add_records_to_collection, delete_records_from_collection, delete_collection,
}

-- The requests of the administrator's client, those of a user, and those of anyone.
pub data AdminRequest : Type 0 where
  asks_new_tea : TeaInput → AdminRequest
  asks_update_tea : ℕ → TeaInput → AdminRequest
  asks_add_tag : ℕ → ℕ → AdminRequest
  asks_delete_tag_from_tea : ℕ → ℕ → AdminRequest
  asks_delete_tea : ℕ → AdminRequest
  asks_create_category : Bytes → AdminRequest
  asks_update_category : ℕ → Bytes → AdminRequest
  asks_delete_category : ℕ → AdminRequest
  asks_create_tag : Bytes → Bytes → ℕ → AdminRequest
  asks_update_tag : ℕ → Bytes → Bytes → AdminRequest
  asks_change_category : ℕ → ℕ → AdminRequest
  asks_delete_tag : ℕ → AdminRequest

pub data UserRequest : Type 0 where
  asks_create_collection : Bytes → UserRequest
  asks_add_records : ℕ → List ℕ → UserRequest
  asks_delete_records : ℕ → List ℕ → UserRequest
  asks_delete_collection : ℕ → UserRequest

abbrev pub AdminAnswer : AdminRequest → Type 0
AdminAnswer (asks_new_tea tea) = Tea
AdminAnswer (asks_update_tea id tea) = Tea
AdminAnswer (asks_add_tag tea tag) = Tea
AdminAnswer (asks_delete_tag_from_tea tea tag) = Tea
AdminAnswer (asks_delete_tea id) = ℕ
AdminAnswer (asks_create_category name) = TagCategory
AdminAnswer (asks_update_category id name) = TagCategory
AdminAnswer (asks_delete_category id) = ℕ
AdminAnswer (asks_create_tag name color category) = TagAnswer
AdminAnswer (asks_update_tag id name color) = TagAnswer
AdminAnswer (asks_change_category id category) = TagAnswer
AdminAnswer (asks_delete_tag id) = ℕ

abbrev pub UserAnswer : UserRequest → Type 0
UserAnswer (asks_create_collection name) = Collection
UserAnswer (asks_add_records id records) = Collection
UserAnswer (asks_delete_records id records) = Collection
UserAnswer (asks_delete_collection id) = ℕ

abbrev pub admin_or_refused : {A : Type 0} → Option AdminPrincipal → Resolver A → Resolver A
admin_or_refused none k w = (responds (err (cast (some unauthenticated) (common unauthorized))), w)
admin_or_refused (some p) k w = k w

abbrev pub user_or_refused : {A : Type 0} → Option ValidUser → (ℕ → Resolver A) → Resolver A
user_or_refused none k w = (responds (err (cast (some (numbered 3)) (common user_not_found))), w)
user_or_refused (some user) k w = k user.id w

module _ {A : Type 0} where
  as_admin_lem :
      (o : Option AdminPrincipal) (k : Resolver A) (w : World)
      → as_admin (present o) k w ≡ admin_or_refused o k w
  as_admin_lem none k w = refl
  as_admin_lem (some p) k w = refl

  as_user_lem :
      (o : Option ValidUser) (k : ℕ → Resolver A) (w : World)
      → as_user (user_or_not_found o) k w ≡ user_or_refused o k w
  as_user_lem none k w = refl
  as_user_lem (some user) k w = refl

module _ (pg : Postgres) (new_id : ℕ) (now : Time) where
  abbrev pub serve_admin : Principals → (m : AdminRequest) → Resolver (AdminAnswer m)
  serve_admin ctx (asks_new_tea tea) = new_tea ctx new_id now tea
  serve_admin ctx (asks_update_tea id tea) = update_tea ctx id tea
  serve_admin ctx (asks_add_tag tea tag) = add_tag_to_tea ctx tea tag
  serve_admin ctx (asks_delete_tag_from_tea tea tag) = delete_tag_from_tea ctx tea tag
  serve_admin ctx (asks_delete_tea id) = delete_tea ctx id
  serve_admin ctx (asks_create_category name) = create_tag_category ctx new_id name
  serve_admin ctx (asks_update_category id name) = update_tag_category ctx id name
  serve_admin ctx (asks_delete_category id) = delete_tag_category ctx pg id
  serve_admin ctx (asks_create_tag name color category) =
      create_tag ctx pg new_id name color category
  serve_admin ctx (asks_update_tag id name color) = update_tag ctx pg id name color
  serve_admin ctx (asks_change_category id category) = change_tag_category ctx pg id category
  serve_admin ctx (asks_delete_tag id) = delete_tag ctx id

  abbrev pub serve_user : Principals → (m : UserRequest) → Resolver (UserAnswer m)
  serve_user ctx (asks_create_collection name) = create_collection ctx new_id now name
  serve_user ctx (asks_add_records id records) = add_records_to_collection ctx id records
  serve_user ctx (asks_delete_records id records) = delete_records_from_collection ctx id records
  serve_user ctx (asks_delete_collection id) = delete_collection ctx id

  admin_guard :
      (ctx : Principals) (p : AdminPrincipal) (m : AdminRequest) (w : World)
      → serve_admin ctx m w
        ≡ admin_or_refused ctx.admin (serve_admin (record { user = none; admin = some p }) m) w
  unfolding require_admin new_tea update_tea add_tag_to_tea delete_tag_from_tea delete_tea
      create_tag_category update_tag_category delete_tag_category create_tag update_tag
      change_tag_category delete_tag
  admin_guard ctx p (asks_new_tea tea) w = as_admin_lem ctx.admin _ w
  admin_guard ctx p (asks_update_tea id tea) w = as_admin_lem ctx.admin _ w
  admin_guard ctx p (asks_add_tag tea tag) w = as_admin_lem ctx.admin _ w
  admin_guard ctx p (asks_delete_tag_from_tea tea tag) w = as_admin_lem ctx.admin _ w
  admin_guard ctx p (asks_delete_tea id) w = as_admin_lem ctx.admin _ w
  admin_guard ctx p (asks_create_category name) w = as_admin_lem ctx.admin _ w
  admin_guard ctx p (asks_update_category id name) w = as_admin_lem ctx.admin _ w
  admin_guard ctx p (asks_delete_category id) w = as_admin_lem ctx.admin _ w
  admin_guard ctx p (asks_create_tag name color category) w = as_admin_lem ctx.admin _ w
  admin_guard ctx p (asks_update_tag id name color) w = as_admin_lem ctx.admin _ w
  admin_guard ctx p (asks_change_category id category) w = as_admin_lem ctx.admin _ w
  admin_guard ctx p (asks_delete_tag id) w = as_admin_lem ctx.admin _ w

  user_guard :
      (ctx : Principals) (user : ValidUser) (n : UserRequest) (w : World)
      → serve_user ctx n w
        ≡ user_or_refused ctx.user
            (λ id. serve_user (record { user = some (record user { id = id }); admin = none }) n)
            w
  unfolding get_user create_collection add_records_to_collection delete_records_from_collection
      delete_collection
  user_guard ctx user (asks_create_collection name) w = as_user_lem ctx.user _ w
  user_guard ctx user (asks_add_records id records) w = as_user_lem ctx.user _ w
  user_guard ctx user (asks_delete_records id records) w = as_user_lem ctx.user _ w
  user_guard ctx user (asks_delete_collection id) w = as_user_lem ctx.user _ w

  -- An administrator's mutation depends on no more of the context than whether it has an administrator's
  -- principal, and a user's on no more than the user's identifier. Without them every one of the
  -- sixteen is refused, and nothing is changed: the administrator's with UNAUTHENTICATED, the
  -- user's with the code of an unknown user.
  pub guards_lem :
      (ctx : Principals) (p : AdminPrincipal) (user : ValidUser) (m : AdminRequest)
      (n : UserRequest) (w : World)
      → (serve_admin ctx m w
          ≡ admin_or_refused ctx.admin (serve_admin (record { user = none; admin = some p }) m) w)
        × (serve_user ctx n w
            ≡ user_or_refused ctx.user
                (λ id.
                  serve_user (record { user = some (record user { id = id }); admin = none }) n)
                w)
  guards_lem ctx p user m n w = (admin_guard ctx p m w, user_guard ctx user n w)
