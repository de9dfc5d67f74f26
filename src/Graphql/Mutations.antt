-- ===== src/Graphql/Mutations.antt =====
-- pkg/api/v2/graphql/schema.resolvers.go: the mutations, but for AuthApple, Send and TeaRecommendation.
-- The managers share one storage. A resolver waits where its manager's method waits on a full queue.
pub mod Guards
pub mod Labels
mod Tests
use tea_elephant_memory.Prelude.{ℕ, Bool, true, false, Option, none, some, List, [], Bytes, ℤ}
use tea_elephant_memory.Clock.{Time}
use tea_elephant_memory.Domain as Common
use tea_elephant_memory.Domain.{CommonError}
use tea_elephant_memory.Store.{Db, Postgres, Result, ok, err, Exec}
use tea_elephant_memory.Adapter as Adapter
use tea_elephant_memory.Models.{
  Tea, Tag, TagCategory, TeaInput, QrRecord, QrRecordData, Collection, from_common_tea,
  to_common_tea_data,
}
use tea_elephant_memory.Managers.Teas.{TeaManager, Reply, answers, waits}
use tea_elephant_memory.Managers.Teas as Teas
use tea_elephant_memory.Managers.Tags.{TagManager}
use tea_elephant_memory.Managers.Tags as Tags
use tea_elephant_memory.Managers.Collections as Collections
use tea_elephant_memory.Managers.Records.{set_qr}
use tea_elephant_memory.Managers.Records as Records
use tea_elephant_memory.Auth.{ValidUser}
use tea_elephant_memory.Auth.Requests.{Principals, get_user, require_admin}
use tea_elephant_memory.Graphql.{GqlError, common, storage, cast_gql_error}

-- The storage, and the two managers with state; what they hold as their storage is not read.
pub record World : Type 0 where
  pub db : Db
  pub teas : TeaManager
  pub tags : TagManager

pub data Response (A : Type 0) : Type 0 where
  responds : Result GqlError A → Response A
  blocks : Response A

abbrev pub Resolver : Type 0 → Type 0
Resolver A = World → Response A × World

-- The error that castGQLError makes, or the rest of the resolver.
abbrev pub then_do : {A B : Type 0} → Reply A × World → (A → Resolver B) → Response B × World
then_do (answers (ok a), w) k = k a w
then_do (answers (err e), w) k = (responds (err (cast_gql_error (storage e))), w)
then_do (waits, w) k = (blocks, w)

abbrev pub ◌>>=◌ : {A B : Type 0} → (World → Reply A × World) → (A → Resolver B) → Resolver B
◌>>=◌ call k w = then_do (call w) k

abbrev pub pure : {A : Type 0} → A → Resolver A
pure a w = (responds (ok a), w)

abbrev pub with_teas : {A : Type 0} → Teas.Method A → World → Reply A × World
with_teas method w =
    let (reply, m) = method (record w.teas { db = w.db }) in
    (reply, record w { db = m.db; teas = m })

abbrev pub with_tags : {A : Type 0} → Tags.Method A → World → Reply A × World
with_tags method w =
    let (reply, m) = method (record w.tags { db = w.db }) in
    (reply, record w { db = m.db; tags = m })

abbrev pub with_storage : {A : Type 0} → Exec Adapter.Error A → World → Reply A × World
with_storage call w = let (result, db) = call w.db in (answers result, record w { db = db })

abbrev pub refuse : {A : Type 0} → CommonError → Resolver A
refuse e w = (responds (err (cast_gql_error (common e))), w)

-- RequireAdmin at the head of a resolver.
abbrev pub as_admin : {A : Type 0} → Result CommonError (Unit {0}) → Resolver A → Resolver A
as_admin (err e) k = refuse e
as_admin (ok done) k = k

-- GetUser at the head of a resolver.
abbrev pub as_user : {A : Type 0} → Result CommonError ValidUser → (ℕ → Resolver A) → Resolver A
as_user (err e) k = refuse e
as_user (ok user) k = k user.id

-- A tag and a category as the mutations answer them, the tag with no category.
pub record TagAnswer : Type 0 where
  pub id : ℕ
  pub name : Bytes
  pub color : Bytes

abbrev pub answer_tag : Common.Tag → TagAnswer
answer_tag t = record { id = t.id; name = t.tag_data.name; color = t.tag_data.color }

abbrev pub answer_category : Common.TagCategory → TagCategory
answer_category c = record { id = c.id; name = c.name }

module _ (ctx : Principals) where
  unfoldable pub new_tea : ℕ → Time → TeaInput → Resolver Tea
  new_tea new_id now tea = as_admin (require_admin ctx) (do
    res ← with_teas (Teas.create new_id now (to_common_tea_data tea))
    pure (from_common_tea res))

  unfoldable pub update_tea : ℕ → TeaInput → Resolver Tea
  update_tea id tea =
      as_admin (require_admin ctx)
        (do res ← with_teas (Teas.update id (to_common_tea_data tea)); pure (from_common_tea res))

  unfoldable pub add_tag_to_tea : ℕ → ℕ → Resolver Tea
  add_tag_to_tea tea_id tag_id = as_admin (require_admin ctx) (do
    _ ← with_tags (Tags.add_tag_to_tea tea_id tag_id)
    t ← with_teas (Teas.get tea_id)
    pure (from_common_tea t))

  unfoldable pub delete_tag_from_tea : ℕ → ℕ → Resolver Tea
  delete_tag_from_tea tea_id tag_id = as_admin (require_admin ctx) (do
    _ ← with_tags (Tags.delete_tag_from_tea tea_id tag_id)
    t ← with_teas (Teas.get tea_id)
    pure (from_common_tea t))

  unfoldable pub delete_tea : ℕ → Resolver ℕ
  delete_tea id = as_admin (require_admin ctx) (do _ ← with_teas (Teas.delete id); pure id)

  pub create_tag_category : ℕ → Bytes → Resolver TagCategory
  create_tag_category new_id name =
      as_admin (require_admin ctx) (do
        category ← with_tags (Tags.create_category new_id name)
        pure (answer_category category))

  pub update_tag_category : ℕ → Bytes → Resolver TagCategory
  update_tag_category id name =
      as_admin (require_admin ctx)
        (do cat ← with_tags (Tags.update_category id name); pure (answer_category cat))

  pub delete_tag : ℕ → Resolver ℕ
  delete_tag id = as_admin (require_admin ctx) (do _ ← with_tags (Tags.delete id); pure id)

  unfoldable pub delete_tag_category : Postgres → ℕ → Resolver ℕ
  delete_tag_category pg id =
      as_admin (require_admin ctx) (do _ ← with_tags (Tags.delete_category pg id); pure id)

  pub create_tag : Postgres → ℕ → Bytes → Bytes → ℕ → Resolver TagAnswer
  create_tag pg new_id name color category =
      as_admin (require_admin ctx)
        (do tag ← with_tags (Tags.create pg new_id name color category); pure (answer_tag tag))

  pub update_tag : Postgres → ℕ → Bytes → Bytes → Resolver TagAnswer
  update_tag pg id name color =
      as_admin (require_admin ctx)
        (do tag ← with_tags (Tags.update pg id name color); pure (answer_tag tag))

  pub change_tag_category : Postgres → ℕ → ℕ → Resolver TagAnswer
  change_tag_category pg id category =
      as_admin (require_admin ctx)
        (do tag ← with_tags (Tags.change_category pg id category); pure (answer_tag tag))

  -- No guard.
  pub write_to_qr : Postgres → ℕ → Time → QrRecordData → Resolver QrRecord
  write_to_qr pg id now data_ = do
    _ ← with_storage (set_qr pg id now data_)
    tea ← with_teas (Teas.get data_.tea)
    pure (record {
      id = id;
      tea = from_common_tea tea;
      bowling_temp = data_.bowling_temp;
      expiration_date = data_.expiration_date;
    })

  pub create_collection : ℕ → Time → Bytes → Resolver Collection
  create_collection new_id now name =
      as_user (get_user ctx)
        (λ user_id. do col ← with_storage (Collections.create new_id now user_id name); pure col)

  pub add_records_to_collection : ℕ → List ℕ → Resolver Collection
  add_records_to_collection id records =
      as_user (get_user ctx)
        (λ user_id. do col ← with_storage (Collections.add_records user_id id records); pure col)

  pub delete_records_from_collection : ℕ → List ℕ → Resolver Collection
  delete_records_from_collection id records =
      as_user (get_user ctx)
        (λ user_id. do col ← with_storage (Collections.delete_records user_id id records); pure col)

  unfoldable pub delete_collection : ℕ → Resolver ℕ
  delete_collection id =
      as_user (get_user ctx)
        (λ user_id. do _ ← with_storage (Collections.delete user_id id); pure id)

  -- No guard.
  pub register_device_token : ℕ → Bytes → Resolver Bool
  register_device_token device_id device_token = do
    _ ← with_storage (Records.register_device_token device_id device_token)
    pure true
