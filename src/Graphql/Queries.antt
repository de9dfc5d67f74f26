-- ===== src/Graphql/Queries.antt =====
-- pkg/api/v2/graphql/schema.resolvers.go: the queries, but for Me and GenerateDescription, and the fields
-- of teas, tags, categories and collections that have resolvers of their own.
pub mod Written
mod Tests
use tea_elephant_memory.Prelude.{
  ℕ, Bool, Option, none, some, List, [], ◌∷◌, map, Bytes, Map, insert,
}
use tea_elephant_memory.Domain as Common
use tea_elephant_memory.Store.{Postgres, ok}
use tea_elephant_memory.Models.{Tea, TagCategory, QrRecord, Collection, from_common_tea}
use tea_elephant_memory.Managers.Teas as Teas
use tea_elephant_memory.Managers.Tags as Tags
use tea_elephant_memory.Managers.Collections as Collections
use tea_elephant_memory.Managers.Records.{get_qr_data}
use tea_elephant_memory.Auth.Requests.{Principals, get_user}
use tea_elephant_memory.Graphql.Mutations.{
  Resolver, ◌>>=◌, pure, with_teas, with_tags, with_storage, as_user, answer_category,
}

-- A tag with its category: a category without a name is only its identifier, to be resolved later.
pub record TagWithCategory : Type 0 where
  pub id : ℕ
  pub name : Bytes
  pub color : Bytes
  pub category : Option TagCategory

abbrev pub only_id : ℕ → TagCategory
only_id id = record { id = id; name = [] }

abbrev pub with_category_id : Common.Tag → TagWithCategory
with_category_id t = record {
  id = t.id;
  name = t.tag_data.name;
  color = t.tag_data.color;
  category = some (only_id t.tag_data.category_id);
}

pub tea : ℕ → Resolver Tea
tea id = do res ← with_teas (Teas.get id); pure (from_common_tea res)

pub qr_record : ℕ → Resolver QrRecord
qr_record id = do
  qr ← with_storage (get_qr_data id)
  res ← with_teas (Teas.get qr.tea)
  pure (record {
    id = id;
    tea = from_common_tea res;
    bowling_temp = qr.bowling_temp;
    expiration_date = qr.expiration_date;
  })

pub tag : ℕ → Resolver TagWithCategory
tag id = do t ← with_tags (Tags.get id); pure (with_category_id t)

unfoldable pub collections : Principals → Resolver (List Collection)
collections ctx =
    as_user (get_user ctx) (λ user_id. do cols ← with_storage (Collections.list user_id); pure cols)

-- The field records of a collection, by the user that the collection names.
unfoldable pub collection_records : Collection → Resolver (List QrRecord)
collection_records obj = do
  records ← with_storage (Collections.list_records obj.id obj.user_id)
  pure records

-- The field category of a tag.
pub tag_category : TagWithCategory → Resolver (Option TagCategory)
tag_category obj = elim obj.category [
  | none ↦ pure none
  | some known ↦ elim known.name [
    | [] ↦ do cat ← with_tags (Tags.get_category known.id); pure (some (answer_category cat))
    | b ∷ name ↦ pure (some known)
  ]
]

-- The map of the categories by identifier, where a later one of the list stays.
pub category_map : List Common.TagCategory → Map TagCategory → Map TagCategory
category_map [] m = m
category_map (c ∷ cs) m = category_map cs (insert c.id (answer_category c) m)

module _ (pg : Postgres) where
  pub teas : Option Bytes → Resolver (List Tea)
  teas prefix = do res ← with_teas (Teas.list pg prefix); pure (map from_common_tea res)

  pub tags_categories : Option Bytes → Resolver (List TagCategory)
  tags_categories name = do
    categories ← with_tags (Tags.list_category pg name)
    pure (map answer_category categories)

  -- The field tags of a tea.
  pub tea_tags : Tea → Resolver (List TagWithCategory)
  tea_tags obj = do tags ← with_tags (Tags.list_by_tea pg obj.id); pure (map with_category_id tags)

  abbrev pub with_categories : List Common.Tag → Resolver (List TagWithCategory)
  with_categories [] = pure []
  with_categories (t ∷ ts) = do
    categories ← with_tags (Tags.list_category pg none)
    let known = category_map categories (λ id. none) in
        pure (
          map
            (λ (t : Common.Tag). record {
              id = t.id;
              name = t.tag_data.name;
              color = t.tag_data.color;
              category = known t.tag_data.category_id;
            })
            (t ∷ ts))

  -- The field tags of a category.
  pub category_tags : TagCategory → Option Bytes → Resolver (List TagWithCategory)
  unfolding category_map
  category_tags obj name = do
    tags ← with_tags (Tags.list pg name (some obj.id))
    with_categories tags
