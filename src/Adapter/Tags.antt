-- ===== src/Adapter/Tags.antt =====
-- pkg/pg/db.go: tag categories, tags and the tags of teas.
pub mod Removal
pub mod Listing
use tea_elephant_memory.Prelude.{
  ℕ, Bool, true, false, Option, none, some, List, [], ◌∷◌, map, if◌then◌else◌, Bytes, bytes_eq,
}
use tea_elephant_memory.Domain.{TagCategory, Tag}
use tea_elephant_memory.Store.{
  Db, Postgres, SqlError, Result, ok, err, Exec, Query, TagCategoryRow, TagRow, ◌>>=◌, ◌>>◌, pure,
}
use tea_elephant_memory.Store.Tags.{
  insert_tag_category, delete_tags_by_category, list_tags_by_category, list_tags_by_tea,
  search_tag_categories, insert_tag, list_tags_by_category_filter, list_tags_by_name,
  list_tags_by_name_category,
}
use tea_elephant_memory.Store.Tags as Statements
use tea_elephant_memory.Adapter.{Error, wrapped, wrap, category_of_row, tag_of_row}

unfoldable pub create_tag_category : ℕ → Bytes → Exec Error TagCategory
create_tag_category id name = do
  category ← wrap "insert tag category" (insert_tag_category id name)
  pure (category_of_row category)

unfoldable pub update_tag_category : ℕ → Bytes → Exec Error (Unit {0})
update_tag_category id name = do
  _ ← wrap "update tag category" (Statements.update_tag_category id name)
  pure tt

category_error : SqlError → Error
category_error SqlError.no_rows = wrapped "tag category not found" SqlError.no_rows
category_error e = wrapped "get tag category" e

category_result : Result SqlError TagCategoryRow × Db → Result Error TagCategory × Db
unfolding category_error
category_result (ok category, db) = (ok (category_of_row category), db)
category_result (err e, db) = (err (category_error e), db)

unfoldable pub get_tag_category : ℕ → Exec Error TagCategory
unfolding category_result
get_tag_category id db = category_result (Statements.get_tag_category id db)

unfoldable pub delete_tag : ℕ → Exec Error (Unit {0})
delete_tag id = wrap "delete tag" (Statements.delete_tag id)

pub get_tag : ℕ → Exec Error Tag
get_tag id = do tag ← wrap "get tag" (Statements.get_tag id); pure (tag_of_row tag)

unfoldable pub add_tag_to_tea : ℕ → ℕ → Exec Error (Unit {0})
add_tag_to_tea tea tag = wrap "add tag to tea" (Statements.add_tag_to_tea tea tag)

unfoldable pub delete_tag_from_tea : ℕ → ℕ → Exec Error (Unit {0})
delete_tag_from_tea tea tag = wrap "delete tag from tea" (Statements.delete_tag_from_tea tea tag)

module _ (pg : Postgres) where
  -- Three statements with no transaction round them.
  unfoldable pub delete_tag_category : ℕ → Exec Error (List ℕ)
  delete_tag_category id = do
    rows ← wrap "list tags by category" (list_tags_by_category pg id)
    let removed = map (λ (t : TagRow). t.id) rows
    wrap "delete tags by category" (delete_tags_by_category id)
    wrap "delete category" (Statements.delete_tag_category id)
    pure removed

  category_query : Option Bytes → Query (List TagCategoryRow)
  category_query none = Statements.list_tag_categories pg
  category_query (some search) =
      if bytes_eq search []
      then Statements.list_tag_categories pg
      else search_tag_categories pg search

  pub list_tag_categories : Option Bytes → Exec Error (List TagCategory)
  unfolding category_query
  list_tag_categories search = do
    categories ← wrap "list tag categories" (category_query search)
    pure (map category_of_row categories)

  unfoldable pub create_tag : ℕ → Bytes → Bytes → ℕ → Exec Error Tag
  create_tag id name color category_id = do
    tag ← wrap "insert tag" (insert_tag pg id name color category_id)
    pure (tag_of_row tag)

  unfoldable pub update_tag : ℕ → Bytes → Bytes → Exec Error Tag
  update_tag id name color = do
    tag ← wrap "update tag" (Statements.update_tag pg id name color)
    pure (tag_of_row tag)

  unfoldable pub change_tag_category : ℕ → ℕ → Exec Error Tag
  change_tag_category id category_id = do
    tag ← wrap "change tag category" (Statements.change_tag_category pg id category_id)
    pure (tag_of_row tag)

  all_names : Option ℕ → Query (List TagRow)
  all_names none = Statements.list_tags pg
  all_names (some category_id) = list_tags_by_category_filter pg category_id

  named : Bytes → Option ℕ → Query (List TagRow)
  named name none = list_tags_by_name pg name
  named name (some category_id) = list_tags_by_name_category pg name category_id

  -- The switch of ListTags.
  tags_query : Option Bytes → Option ℕ → Query (List TagRow)
  unfolding all_names named
  tags_query none category_id = all_names category_id
  tags_query (some name) category_id =
      if bytes_eq name [] then all_names category_id else named name category_id

  pub list_tags : Option Bytes → Option ℕ → Exec Error (List Tag)
  unfolding tags_query
  list_tags name category_id = do
    tags ← wrap "list tags" (tags_query name category_id)
    pure (map tag_of_row tags)

  pub list_by_tea : ℕ → Exec Error (List Tag)
  list_by_tea id = do
    tags ← wrap "list tags by tea" (list_tags_by_tea pg id)
    pure (map tag_of_row tags)
