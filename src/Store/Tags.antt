-- ===== src/Store/Tags.antt =====
-- pkg/pgstore/queries.go: the statements on tag categories, tags and the tags of teas.
use tea_elephant_memory.Prelude.{
  ℕ, Bool, none, some, List, [], ◌∷◌, ◌++◌, ◌==◌, ◌&&◌, not, if◌then◌else◌, Bytes, bytes_eq, keep,
  sort, flat_map,
}
use tea_elephant_memory.Store.{
  Db, Postgres, TeaRow, TagCategoryRow, TagRow, TeaTagRow, no_rows, unique_violation,
  foreign_key_violation, ok, err, Query, statement, exists, find, update, one_row,
}
use tea_elephant_memory.Store.Teas.{name_matches}

pub insert_tag_category : ℕ → Bytes → Query TagCategoryRow
insert_tag_category id name = statement λ db.
    let category : TagCategoryRow = record { id = id; name = name } in
    if exists (λ (c : TagCategoryRow). c.id == id) db.tag_categories
    then (err unique_violation, db)
    else if exists (λ (c : TagCategoryRow). bytes_eq c.name name) db.tag_categories
    then (err unique_violation, db)
    else (ok category, record db { tag_categories = db.tag_categories ++ category ∷ [] })

unfoldable pub update_tag_category : ℕ → Bytes → Query TagCategoryRow
update_tag_category id name = statement λ db.
    elim (find (λ (c : TagCategoryRow). c.id == id) db.tag_categories) [
      | none ↦ (err no_rows, db)
      | some c ↦
          let category : TagCategoryRow = record c { name = name } in
          if exists (λ (d : TagCategoryRow). not (d.id == id) && bytes_eq d.name name)
            db.tag_categories
          then (err unique_violation, db)
          else (
            ok category,
            record db {
              tag_categories =
                  update (λ (d : TagCategoryRow). d.id == id) (λ _. category) db.tag_categories;
            },
          )
    ]

-- ON DELETE RESTRICT: a category that a tag refers to stays.
unfoldable pub delete_tag_category : ℕ → Query (Unit {0})
delete_tag_category id = statement λ db.
    if exists (λ (t : TagRow). t.category_id == id) db.tags
      && exists (λ (c : TagCategoryRow). c.id == id) db.tag_categories
    then (err foreign_key_violation, db)
    else (
      ok tt,
      record db {
        tag_categories = keep (λ (c : TagCategoryRow). not (c.id == id)) db.tag_categories;
      },
    )

unfoldable pub get_tag_category : ℕ → Query TagCategoryRow
get_tag_category id =
    statement λ db. one_row (find (λ (c : TagCategoryRow). c.id == id) db.tag_categories) db

-- The tags of teas that refer to no deleted tag.
pub tea_tags_without : (TagRow → Bool) → Db → List TeaTagRow
tea_tags_without gone db =
    keep (λ (l : TeaTagRow). not (exists (λ (t : TagRow). t.id == l.tag_id) (keep gone db.tags)))
      db.tea_tags

-- DELETE FROM tags WHERE p, which cascades to the tags of teas.
pub delete_tags_where : (TagRow → Bool) → Query (Unit {0})
unfolding tea_tags_without
delete_tags_where gone = statement λ db. (
  ok tt,
  record db { tags = keep (λ t. not (gone t)) db.tags; tea_tags = tea_tags_without gone db },
)

unfoldable pub delete_tags_by_category : ℕ → Query (Unit {0})
unfolding delete_tags_where
delete_tags_by_category category_id = delete_tags_where (λ t. t.category_id == category_id)

unfoldable pub delete_tag : ℕ → Query (Unit {0})
unfolding delete_tags_where
delete_tag id = delete_tags_where (λ t. t.id == id)

pub get_tag : ℕ → Query TagRow
get_tag id = statement λ db. one_row (find (λ (t : TagRow). t.id == id) db.tags) db

-- ON CONFLICT (tea_id, tag_id) DO NOTHING
unfoldable pub add_tag_to_tea : ℕ → ℕ → Query (Unit {0})
add_tag_to_tea tea_id tag_id = statement λ db.
    if exists (λ (l : TeaTagRow). l.tea_id == tea_id && l.tag_id == tag_id) db.tea_tags
    then (ok tt, db)
    else if exists (λ (t : TeaRow). t.id == tea_id) db.teas
        && exists (λ (t : TagRow). t.id == tag_id) db.tags
    then (
      ok tt,
      record db { tea_tags = db.tea_tags ++ record { tea_id = tea_id; tag_id = tag_id } ∷ [] },
    )
    else (err foreign_key_violation, db)

unfoldable pub delete_tag_from_tea : ℕ → ℕ → Query (Unit {0})
delete_tag_from_tea tea_id tag_id = statement λ db. (
  ok tt,
  record db {
    tea_tags = keep (λ (l : TeaTagRow). not (l.tea_id == tea_id && l.tag_id == tag_id)) db.tea_tags;
  },
)

module _ (pg : Postgres) where
  by_name : TagRow → TagRow → Bool
  by_name t u = pg.collates_before t.name u.name

  -- SELECT ... FROM tags WHERE p ORDER BY name ASC
  select_tags : (TagRow → Bool) → Query (List TagRow)
  unfolding by_name
  select_tags p = statement λ db. (ok (sort by_name (keep p db.tags)), db)

  pub list_tag_categories : Query (List TagCategoryRow)
  list_tag_categories =
      statement λ db. (ok (sort (λ c d. pg.collates_before c.name d.name) db.tag_categories), db)

  pub search_tag_categories : Bytes → Query (List TagCategoryRow)
  unfolding name_matches
  search_tag_categories prefix = statement λ db. (
    ok (
        sort (λ c d. pg.collates_before c.name d.name)
          (keep (λ (c : TagCategoryRow). name_matches pg prefix c.name) db.tag_categories)),
    db,
  )

  unfoldable pub list_tags_by_category : ℕ → Query (List TagRow)
  unfolding select_tags
  list_tags_by_category category_id = select_tags (λ t. t.category_id == category_id)

  -- Another tag has the category and, up to lower(), the name: the index tags_category_name_uq.
  pub tag_name_taken : Db → ℕ → ℕ → Bytes → Bool
  tag_name_taken db id category_id name =
      exists
        (λ (t : TagRow).
          not (t.id == id)
          && (t.category_id == category_id && bytes_eq (pg.lower t.name) (pg.lower name)))
        db.tags

  pub insert_tag : ℕ → Bytes → Bytes → ℕ → Query TagRow
  unfolding tag_name_taken
  insert_tag id name color category_id = statement λ db.
      let tag : TagRow = record {
        id = id;
        name = name;
        color = color;
        category_id = category_id;
      } in
      if exists (λ (t : TagRow). t.id == id) db.tags
      then (err unique_violation, db)
      else if tag_name_taken db id category_id name
      then (err unique_violation, db)
      else if exists (λ (c : TagCategoryRow). c.id == category_id) db.tag_categories
      then (ok tag, record db { tags = db.tags ++ tag ∷ [] })
      else (err foreign_key_violation, db)

  unfoldable pub update_tag : ℕ → Bytes → Bytes → Query TagRow
  unfolding tag_name_taken
  update_tag id name color = statement λ db. elim (find (λ (t : TagRow). t.id == id) db.tags) [
    | none ↦ (err no_rows, db)
    | some t ↦
        let tag : TagRow = record t { name = name; color = color } in
        if tag_name_taken db id t.category_id name
        then (err unique_violation, db)
        else (ok tag, record db { tags = update (λ (u : TagRow). u.id == id) (λ _. tag) db.tags })
  ]

  unfoldable pub change_tag_category : ℕ → ℕ → Query TagRow
  unfolding tag_name_taken
  change_tag_category id category_id = statement λ db.
      elim (find (λ (t : TagRow). t.id == id) db.tags) [
        | none ↦ (err no_rows, db)
        | some t ↦
            let tag : TagRow = record t { category_id = category_id } in
            if tag_name_taken db id category_id t.name
            then (err unique_violation, db)
            else if exists (λ (c : TagCategoryRow). c.id == category_id) db.tag_categories
            then (
              ok tag,
              record db { tags = update (λ (u : TagRow). u.id == id) (λ _. tag) db.tags },
            )
            else (err foreign_key_violation, db)
      ]

  unfoldable pub list_tags : Query (List TagRow)
  unfolding by_name
  list_tags = statement λ db. (ok (sort by_name db.tags), db)

  unfoldable pub list_tags_by_name : Bytes → Query (List TagRow)
  unfolding select_tags name_matches
  list_tags_by_name prefix = select_tags (λ t. name_matches pg prefix t.name)

  unfoldable pub list_tags_by_category_filter : ℕ → Query (List TagRow)
  unfolding select_tags
  list_tags_by_category_filter category_id = select_tags (λ t. t.category_id == category_id)

  unfoldable pub list_tags_by_name_category : Bytes → ℕ → Query (List TagRow)
  unfolding select_tags name_matches
  list_tags_by_name_category prefix category_id =
      select_tags (λ t. name_matches pg prefix t.name && t.category_id == category_id)

  -- FROM tea_tags tt JOIN tags t ON t.id = tt.tag_id WHERE tt.tea_id = $1
  pub list_tags_by_tea : ℕ → Query (List TagRow)
  unfolding by_name
  list_tags_by_tea tea_id = statement λ db. (
    ok (
        sort by_name (
          flat_map (λ (l : TeaTagRow). keep (λ (t : TagRow). t.id == l.tag_id) db.tags)
            (keep (λ (l : TeaTagRow). l.tea_id == tea_id) db.tea_tags))),
    db,
  )
