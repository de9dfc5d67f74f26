-- ===== src/Adapter/Tags/Removal.antt =====
-- What deleting a tag category does to the tags: the three statements of DeleteTagCategory.
use mathlib.Core.List.Perm
use tea_elephant_memory.Prelude.{
  ℕ, ◌≡◌, refl, Bool, true, false, List, [], ◌∷◌, map, ◌==◌, not, keep, Perm, sort-perm, sort,
}
use tea_elephant_memory.Store.{
  Db, Postgres, ok, err, connection_failed, TagRow, TagCategoryRow, TeaTagRow, exists, statement,
}
use tea_elephant_memory.Store.Rows.{statement_healthy, exists-keep-not}
use tea_elephant_memory.Store.Tags.{list_tags_by_category, delete_tags_by_category}
use tea_elephant_memory.Store.Tags as Statements
use tea_elephant_memory.Adapter.{wrapped}
use tea_elephant_memory.Adapter.Tags.{delete_tag_category}

abbrev pub in_category : ℕ → TagRow → Bool
in_category id t = t.category_id == id

-- The tables without the tags of a category, and without their places on teas.
abbrev pub without_tags : ℕ → Db → Db
without_tags id db = record db {
  tags = keep (λ (t : TagRow). not (in_category id t)) db.tags;
  tea_tags =
      keep
        (λ (l : TeaTagRow).
          not (exists (λ (t : TagRow). t.id == l.tag_id) (keep (in_category id) db.tags)))
        db.tea_tags;
}

abbrev pub without_category : ℕ → Db → Db
without_category id db = record db {
  tag_categories = keep (λ (c : TagCategoryRow). not (c.id == id)) db.tag_categories;
}

abbrev pub tag_order : Postgres → TagRow → TagRow → Bool
tag_order pg t u = pg.collates_before t.name u.name

list_step :
    (pg : Postgres) (id : ℕ) (db : Db)
    → db.faults ≡ []
    → list_tags_by_category pg id db
      ≡ (ok (sort (tag_order pg) (keep (in_category id) db.tags)), db)
unfolding list_tags_by_category
list_step pg id db healthy = statement_healthy _ db healthy

tags_step :
    (id : ℕ) (db : Db)
    → db.faults ≡ []
    → delete_tags_by_category id db ≡ (ok tt, without_tags id db)
unfolding delete_tags_by_category
tags_step id db healthy = statement_healthy _ db healthy

category_step :
    (id : ℕ) (db : Db)
    → db.faults ≡ []
    → exists (in_category id) db.tags ≡ false
    → Statements.delete_tag_category id db ≡ (ok tt, without_category id db)
unfolding Statements.delete_tag_category
category_step id db healthy unused = rw (statement_healthy _ db healthy, unused)

module _ (pg : Postgres) where
  -- On a healthy connection deleting a category never meets the foreign key of its tags: it answers
  -- the identifiers of exactly the tags of the category, in some order, and removes these tags, their
  -- places on teas, and the category, and nothing else.
  pub delete_tag_category_lem :
      (id : ℕ) (db : Db)
      → db.faults ≡ []
      → (removed : List ℕ) × Perm removed
          (map (λ (t : TagRow). t.id) (keep (in_category id) db.tags))
        × (delete_tag_category pg id db ≡ (ok removed, without_category id (without_tags id db)))
  unfolding delete_tag_category
  delete_tag_category_lem id db healthy =
      let rest = without_tags id db in
      (
        map (λ (t : TagRow). t.id) (sort (tag_order pg) (keep (in_category id) db.tags)),
        Perm.map _ (sort-perm (tag_order pg) _),
        rw (
          list_step pg id db healthy,
          tags_step id db healthy,
          category_step id rest healthy (exists-keep-not (in_category id) db.tags),
        ),
      )

  -- Where the connection fails at the third statement, the method answers its error, the tags of the
  -- category and their places on teas are gone, and the category is still there, as is all else.
  pub delete_tag_category_interrupted :
      (id : ℕ) (db : Db) (rest : List Bool)
      → delete_tag_category pg id (record db { faults = false ∷ false ∷ true ∷ rest }) ≡ (
        err (wrapped "delete category" connection_failed),
        record (without_tags id db) { faults = rest },
      )
  unfolding delete_tag_category list_tags_by_category delete_tags_by_category
      Statements.delete_tag_category statement
  delete_tag_category_interrupted id db rest = refl
