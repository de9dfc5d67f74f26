-- ===== src/Adapter/Tags/Listing.antt =====
-- The optional filters of the lists of tags and teas.
use tea_elephant_memory.Prelude.{
  ℕ, ◌≡◌, refl, ap, sym, Bool, true, false, ◌&&◌, Option, none, some, List, [], ◌∷◌, map, keep,
  keep-ext, keep-always, ◌==◌, Perm, sort, sort-perm, IsSorted, sort-IsSorted, Bytes, bytes_eq,
}
use tea_elephant_memory.Store.{Db, Postgres, ok, TagRow}
use tea_elephant_memory.Store.Rows.{statement_healthy}
use tea_elephant_memory.Store.Tags.{
  list_tags_by_category_filter, list_tags_by_name, list_tags_by_name_category,
}
use tea_elephant_memory.Store.Tags as Statements
use tea_elephant_memory.Store.Teas.{name_matches}
use tea_elephant_memory.Adapter.{tag_of_row}
use tea_elephant_memory.Adapter.Tags.{list_tags, tags_query}

-- A collation is a strict order up to ties.
abbrev pub IsCollation : Postgres → Type 0
IsCollation pg =
    ((s t : Bytes) → pg.collates_before s t ≡ true → pg.collates_before t s ≡ false)
    × ((s t u : Bytes)
        → pg.collates_before t s ≡ false
        → pg.collates_before u t ≡ false
        → pg.collates_before u s ≡ false)

&&_true : (b : Bool) → b ≡ (b && true)
&&_true true = refl
&&_true false = refl

module _ (pg : Postgres) where
  -- No name, or an empty one, asks for nothing.
  abbrev pub has_name : Option Bytes → TagRow → Bool
  has_name none t = true
  has_name (some []) t = true
  has_name (some (c ∷ name)) t = name_matches pg (c ∷ name) t.name

  abbrev pub has_category : Option ℕ → TagRow → Bool
  has_category none t = true
  has_category (some category_id) t = t.category_id == category_id

  abbrev pub selects : Option Bytes → Option ℕ → TagRow → Bool
  selects name category_id t = has_name name t && has_category category_id t

  abbrev pub names_before : TagRow → TagRow → Bool
  names_before t u = pg.collates_before t.name u.name

  tags_query_lem :
      (name : Option Bytes) (category_id : Option ℕ) (db : Db)
      → db.faults ≡ []
      → tags_query pg name category_id db
        ≡ (ok (sort names_before (keep (selects name category_id) db.tags)), db)
  unfolding tags_query Statements.list_tags list_tags_by_category_filter list_tags_by_name
      list_tags_by_name_category bytes_eq
  tags_query_lem none none db healthy =
      rw (statement_healthy _ db healthy)
        (ap (λ tags. (ok (sort names_before tags), db)) (sym (keep-always db.tags)))
  tags_query_lem none (some c) db healthy = rw (statement_healthy _ db healthy)
  tags_query_lem (some []) none db healthy =
      rw (statement_healthy _ db healthy)
        (ap (λ tags. (ok (sort names_before tags), db)) (sym (keep-always db.tags)))
  tags_query_lem (some []) (some c) db healthy = rw (statement_healthy _ db healthy)
  tags_query_lem (some (b ∷ name)) none db healthy =
      rw (statement_healthy _ db healthy)
        (ap (λ tags. (ok (sort names_before tags), db)) (keep-ext _ _ (λ t. &&_true _) db.tags))
  tags_query_lem (some (b ∷ name)) (some c) db healthy = rw (statement_healthy _ db healthy)

  -- On a healthy connection a list of tags holds, each once, exactly the tags whose name matches the prefix,
  -- when one is given and not empty, and whose category is the given one, when one is given; it is
  -- in the order of names, if the collation is an order; and nothing is changed.
  pub list_tags_lem :
      (name : Option Bytes) (category_id : Option ℕ) (db : Db)
      → IsCollation pg
      → db.faults ≡ []
      → (rows : List TagRow) × (list_tags pg name category_id db ≡ (ok (map tag_of_row rows), db))
        × Perm rows (keep (selects name category_id) db.tags)
        × IsSorted names_before rows
  unfolding list_tags
  list_tags_lem name category_id db (asym, trans) healthy = (
    sort names_before (keep (selects name category_id) db.tags),
    rw (tags_query_lem name category_id db healthy),
    sort-perm names_before _,
    sort-IsSorted names_before (λ t u. asym t.name u.name) (λ t u v. trans t.name u.name v.name) _,
  )
