-- ===== src/Adapter/Collections/Membership.antt =====
-- Which QR records are in a collection after records are added to it or taken out.
use tea_elephant_memory.Prelude.{
  ℕ, ◌≡◌, refl, ap, Bool, true, not, ◌&&◌, ◌||◌, List, [], ◌∷◌, keep, ◌==◌, arith,
}
use tea_elephant_memory.Store.{Db, ok, QrRow, CollectionRow, ItemRow, exists}
use tea_elephant_memory.Store.Records.{
  add_item, add_items, selected_items, insert_selected, insert_collection_items,
  delete_collection_item,
}
use tea_elephant_memory.Store.Rows.{statement_healthy, exists-append}
use tea_elephant_memory.Adapter.Collections.{add_tea_to_collection, delete_tea_from_collection}

-- The QR record has a place in the collection.
abbrev pub contains : ℕ → ℕ → List ItemRow → Bool
contains collection_id qr_id =
    exists (λ (i : ItemRow). i.collection_id == collection_id && i.qr_id == qr_id)

abbrev pub is_qr : Db → ℕ → Bool
is_qr db qr_id = exists (λ (q : QrRow). q.id == qr_id) db.qr_records

module _ (c q : ℕ) where
  contains-same :
      (i : ItemRow) (items : List ItemRow)
      → contains i.collection_id i.qr_id items ≡ true
      → (i.collection_id == c && i.qr_id == q) ≡ true
      → contains c q items ≡ true
  unfolding exists
  contains-same i [] h e = ground arith
  contains-same i (j ∷ items) h e = ground (arith, contains-same i items)

  contains-add_item :
      (items : List ItemRow) (i : ItemRow)
      → contains c q (add_item items i)
        ≡ contains c q items || (i.collection_id == c && i.qr_id == q)
  unfolding add_item exists
  contains-add_item items i = ground (
    arith,
    contains-same i items,
    exists-append (λ (j : ItemRow). j.collection_id == c && j.qr_id == q) items (i ∷ []),
  )

  contains-add_items :
      (items is : List ItemRow)
      → contains c q (add_items items is) ≡ contains c q items || contains c q is
  unfolding add_items exists
  contains-add_items items [] = ground arith
  contains-add_items items (i ∷ is) =
      ground (arith, contains-add_items (add_item items i) is, contains-add_item items i)

  is_qr-same : (db : Db) (x : ℕ) → (x == q) ≡ true → is_qr db x ≡ is_qr db q
  is_qr-same db x e = ap (is_qr db) (ground arith)

  contains-selected :
      (db : Db) (collection_id : ℕ) (ids : List ℕ)
      → contains c q (selected_items db collection_id ids)
        ≡ collection_id == c && (exists (λ x. x == q) ids && is_qr db q)
  unfolding selected_items exists keep
  contains-selected db collection_id [] = ground arith
  contains-selected db collection_id (x ∷ ids) =
      ground (arith, contains-selected db collection_id ids, is_qr-same db x)

insert_selected_lem :
    (id : ℕ) (db : Db) (is : List ItemRow)
    → exists (λ (c : CollectionRow). c.id == id) db.collections ≡ true
    → insert_selected id db is ≡ (ok tt, record db { items = add_items db.items is })
unfolding insert_selected add_items
insert_selected_lem id db [] known = refl
insert_selected_lem id db (i ∷ is) known = rw known

-- On a healthy connection, for a stored collection, adding a list of identifiers succeeds; then a QR
-- record is in a collection if it was before, or if the collection is this one, the list names the
-- record, and the record exists. Identifiers of no record are passed over.
pub add_tea_to_collection_lem :
    (id : ℕ) (ids : List ℕ) (db : Db)
    → db.faults ≡ []
    → exists (λ (c : CollectionRow). c.id == id) db.collections ≡ true
    → (items : List ItemRow) × (add_tea_to_collection id ids db
        ≡ (ok tt, record db { items = items }))
      × ((c q : ℕ)
          → contains c q items
            ≡ contains c q db.items || (id == c && (exists (λ x. x == q) ids && is_qr db q)))
unfolding add_tea_to_collection insert_collection_items exists
add_tea_to_collection_lem id [] db healthy known = (db.items, refl, λ c q. ground arith)
add_tea_to_collection_lem id (x ∷ ids) db healthy known = (
  add_items db.items (selected_items db id (x ∷ ids)),
  rw (
    statement_healthy _ db healthy,
    insert_selected_lem id db (selected_items db id (x ∷ ids)) known,
  ),
  λ c q. rw (
    contains-add_items c q db.items (selected_items db id (x ∷ ids)),
    contains-selected c q db id (x ∷ ids),
  ),
)

contains-keep :
    (id x c q : ℕ) (items : List ItemRow)
    → contains c q (keep (λ (i : ItemRow). not (i.collection_id == id && i.qr_id == x)) items)
      ≡ contains c q items && not (id == c && x == q)
unfolding exists keep
contains-keep id x c q [] = refl
contains-keep id x c q (i ∷ items) = ground (arith, contains-keep id x c q items)

-- On a healthy connection taking a list of records out of a collection succeeds; then a record is in a
-- collection if it was before, unless the collection is this one and the list names the record.
pub delete_tea_from_collection_lem :
    (id : ℕ) (ids : List ℕ) (db : Db)
    → db.faults ≡ []
    → (items : List ItemRow) × (delete_tea_from_collection id ids db
        ≡ (ok tt, record db { items = items }))
      × ((c q : ℕ)
          → contains c q items ≡ contains c q db.items && not (id == c && exists (λ x. x == q) ids))
unfolding delete_tea_from_collection delete_collection_item exists
delete_tea_from_collection_lem id [] db healthy = (db.items, refl, λ c q. ground arith)
delete_tea_from_collection_lem id (x ∷ ids) db healthy =
    let rest : List ItemRow =
      keep (λ (i : ItemRow). not (i.collection_id == id && i.qr_id == x)) db.items in
    let (items, ran, kept) =
      delete_tea_from_collection_lem id ids (record db { items = rest }) healthy in
    (
      items,
      rw (statement_healthy _ db healthy, ran),
      λ c q. ground (arith, kept c q, contains-keep id x c q db.items),
    )
