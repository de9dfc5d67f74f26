-- ===== src/Managers/Tests.antt =====
-- Instances of the theorems on the managers and on the models that they answer.
use tea_elephant_memory.Prelude.{ℕ, ◌≡◌, refl, not, ◌&&◌, ◌||◌, none, List, [], ◌∷◌, ◌==◌, pos}
use tea_elephant_memory.Domain.{BeverageType, Tea, beverage_type_string}
use tea_elephant_memory.Store.{Db, ok, err, CollectionRow, ItemRow, exists, find}
use tea_elephant_memory.Adapter.Collections.Membership.{contains, is_qr}
use tea_elephant_memory.Adapter.Teas.RoundTrip.{stored}
use tea_elephant_memory.Managers.Collections.{list_records, add_records, delete_records, delete}
use tea_elephant_memory.Managers.Collections.Guard.{
  missing, foreign_records_guarded, owned_records_changed,
}
use tea_elephant_memory.Models.{from_beverage_type, from_common_tea, to_common_tea}
use tea_elephant_memory.Models.Types.{to_common_tea-from_common_tea}

abbrev shelf : CollectionRow
shelf = record { id = 3; user_id = 5; name = b'c' ∷ []; created_at = pos 40 }

abbrev shelves : Db
shelves = record {
  users =
      record { id = 5; apple_id = b'x' ∷ []; created_at = pos 1 }
      ∷ record { id = 6; apple_id = b'y' ∷ []; created_at = pos 2 }
      ∷ [];
  teas =
      record {
        id = 7;
        name = b'A' ∷ [];
        type = b't' ∷ b'e' ∷ b'a' ∷ [];
        description = none;
        created_at = pos 2;
      }
      ∷ [];
  tag_categories = [];
  tags = [];
  tea_tags = [];
  qr_records =
      record {
        id = 8;
        tea_id = 7;
        boiling_temp = pos 95;
        expiration_date = pos 900;
        created_at = pos 30;
      }
      ∷ record {
        id = 9;
        tea_id = 7;
        boiling_temp = pos 95;
        expiration_date = pos 800;
        created_at = pos 31;
      }
      ∷ [];
  collections = shelf ∷ [];
  items = record { collection_id = 3; qr_id = 8 } ∷ [];
  devices = [];
  notifications = [];
  consumptions = [];
  faults = [];
}

foreign_records_guarded_example :
    (list_records 3 6 shelves ≡ (err missing, shelves))
    × (add_records 6 3 (9 ∷ []) shelves ≡ (err missing, shelves))
    × (delete_records 6 3 (9 ∷ []) shelves ≡ (err missing, shelves))
    × (delete 6 3 shelves ≡ (ok tt, shelves))
unfolding exists
foreign_records_guarded_example = foreign_records_guarded 3 6 (9 ∷ []) shelves refl refl

owned_records_changed_example :
    ((items : List ItemRow) × (add_records 5 3 (9 ∷ 4 ∷ []) shelves
        ≡ (ok (record { id = 3; name = b'c' ∷ []; user_id = 5 }), record shelves { items = items }))
      × ((c q : ℕ)
          → contains c q items
            ≡ contains c q shelves.items
              || (3 == c && (exists (λ x. x == q) (9 ∷ 4 ∷ []) && is_qr shelves q))))
    × ((items : List ItemRow) × (delete_records 5 3 (9 ∷ 4 ∷ []) shelves ≡ (
      ok (record { id = 3; name = b'c' ∷ []; user_id = 5 }),
      record shelves { items = items },
    ))
        × ((c q : ℕ)
            → contains c q items
              ≡ contains c q shelves.items && not (3 == c && exists (λ x. x == q) (9 ∷ 4 ∷ []))))
unfolding find
owned_records_changed_example = owned_records_changed 3 5 (9 ∷ 4 ∷ []) shelf shelves refl refl

abbrev pu_erh : Tea
pu_erh = record { id = 7; tea_data = record { name = b'P' ∷ []; type = pos 12; description = [] } }

to_common_tea-from_common_tea_example :
    (to_common_tea (from_common_tea pu_erh) ≡ record { id = 7; tea_data = stored pu_erh.tea_data })
    × ((b : BeverageType) → from_beverage_type b ≡ beverage_type_string b)
to_common_tea-from_common_tea_example = to_common_tea-from_common_tea pu_erh
