-- ===== src/Graphql/Mutations/Tests.antt =====
-- Instances of the theorems on the mutations.
use tea_elephant_memory.Prelude.{ℤ, ◌≡◌, refl, true, false, none, some, [], ◌∷◌, pos}
use tea_elephant_memory.Store.{Db, Postgres, ok, TeaRow, find}
use tea_elephant_memory.Adapter.{tea_of_row}
use tea_elephant_memory.Adapter.Teas.RoundTrip.{IsClamped}
use tea_elephant_memory.Models.{QrRecordData, from_common_tea}
use tea_elephant_memory.Managers.Teas as Teas
use tea_elephant_memory.Managers.Tags as Tags
use tea_elephant_memory.Managers.Records.{get_qr_data}
use tea_elephant_memory.Auth.{ValidUser, AdminPrincipal}
use tea_elephant_memory.Auth.Requests.{Principals}
use tea_elephant_memory.Graphql.Mutations.{World, responds, write_to_qr}
use tea_elephant_memory.Graphql.Mutations.Guards.{
  asks_delete_category, asks_create_collection, serve_admin, serve_user, admin_or_refused,
  user_or_refused, guards_lem,
}
use tea_elephant_memory.Graphql.Mutations.Labels.{write_to_qr_lem}

abbrev postgres : Postgres
postgres = record {
  lower = λ s. s;
  like = λ p s. true;
  collates_before = λ s t. false;
  timestamptz = λ t. t;
}

abbrev assam : TeaRow
assam = record {
  id = 6;
  name = b'A' ∷ [];
  type = b't' ∷ b'e' ∷ b'a' ∷ [];
  description = none;
  created_at = pos 2;
}

abbrev pantry : Db
pantry = record {
  users = record { id = 5; apple_id = b'x' ∷ []; created_at = pos 1 } ∷ [];
  teas = assam ∷ [];
  tag_categories = record { id = 7; name = b'k' ∷ [] } ∷ [];
  tags = [];
  tea_tags = [];
  qr_records =
      record {
        id = 8;
        tea_id = 6;
        boiling_temp = pos 95;
        expiration_date = pos 900;
        created_at = pos 30;
      }
      ∷ [];
  collections = [];
  items = [];
  devices = [];
  notifications = [];
  consumptions = [];
  faults = [];
}

abbrev house : World
house = record { db = pantry; teas = Teas.new_manager pantry; tags = Tags.new_manager pantry }

abbrev drinker : ValidUser
drinker = record { id = 5; jwt = []; expired_at = pos 5000 }

abbrev editor : AdminPrincipal
editor = record { jti = b'j' ∷ []; issued_at = pos 1; expires_at = pos 90 }

abbrev signed_in : Principals
signed_in = record { user = some drinker; admin = none }

abbrev nobody : Principals
nobody = record { user = none; admin = none }

guards_lem_example :
    (serve_admin postgres 9 (pos 50) signed_in (asks_delete_category 7) house
      ≡ admin_or_refused none
          (serve_admin postgres 9
            (pos 50)
            (record { user = none; admin = some editor })
            (asks_delete_category 7))
          house)
    × (serve_user postgres 9 (pos 50) signed_in (asks_create_collection (b'c' ∷ [])) house
        ≡ user_or_refused
            (some drinker)
            (λ id.
              serve_user postgres 9
                (pos 50)
                (record { user = some (record drinker { id = id }); admin = none })
                (asks_create_collection (b'c' ∷ [])))
            house)
guards_lem_example =
    guards_lem postgres 9 (pos 50) signed_in editor drinker (asks_delete_category 7)
      (asks_create_collection (b'c' ∷ [])) house

abbrev label : QrRecordData
label = record { tea = 6; bowling_temp = pos 9_999_999_999; expiration_date = pos 700 }

write_to_qr_lem_example :
    (w' : World) × (temp : ℤ) × IsClamped (pos 9_999_999_999) temp
    × (write_to_qr nobody postgres 8 (pos 60) label house ≡ (
      responds (
          ok (record {
            id = 8;
            tea = from_common_tea (tea_of_row assam);
            bowling_temp = pos 9_999_999_999;
            expiration_date = pos 700;
          })),
      w',
    ))
    × (get_qr_data 8 w'.db
        ≡ (ok (record { tea = 6; bowling_temp = temp; expiration_date = pos 700 }), w'.db))
unfolding find
write_to_qr_lem_example = write_to_qr_lem postgres nobody 8 (pos 60) label assam house refl refl
