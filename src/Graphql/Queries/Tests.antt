-- ===== src/Graphql/Queries/Tests.antt =====
-- An instance of the theorem on the queries.
use tea_elephant_memory.Prelude.{◌≡◌, refl, none, some, [], ◌∷◌, ◌++◌, pos}
use tea_elephant_memory.Store.{Db, ok, exists}
use tea_elephant_memory.Models.{TeaInput, from_common_tea}
use tea_elephant_memory.Managers.Teas as Teas
use tea_elephant_memory.Managers.Tags as Tags
use tea_elephant_memory.Auth.{AdminPrincipal}
use tea_elephant_memory.Auth.Requests.{Principals}
use tea_elephant_memory.Graphql.Mutations.{World, responds, new_tea}
use tea_elephant_memory.Graphql.Queries.{tea}
use tea_elephant_memory.Graphql.Queries.Written.{kept, new_tea-tea}

abbrev bare : Db
bare = record {
  users = [];
  teas =
      record {
        id = 6;
        name = b'A' ∷ [];
        type = b't' ∷ b'e' ∷ b'a' ∷ [];
        description = none;
        created_at = pos 2;
      }
      ∷ [];
  tag_categories = [];
  tags = [];
  tea_tags = [];
  qr_records = [];
  collections = [];
  items = [];
  devices = [];
  notifications = [];
  consumptions = [];
  faults = [];
}

abbrev house : World
house = record { db = bare; teas = Teas.new_manager bare; tags = Tags.new_manager bare }

abbrev editor : AdminPrincipal
editor = record { jti = b'j' ∷ []; issued_at = pos 1; expires_at = pos 90 }

abbrev signed_in : Principals
signed_in = record { user = none; admin = some editor }

abbrev oolong : TeaInput
oolong = record { name = b'O' ∷ []; type = b't' ∷ b'e' ∷ b'a' ∷ []; description = b'd' ∷ [] }

new_tea-tea_example :
    (w' : World) × (new_tea signed_in 7 (pos 50) oolong house
      ≡ (responds (ok (from_common_tea (kept 7 oolong))), w'))
    × (w'.teas.created ≡ house.teas.created ++ kept 7 oolong ∷ [])
    × (tea 7 w' ≡ (responds (ok (from_common_tea (kept 7 oolong))), w'))
unfolding exists Teas.new_manager
new_tea-tea_example = new_tea-tea signed_in editor 7 (pos 50) oolong house refl refl refl refl
