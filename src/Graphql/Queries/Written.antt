-- ===== src/Graphql/Queries/Written.antt =====
-- What a query answers after a mutation.
use tea_elephant_memory.Prelude.{ℕ, ◌≡◌, refl, true, false, some, [], ◌∷◌, ◌++◌, length, ltb, ◌==◌}
use tea_elephant_memory.Clock.{Time}
use tea_elephant_memory.Domain as Common
use tea_elephant_memory.Store.{ok, TeaRow, exists}
use tea_elephant_memory.Adapter.Teas.RoundTrip.{stored, write_record-read_record}
use tea_elephant_memory.Models.{TeaInput, from_common_tea, to_common_tea_data}
use tea_elephant_memory.Managers.Teas.{queue_size, send_created}
use tea_elephant_memory.Managers.Teas as Teas
use tea_elephant_memory.Auth.{AdminPrincipal}
use tea_elephant_memory.Auth.Requests.{Principals, require_admin}
use tea_elephant_memory.Graphql.Mutations.{World, responds, new_tea}
use tea_elephant_memory.Graphql.Queries.{tea}

-- The tea that the storage keeps of an input.
abbrev pub kept : ℕ → TeaInput → Common.Tea
kept id input = record { id = id; tea_data = stored (to_common_tea_data input) }

-- For an administrator, on a healthy connection, for a new identifier and with room on the queue of
-- created teas: NewTea answers the tea as the storage keeps it and queues it last for the subscribers,
-- and the query Tea of its identifier, by anyone, then answers the same and changes nothing.
pub new_tea-tea :
    (ctx : Principals) (p : AdminPrincipal) (id : ℕ) (now : Time) (input : TeaInput) (w : World)
    → ctx.admin ≡ some p
    → w.db.faults ≡ []
    → exists (λ (t : TeaRow). t.id == id) w.db.teas ≡ false
    → ltb (length w.teas.created) queue_size ≡ true
    → (w' : World) × (new_tea ctx id now input w
        ≡ (responds (ok (from_common_tea (kept id input))), w'))
      × (w'.teas.created ≡ w.teas.created ++ kept id input ∷ [])
      × (tea id w' ≡ (responds (ok (from_common_tea (kept id input))), w'))
unfolding new_tea tea require_admin Teas.create send_created Teas.get
new_tea-tea ctx p id now input w has_admin healthy new room =
    let (db', written, read) =
      write_record-read_record id now (to_common_tea_data input) w.db healthy new in
    (
      record w {
        db = db';
        teas = record w.teas { db = db'; created = w.teas.created ++ kept id input ∷ [] };
      },
      rw (has_admin, written, room) refl,
      refl,
      rw read refl,
    )
