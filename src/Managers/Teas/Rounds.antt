-- ===== src/Managers/Teas/Rounds.antt =====
-- Rounds of the tea manager's loop, and histories of calls and rounds.
use tea_elephant_memory.Prelude.{
  ◌≤◌, ◌≡◌, refl, ap, true, false, some, List, ◌∷◌, ◌++◌, length, keep, Perm, arith,
}
use tea_elephant_memory.Domain as Common
use tea_elephant_memory.Subscribers.{State, Outcome, blocked}
use tea_elephant_memory.Subscribers.Cleaning.{IsValid, dead, clean_done_lem}
use tea_elephant_memory.Subscribers.Removal.{live}
use tea_elephant_memory.Subscribers.Delivery.{all_listen, messages, send_all_lem}
use tea_elephant_memory.Subscribers.Histories.{clean_done-IsValid}
use tea_elephant_memory.Models.{Tea, from_common_tea}
use tea_elephant_memory.Managers.Teas.{
  TeaManager, Environment, takes_created, clean_all, round, queue_size,
}

-- The collections are valid, and no queue is longer than its capacity.
pub record IsSound (m : TeaManager) : Type 0 where
  pub creates : IsValid m.create_subscribers
  pub updates : IsValid m.update_subscribers
  pub deletes : IsValid m.delete_subscribers
  pub created_bound : length m.created ≤ queue_size
  pub updated_bound : length m.updated ≤ queue_size
  pub deleted_bound : length m.deleted ≤ queue_size

pub clean_all_lem :
    (env : Environment) (m : TeaManager)
    → IsSound m
    → (m' : TeaManager) × (clean_all env m ≡ Outcome.ok m')
      × IsSound m'
      × (m'.created ≡ m.created)
      × (m'.create_subscribers.received ≡ m.create_subscribers.received)
      × Perm m'.create_subscribers.subs (keep (live (dead env.is_done)) m.create_subscribers.subs)
unfolding clean_all
clean_all_lem env m s =
    let (c, c_ran, c_subs, _, _, c_received) =
      clean_done_lem env.is_done m.create_subscribers s.creates in
    let (u, u_ran, _, _, _, _) = clean_done_lem env.is_done m.update_subscribers s.updates in
    let (d, d_ran, _, _, _, _) = clean_done_lem env.is_done m.delete_subscribers s.deletes in
    (
      record m { create_subscribers = c; update_subscribers = u; delete_subscribers = d },
      rw (c_ran, u_ran, d_ran),
      record {
        creates = clean_done-IsValid env.is_done m.create_subscribers c s.creates c_ran;
        updates = clean_done-IsValid env.is_done m.update_subscribers u s.updates u_ran;
        deletes = clean_done-IsValid env.is_done m.delete_subscribers d s.deletes d_ran;
        created_bound = s.created_bound;
        updated_bound = s.updated_bound;
        deleted_bound = s.deleted_bound;
      },
      refl,
      c_received,
      c_subs,
    )

-- On a sound manager whose queue of created teas starts with a tea, a round that takes it: when every
-- subscriber receives, the round ends, each has got the tea, in order, the tea has left the queue,
-- the subscribers whose context is not done stay, and the manager is sound; when one does not
-- receive, the loop waits for ever.
pub round_created_lem :
    (env : Environment) (m : TeaManager) (tea : Common.Tea) (rest : List Common.Tea)
    → IsSound m
    → m.created ≡ tea ∷ rest
    → (all_listen env.on_create m.create_subscribers.subs ≡ true
        → (m' : TeaManager) × (round env takes_created m ≡ some (Outcome.ok m'))
          × IsSound m'
          × (m'.created ≡ rest)
          × (m'.create_subscribers.received
              ≡ m.create_subscribers.received
                ++ messages (from_common_tea tea) m.create_subscribers.subs)
          × Perm m'.create_subscribers.subs
              (keep (live (dead env.is_done)) m.create_subscribers.subs))
      × (all_listen env.on_create m.create_subscribers.subs ≡ false
          → round env takes_created m ≡ some blocked)
unfolding round
round_created_lem env m tea rest s queue =
    let sent = send_all_lem env.on_create (from_common_tea tea) m.create_subscribers s.creates in
    (
      λ heard.
          let subs : State Tea = record m.create_subscribers {
            received =
                m.create_subscribers.received
                ++ messages (from_common_tea tea) m.create_subscribers.subs;
          } in
          let m₁ : TeaManager = record m { created = rest; create_subscribers = subs } in
          let s₁ : IsSound m₁ = record {
            creates = record { distinct = s.creates.distinct; below = s.creates.below };
            updates = s.updates;
            deletes = s.deletes;
            created_bound = omega (arith, ap length queue, s.created_bound);
            updated_bound = s.updated_bound;
            deleted_bound = s.deleted_bound;
          } in
          let (m', ran, sound, created, received, kept) = clean_all_lem env m₁ s₁ in
          (m', rw (queue, sent, heard, ran), sound, created, received, kept),
      λ deaf. rw (queue, sent, deaf),
    )
