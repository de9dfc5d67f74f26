-- ===== src/Managers/Tags/Sends.antt =====
-- The sends of the methods on the queues keep the tag manager sound.
use tea_elephant_memory.Prelude.{ℕ, Bool, true, false, List}
use tea_elephant_memory.Domain as Common
use tea_elephant_memory.Store.{Result, ok, err}
use tea_elephant_memory.Adapter.{Error}
use tea_elephant_memory.Managers.Topics.{Topic, IsFit, put_all, put_all-IsFit}
use tea_elephant_memory.Managers.Tags.{
  TagManager, after_tags, send_created, send_updated, send_deleted, send_category_created,
  send_category_updated, send_category_deleted, send_all_deleted, send_tag_added, send_tag_removed,
}
use tea_elephant_memory.Managers.Tags.Soundness.{
  IsSound, with_created, with_updated, with_deleted, with_category_created, with_category_updated,
  with_category_deleted, with_tag_added, with_tag_removed, queued-IsSound,
}

pub send_category_created-IsSound :
    (r : Result Error Common.TagCategory) (m : TagManager)
    → IsSound m
    → IsSound (send_category_created r m).1
unfolding send_category_created
send_category_created-IsSound (err e) m s = s
send_category_created-IsSound (ok x) m s =
    queued-IsSound x x m.category_created _ m s.category_created_fit s (with_category_created s)

pub send_created-IsSound :
    (r : Result Error Common.Tag) (m : TagManager) → IsSound m → IsSound (send_created r m).1
unfolding send_created
send_created-IsSound (err e) m s = s
send_created-IsSound (ok x) m s = queued-IsSound x x m.created _ m s.created_fit s (with_created s)

pub send_updated-IsSound :
    (r : Result Error Common.Tag) (m : TagManager) → IsSound m → IsSound (send_updated r m).1
unfolding send_updated
send_updated-IsSound (err e) m s = s
send_updated-IsSound (ok x) m s = queued-IsSound x x m.updated _ m s.updated_fit s (with_updated s)

pub send_deleted-IsSound :
    (id : ℕ) (r : Result Error (Unit {0})) (m : TagManager)
    → IsSound m
    → IsSound (send_deleted id r m).1
unfolding send_deleted
send_deleted-IsSound id (err e) m s = s
send_deleted-IsSound id (ok x) m s =
    queued-IsSound tt id m.deleted _ m s.deleted_fit s (with_deleted s)

pub send_tag_added-IsSound :
    (id : ℕ) (r : Result Error (Unit {0})) (m : TagManager)
    → IsSound m
    → IsSound (send_tag_added id r m).1
unfolding send_tag_added
send_tag_added-IsSound id (err e) m s = s
send_tag_added-IsSound id (ok x) m s =
    queued-IsSound tt id m.tag_added _ m s.tag_added_fit s (with_tag_added s)

pub send_tag_removed-IsSound :
    (id : ℕ) (r : Result Error (Unit {0})) (m : TagManager)
    → IsSound m
    → IsSound (send_tag_removed id r m).1
unfolding send_tag_removed
send_tag_removed-IsSound id (err e) m s = s
send_tag_removed-IsSound id (ok x) m s =
    queued-IsSound tt id m.tag_removed _ m s.tag_removed_fit s (with_tag_removed s)

pub send_category_updated-IsSound :
    (res : Common.TagCategory) (r : Result Error (Unit {0})) (m : TagManager)
    → IsSound m
    → IsSound (send_category_updated res r m).1
unfolding send_category_updated
send_category_updated-IsSound res (err e) m s = s
send_category_updated-IsSound res (ok x) m s =
    queued-IsSound res res m.category_updated _ m s.category_updated_fit s (with_category_updated s)

after_tags-IsSound :
    (id : ℕ) (m : TagManager) (r : Bool × Topic ℕ ℕ)
    → IsSound m
    → IsFit r.1
    → IsSound (after_tags id m r).1
unfolding send_category_deleted
after_tags-IsSound id m (false, t) s fit = with_deleted s t fit
after_tags-IsSound id m (true, t) s fit =
    queued-IsSound tt id m.category_deleted _ _ s.category_deleted_fit (with_deleted s t fit)
      (with_category_deleted (with_deleted s t fit))

pub send_all_deleted-IsSound :
    (id : ℕ) (r : Result Error (List ℕ)) (m : TagManager)
    → IsSound m
    → IsSound (send_all_deleted id r m).1
unfolding send_all_deleted
send_all_deleted-IsSound id (err e) m s = s
send_all_deleted-IsSound id (ok tags) m s =
    after_tags-IsSound id m (put_all tags m.deleted) s (put_all-IsFit tags m.deleted s.deleted_fit)
