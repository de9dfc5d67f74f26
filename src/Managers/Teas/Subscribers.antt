-- ===== src/Managers/Teas/Subscribers.antt =====
-- internal/managers/tea/subscribers: copies of the generic collection for one type of
-- message each, so each operation is the generic one at that type.
use tea_elephant_memory.Prelude.{ℕ, Bool}
use tea_elephant_memory.Subscribers.{State, Outcome, new_subscribers, clean_done, send_all, push}
use tea_elephant_memory.Models.{Tea}

abbrev pub IdSubscribers : Type 0
IdSubscribers = State ℕ

abbrev pub new_id_subscribers : IdSubscribers
new_id_subscribers = new_subscribers

abbrev pub clean_done_id : (ℕ → Bool) → IdSubscribers → Outcome IdSubscribers
clean_done_id = clean_done

abbrev pub send_all_id : (ℕ → Bool) → ℕ → IdSubscribers → Outcome IdSubscribers
send_all_id = send_all

abbrev pub push_id : ℕ → ℕ → IdSubscribers → IdSubscribers
push_id = push

abbrev pub TeaSubscribers : Type 0
TeaSubscribers = State Tea

abbrev pub new_tea_subscribers : TeaSubscribers
new_tea_subscribers = new_subscribers

abbrev pub clean_done_tea : (ℕ → Bool) → TeaSubscribers → Outcome TeaSubscribers
clean_done_tea = clean_done

abbrev pub send_all_tea : (ℕ → Bool) → Tea → TeaSubscribers → Outcome TeaSubscribers
send_all_tea = send_all

abbrev pub push_tea : ℕ → ℕ → TeaSubscribers → TeaSubscribers
push_tea = push
