-- ===== src/Event/TimerQueue/Valid.antt =====
-- When a timer queue is valid, between two calls and within a round.
use knpnl.Prelude.{ℕ, ◌≤◌, ◌≡◌, Option, none, some, true, List, [], ◌∷◌, length}
use knpnl.Event.TimerQueue.{Timer, TimerQueue, TimerEntry}
use knpnl.Event.TimerQueue.Order.{sorted, proper, has_entry, Each}

-- The entry's timer is on the heap, has the entry's time, and is in the map under its id.
pub record OfTimer (heap : ℕ → Option Timer) (ids : ℕ → Option ℕ) (ts a : ℕ) : Type 0 where
  pub timer : Timer
  pub on_heap : heap a ≡ some timer
  pub its_time : timer.expired ≡ ts
  pub mapped : ids timer.timer_id ≡ some a

-- The same of a timer that has expired in this round: its id is not in the map.
pub record Waiting (heap : ℕ → Option Timer) (ids : ℕ → Option ℕ) (ts a : ℕ) : Type 0 where
  pub timer : Timer
  pub on_heap : heap a ≡ some timer
  pub its_time : timer.expired ≡ ts
  pub unmapped : ids timer.timer_id ≡ none

abbrev pub Recorded : (ℕ → Option Timer) → (ℕ → Option ℕ) → List TimerEntry → Type 0
Recorded heap ids = Each (OfTimer heap ids)

-- An id of the map is that of a timer in the set.
pub record Entered (q : TimerQueue) (k a : ℕ) : Type 0 where
  pub timer : Timer
  pub on_heap : q.heap a ≡ some timer
  pub its_id : timer.timer_id ≡ k
  pub in_set : has_entry (timer.expired, a) q.timer_set ≡ true

-- The set is in order, the set and the map hold the same timers, each under its own id and time,
-- and no two timers share an id. `ex` are the expired timers whose turn in the round is to come.
pub record Sound (q : TimerQueue) (ex : List TimerEntry) : Type 0 where
  pub ordered : sorted q.timer_set ≡ true
  pub addresses : proper q.timer_set ≡ true
  pub recorded : Recorded q.heap q.id_map q.timer_set
  pub same_size : length q.timer_set ≡ q.id_count
  pub entered : (k a : ℕ) → q.id_map k ≡ some a → Entered q k a
  pub own_ids :
      (a b : ℕ) (t u : Timer)
      → q.heap a ≡ some t
      → q.heap b ≡ some u
      → t.timer_id ≡ u.timer_id
      → a ≡ b
  pub pending : Each (Waiting q.heap q.id_map) ex
  pub pending_ordered : sorted ex ≡ true
  pub pending_addresses : proper ex ≡ true

-- Between two calls nothing is pending.
abbrev pub IsValid : TimerQueue → Type 0
IsValid q = Sound q []

-- The descriptor was set for the time of the first timer, or for an earlier one.
abbrev pub Armed : Option ℕ → List TimerEntry → Type 0
Armed o [] = Unit
Armed none (e ∷ s) = ⊥
Armed (some d) (e ∷ s) = d ≤ e.0
