-- ===== src/Event/TimerQueue.antt =====
-- event/Timer.h, Timer.cpp, TimerQueue.h and TimerQueue.cpp, with base/Timestamp.h: the timers of a
-- loop. A `Timer *` is an address of the heap; `none` is a failed assertion, or what the language
-- leaves undefined (the use of a deleted timer, `begin()` of an empty set).
pub mod Order
pub mod Valid
pub mod Changes
pub mod Pending
pub mod Operations
pub mod Deletions
pub mod Destruction
pub mod Erasure
pub mod Due
pub mod Expiry
pub mod Rounds
pub mod Calls
mod Tests
use knpnl.Prelude.{
  ℕ, ◌+◌, ◌*◌, ◌/◌, ◌%◌, ◌^◌, Bool, true, false, not, ◌&&◌, ◌||◌, Option, none, some, List, [], ◌∷◌,
  if◌then◌else◌, ◌==◌, ltb, leb, length, sub_size, suc, ◌-◌,
}

-- `kMicroSecondsPerSecond`
abbrev pub micro_seconds_per_second : ℕ
micro_seconds_per_second = 1000000

-- `addTime`, with the interval already converted to microseconds.
abbrev pub add_time : ℕ → ℕ → ℕ
add_time ts delta = (ts + delta) % 2 ^ 64

-- A timer: its callback is a name, its interval is given in microseconds with the test
-- `interval > 0.0` beside it.
pub record Timer : Type 0 where
  pub callback : ℕ
  pub expired : ℕ
  pub interval : ℕ
  pub is_repeat : Bool
  pub timer_id : ℕ

-- `restart`, at the time `now`.
abbrev pub restart : Timer → ℕ → Timer
restart t now =
    if t.is_repeat
    then record t { expired = add_time now t.interval }
    else record t { expired = now }

-- `reset`
abbrev pub reset : Timer → ℕ → Timer
reset t ts = record t { expired = ts }

-- `TimerEntry`, and the order of `std::pair` on it.
abbrev pub TimerEntry : Type 0
TimerEntry = ℕ × ℕ

abbrev pub entry_ltb : TimerEntry → TimerEntry → Bool
entry_ltb (t, a) (u, b) = ltb t u || (not (ltb u t) && ltb a b)

-- `set::insert` and `set::erase` on the entries in their order.
unfoldable pub set_insert : TimerEntry → List TimerEntry → List TimerEntry
set_insert e [] = e ∷ []
set_insert e (x ∷ r) =
    let rest = set_insert e r in
    if entry_ltb e x then e ∷ x ∷ r else if entry_ltb x e then x ∷ rest else x ∷ r

unfoldable pub set_erase : TimerEntry → List TimerEntry → List TimerEntry
set_erase e [] = []
set_erase e (x ∷ r) =
    let rest = set_erase e r in if entry_ltb e x || entry_ltb x e then x ∷ rest else r

-- The heap of timers, `mTimerSet`, `mTimerIdMap` with its size, and the time for which the timer
-- descriptor was set last.
pub record TimerQueue : Type 0 where
  pub heap : ℕ → Option Timer
  pub timer_set : List TimerEntry
  pub id_map : ℕ → Option ℕ
  pub id_count : ℕ
  pub armed : Option ℕ

unfoldable pub new : TimerQueue
new = record { heap = λ a. none; timer_set = []; id_map = λ k. none; id_count = 0; armed = none }

abbrev pub update {ℓ} : {A : Type ℓ} → (ℕ → A) → ℕ → A → ℕ → A
update f k v j = if k == j then v else f j

-- `mTimerIdMap[id] = timer` and `mTimerIdMap.erase(id)`.
unfoldable pub id_put : TimerQueue → ℕ → ℕ → TimerQueue
id_put q k a = record q {
  id_map = update q.id_map k (some a);
  id_count = elim (q.id_map k) [ none ↦ suc q.id_count | some b ↦ q.id_count ];
}

unfoldable pub id_erase : TimerQueue → ℕ → TimerQueue
id_erase q k = record q {
  id_map = update q.id_map k none;
  id_count = elim (q.id_map k) [ none ↦ q.id_count | some b ↦ q.id_count - 1 ];
}

-- `resetTimerfd(mTimerfd, ts)`
abbrev pub reset_timerfd : TimerQueue → ℕ → TimerQueue
reset_timerfd q ts = record q { armed = some ts }

-- `resetTimerfd(mTimerfd, mTimerSet.begin()->first)`
unfoldable pub rearm : TimerQueue → Option TimerQueue
rearm q = elim q.timer_set [ [] ↦ none | e ∷ r ↦ some (reset_timerfd q e.0) ]

-- `mTimerSet.begin()->second==timer`; false for an empty set, which the callers have excluded.
abbrev pub is_head : List TimerEntry → ℕ → Bool
is_head [] a = false
is_head (e ∷ r) a = e.1 == a

-- `assert(mTimerSet.size()==mTimerIdMap.size())`
abbrev pub check_sizes : TimerQueue → Option TimerQueue
check_sizes q = if length q.timer_set == q.id_count then some q else none

abbrev pub armed_if_head : TimerQueue → ℕ → ℕ → TimerQueue
armed_if_head q a ts = if is_head q.timer_set a then reset_timerfd q ts else q

-- `mTimerSet.insert(TimerEntry(ts,timer)); mTimerIdMap[timerId]=timer;`
abbrev pub place : TimerQueue → ℕ → Timer → TimerQueue
place q a t = id_put (record q { timer_set = set_insert (t.expired, a) q.timer_set }) t.timer_id a

-- What `insert` does behind its first assertion.
unfoldable pub enter : TimerQueue → ℕ → Timer → Option TimerQueue
unfolding set_insert id_put
enter q a t = check_sizes (armed_if_head (place q a t) a t.expired)

-- `insert(timer)`
unfoldable pub insert : TimerQueue → ℕ → Option TimerQueue
insert q a = elim (q.heap a) [
  | none ↦ none
  | some t ↦ elim (q.id_map t.timer_id) [ some b ↦ none | none ↦ enter q a t ]
]

-- The queue without a timer, which is deleted.
unfoldable pub taken_out : TimerQueue → ℕ → Timer → TimerQueue
unfolding set_erase id_erase
taken_out q a t = record (id_erase q t.timer_id) {
  timer_set = set_erase (t.expired, a) q.timer_set;
  heap = update q.heap a none;
}

-- `if(isHeadChange)` and the assertion of `deleteTimer`.
unfoldable pub finish_delete : Bool → TimerQueue → Option TimerQueue
unfolding rearm
finish_delete true left = elim (rearm left) [ none ↦ none | some q ↦ check_sizes q ]
finish_delete false left = check_sizes left

-- `deleteTimer(timer)`, for a set that is not empty.
unfoldable pub delete_timer : TimerQueue → ℕ → Option TimerQueue
delete_timer q a = elim (q.heap a) [
  | none ↦ none
  | some t ↦ finish_delete (is_head q.timer_set a) (taken_out q a t)
]

abbrev pub moved : TimerQueue → ℕ → Timer → ℕ → TimerQueue
moved q a t ts =
    let erased = set_erase (t.expired, a) q.timer_set in
    record q { heap = update q.heap a (some (reset t ts)); timer_set = set_insert (ts, a) erased }

-- `resetTimer(id, ts, isReset)`: the queue, with `isReset`.
unfoldable pub reset_timer : TimerQueue → ℕ → ℕ → Option (TimerQueue × Bool)
unfolding set_erase set_insert
reset_timer q k ts = elim (q.id_map k) [
  | none ↦ some (q, false)
  | some a ↦ elim (q.heap a) [
    | none ↦ none
    | some t ↦ elim (check_sizes (moved q a t ts)) [
      | none ↦ none
      | some q' ↦ some (armed_if_head q' a ts, true)
    ]
  ]
]

-- `UINTPTR_MAX`
abbrev pub uintptr_max : ℕ
uintptr_max = 2 ^ 64 - 1

-- The entries before `lower_bound(pivot)`, and those from it on.
unfoldable pub before : TimerEntry → List TimerEntry → List TimerEntry
before pivot [] = []
before pivot (x ∷ r) = let rest = before pivot r in if entry_ltb x pivot then x ∷ rest else []

unfoldable pub from : TimerEntry → List TimerEntry → List TimerEntry
from pivot [] = []
from pivot (x ∷ r) = let rest = from pivot r in if entry_ltb x pivot then rest else x ∷ r

-- The ids of the expired timers leave the map.
unfoldable pub erase_ids : List TimerEntry → TimerQueue → Option TimerQueue
unfolding id_erase
erase_ids [] q = some q
erase_ids (e ∷ r) q = elim (q.heap e.1) [
  | none ↦ none
  | some t ↦ erase_ids r (id_erase q t.timer_id)
]

-- `assert(end==mTimerSet.end()||when<end->first)`
abbrev pub starts_after : ℕ → List TimerEntry → Bool
starts_after when [] = true
starts_after when (e ∷ r) = ltb when e.0

-- `findExpiredTimer(when)`
unfoldable pub find_expired_timer : TimerQueue → ℕ → Option (TimerQueue × List TimerEntry)
unfolding before from erase_ids
find_expired_timer q when =
    let pivot : TimerEntry = (when, uintptr_max) in
    let expired = before pivot q.timer_set in
    let rest = from pivot q.timer_set in
    if starts_after when rest
    then (elim (erase_ids expired (record q { timer_set = rest })) [
      | none ↦ none
      | some q' ↦ elim (check_sizes q') [ none ↦ none | some q'' ↦ some (q'', expired) ]
    ])
    else none

-- What is left of the round for a timer whose callback has run, at the time `now`.
unfoldable pub renew : TimerQueue → ℕ → ℕ → Option TimerQueue
unfolding set_insert id_put
renew q a now = elim (q.heap a) [
  | none ↦ none
  | some t ↦
      if t.is_repeat
      then (let t' = restart t now in
          some (place (record q { heap = update q.heap a (some t') }) a t'))
      else some (record q { heap = update q.heap a none })
]

-- What the callbacks do to the queue (they may add, remove and reset timers), and the time at which
-- a timer is restarted.
module _ (run : Timer → TimerQueue → Option TimerQueue) (now_at : ℕ → ℕ) where
  -- The loop over the expired timers.
  unfoldable pub run_all : List TimerEntry → TimerQueue → Option TimerQueue
  unfolding renew
  run_all [] q = some q
  run_all (e ∷ r) q = elim (q.heap e.1) [
    | none ↦ none
    | some t ↦ elim (run t q) [
      | none ↦ none
      | some q' ↦ elim (renew q' e.1 (now_at e.1)) [ none ↦ none | some q'' ↦ run_all r q'' ]
    ]
  ]

  -- `handleRead()` at the time `when`.
  unfoldable pub handle_read : TimerQueue → ℕ → Option TimerQueue
  unfolding find_expired_timer run_all rearm
  handle_read q when = elim (find_expired_timer q when) [
    | none ↦ none
    | some (q', expired) ↦ elim (run_all expired q') [
      | none ↦ none
      | some q'' ↦ elim (check_sizes q'') [ none ↦ none | some q''' ↦ rearm q''' ]
    ]
  ]

-- `struct timespec`
pub record Timespec : Type 0 where
  pub tv_sec : ℕ
  pub tv_nsec : ℕ

-- `howMuchTimeFromNow(when)`: the difference of two `uint64_t`, read as an `int64_t`.
unfoldable pub how_much_time_from_now : ℕ → ℕ → Timespec
how_much_time_from_now now when =
    let difference = sub_size when now in
    let microseconds = if leb (2 ^ 63) difference || ltb difference 100 then 100 else difference in
    record {
      tv_sec = microseconds / micro_seconds_per_second;
      tv_nsec = microseconds % micro_seconds_per_second * 1000;
    }
