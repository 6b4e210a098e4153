-- ===== src/Event/TimerQueue/Tests.antt =====
-- Runs of the timer queue, and the theorems about it at concrete inputs.
use knpnl.Prelude.{
  Option, List, ℕ, ◌+◌, ◌<◌, ◌≤◌, ◌≡◌, refl, inl, inr, Bool-cases, length, none, some, [], ◌∷◌,
  false, if◌then◌else◌, ◌==◌, arith,
}
use knpnl.Event.TimerQueue.{
  enter, TimerEntry, delete_timer, reset_timer, Timer, TimerQueue, handle_read, insert,
  how_much_time_from_now, id_put, new,
}
use knpnl.Event.TimerQueue.Order.{sorted, above, proper, has_entry, nil, cons}
use knpnl.Event.TimerQueue.Valid.{IsValid, Sound, Entered}
use knpnl.Event.TimerQueue.Expiry.{FoundExpired, find_expired_timer-FoundExpired}
use knpnl.Event.TimerQueue.Operations.{
  Done, insert-Done, ResetOutcome, not_found, was_reset, reset_timer-ResetOutcome,
}
use knpnl.Event.TimerQueue.Deletions.{delete_timer-Done}
use knpnl.Event.TimerQueue.Destruction.{destroy, destroy_deletes}
use knpnl.Event.TimerQueue.Calls.{Timers, remove, run_tasks, run_task, delete_task, remove_twice}
use knpnl.Event.TimerQueue.Rounds.{Served, handle_read-Ends, how_much_time_from_now-micros, micros}

abbrev first : Timer
first = record { callback = 1; expired = 500; interval = 0; is_repeat = false; timer_id = 7 }

abbrev second : Timer
second = record { callback = 2; expired = 900; interval = 0; is_repeat = false; timer_id = 6 }

-- Two timers, the first due at 500, the second at 900.
abbrev two_timers : TimerQueue
two_timers = record {
  heap = λ a. if a == 32 then some first else if a == 16 then some second else none;
  timer_set = (500, 32) ∷ (900, 16) ∷ [];
  id_map = λ k. if k == 7 then some 32 else if k == 6 then some 16 else none;
  id_count = 2;
  armed = some 500;
}

two_timers-Entered : (k a : ℕ) → two_timers.id_map k ≡ some a → Entered two_timers k a
unfolding has_entry
two_timers-Entered k a h = elim (Bool-cases (a == 32)) [
  | inl e ↦
      (let x : a ≡ 32 = ground arith in
        record { timer = first; on_heap = ground arith; its_id = ground arith; in_set = rw x refl })
  | inr e ↦
      (let x : a ≡ 16 = ground arith in
        record {
          timer = second;
          on_heap = ground arith;
          its_id = ground arith;
          in_set = rw x refl;
        })
]

two_timers-IsValid : IsValid two_timers
unfolding sorted above proper
two_timers-IsValid = record {
  ordered = refl;
  addresses = refl;
  recorded =
      cons (record { timer = first; on_heap = refl; its_time = refl; mapped = refl })
        (cons (record { timer = second; on_heap = refl; its_time = refl; mapped = refl }) nil);
  same_size = refl;
  entered = two_timers-Entered;
  own_ids = λ a b t u h i e. ground arith;
  pending = nil;
  pending_ordered = refl;
  pending_addresses = refl;
}

-- A timer before the others sets the descriptor.
insert_first :
    insert (record new { heap = two_timers.heap }) 16
    ≡ some
        (record (id_put (record new { heap = two_timers.heap; timer_set = (900, 16) ∷ [] }) 6 16) {
          armed = some 900;
        })
unfolding insert enter new
insert_first = refl

find_expired_timer-FoundExpired_example : FoundExpired two_timers 700
find_expired_timer-FoundExpired_example =
    find_expired_timer-FoundExpired two_timers 700 two_timers-IsValid

how_much_time_from_now-micros_example :
    ((1000 + 100 ≤ 2500 → 1000 + micros (how_much_time_from_now 1000 2500) ≡ 2500)
      × (2500 < 1000 + 100 → micros (how_much_time_from_now 1000 2500) ≡ 100))
    × ((how_much_time_from_now 1000 2500).tv_nsec < 1000000000)
how_much_time_from_now-micros_example =
    how_much_time_from_now-micros 1000 2500 (omega arith) (omega arith)

-- A callback that moves the second timer, and one that leaves the timers alone.
abbrev postpone : Timer → TimerQueue → Option TimerQueue
postpone t q = elim (reset_timer q 6 1500) [ none ↦ none | some (q', b) ↦ some q' ]

postpone_keeps :
    (t : Timer) (q : TimerQueue) (ex : List TimerEntry)
    → Sound q ex
    → (q' : TimerQueue) × (postpone t q ≡ some q') × Sound q' ex
postpone_keeps t q ex v = kept (reset_timer-ResetOutcome 6 1500 v)
  where
    kept :
        ResetOutcome q ex 6 1500 (reset_timer q 6 1500)
        → (q' : TimerQueue) × (postpone t q ≡ some q') × Sound q' ex
    kept (not_found f e) = (q, rw (postpone, e) refl, v)
    kept (was_reset a q' f e w i o) = (q', rw (postpone, e) refl, w)

handle_read-Ends_example :
    (f : FoundExpired two_timers 700) × (q' : TimerQueue) × Served postpone
      (λ a. 1000)
      f.expired
      f.left
      q'
    × IsValid q'
    × (q'.timer_set ≡ [] → handle_read postpone (λ a. 1000) two_timers 700 ≡ none)
    × ((e : TimerEntry) (s : List TimerEntry)
        → q'.timer_set ≡ e ∷ s
        → handle_read postpone (λ a. 1000) two_timers 700 ≡ some (record q' { armed = some e.0 }))
handle_read-Ends_example =
    handle_read-Ends postpone (λ a. 1000) postpone_keeps two_timers 700 two_timers-IsValid

delete_timer-Done_example :
    (length two_timers.timer_set ≡ 1 → delete_timer two_timers 32 ≡ none)
    × (1 < length two_timers.timer_set
        → (d : Done two_timers [] (delete_timer two_timers 32)) × (d.after.id_map 7 ≡ none)
          × (delete_timer d.after 32 ≡ none))
delete_timer-Done_example = delete_timer-Done 7 32 two_timers-IsValid refl

reset_timer-ResetOutcome_example : ResetOutcome two_timers [] 7 1200 (reset_timer two_timers 7 1200)
reset_timer-ResetOutcome_example = reset_timer-ResetOutcome 7 1200 two_timers-IsValid

abbrev one_more : TimerQueue
one_more = record two_timers {
  heap = λ a.
      if a == 48 then some (record first { timer_id = 9; expired = 600 }) else two_timers.heap a;
}

one_more-IsValid : IsValid one_more
unfolding sorted above proper
one_more-IsValid = record {
  ordered = refl;
  addresses = refl;
  recorded =
      cons (record { timer = first; on_heap = refl; its_time = refl; mapped = refl })
        (cons (record { timer = second; on_heap = refl; its_time = refl; mapped = refl }) nil);
  same_size = refl;
  entered = λ k a h.
      let e = two_timers-Entered k a h in
      record {
        timer = e.timer;
        on_heap = ground (arith, e.on_heap);
        its_id = e.its_id;
        in_set = e.in_set;
      };
  own_ids = λ a b t u h i e. ground arith;
  pending = nil;
  pending_ordered = refl;
  pending_addresses = refl;
}

insert-Done_example : Done one_more [] (insert one_more 48)
insert-Done_example =
    insert-Done 48 (record first { timer_id = 9; expired = 600 }) one_more-IsValid refl refl
      (omega arith) nil

abbrev timers : Timers
timers = record { queue = two_timers; timer_count = 8; tasks = [] }

remove_twice_example :
    (s1 : Timers) × (s2 : Timers) × (q : TimerQueue) × (remove false timers 7 ≡ some s1)
    × (remove false s1 7 ≡ some s2)
    × (s2.queue ≡ two_timers)
    × (s2.tasks ≡ delete_task 32 ∷ delete_task 32 ∷ [])
    × (run_task (delete_task 32) s2.queue ≡ some q)
    × IsValid q
    × (run_task (delete_task 32) q ≡ none)
    × (run_tasks s2.tasks s2.queue ≡ none)
remove_twice_example = remove_twice timers 7 32 two_timers-IsValid refl (omega arith) refl

destroy_deletes_example :
    (heap : ℕ → Option Timer) × (destroy two_timers ≡ some heap)
    × ((id a : ℕ) → two_timers.id_map id ≡ some a → heap a ≡ none)
    × ((a : ℕ)
        → ((ts : ℕ) → has_entry (ts, a) two_timers.timer_set ≡ false)
        → heap a ≡ two_timers.heap a)
destroy_deletes_example = destroy_deletes two_timers two_timers-IsValid
