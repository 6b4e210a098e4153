-- ===== src/Event/TimerQueue/Rounds.antt =====
-- event/TimerQueue.cpp: the time that the descriptor is set to, and the rounds of `handleRead`.
use knpnl.Prelude.{
  ℕ, ◌+◌, ◌*◌, ◌/◌, ◌^◌, ◌≤◌, ◌<◌, ◌≡◌, refl, ap, sym, ◌∙◌, inl, inr, Option, none, some, length,
  ◌==◌, true, false, List, [], ◌∷◌, ◌++◌, Bool-cases, Option-cases, ◌⊎◌, arith,
}
use knpnl.Event.TimerQueue.{
  update, check_sizes, Timer, TimerQueue, TimerEntry, handle_read, run_all, renew, rearm, Timespec,
  how_much_time_from_now,
}
use knpnl.Event.TimerQueue.Order.{Each_head, Each-rest}
use knpnl.Event.TimerQueue.Valid.{Sound, IsValid}
use knpnl.Event.TimerQueue.Deletions.{rearm_head}
use knpnl.Event.TimerQueue.Pending.{renew-Sound}
use knpnl.Event.TimerQueue.Expiry.{FoundExpired, find_expired_timer-FoundExpired}
use knpnl.Event.TimerQueue.Due.{all_due, none_due}

-- The time that the descriptor is set to, in microseconds.
abbrev pub micros : Timespec → ℕ
micros t = t.tv_sec * 1000000 + t.tv_nsec / 1000

-- For times below 2^63, `howMuchTimeFromNow` gives the time that is left, but 100 microseconds
-- where less is left or the time is past; the nanoseconds are below a second.
pub how_much_time_from_now-micros :
    (now when : ℕ)
    → now < 2 ^ 63
    → when < 2 ^ 63
    → ((now + 100 ≤ when → now + micros (how_much_time_from_now now when) ≡ when)
        × (when < now + 100 → micros (how_much_time_from_now now when) ≡ 100))
      × ((how_much_time_from_now now when).tv_nsec < 1000000000)
unfolding how_much_time_from_now
how_much_time_from_now-micros now when h k = ground arith

nothing_left :
    (when : ℕ) (ex s : List TimerEntry)
    → all_due when (ex ++ s) ≡ true
    → none_due when s ≡ true
    → s ≡ []
unfolding all_due none_due
nothing_left when [] [] h k = refl
nothing_left when [] ((t, a) ∷ s) h k = ground arith
nothing_left when (x ∷ ex) s h k = nothing_left when ex s (ground arith) k

-- `assert`, and then `begin()` of a set that is empty.
checked-empty :
    (q : TimerQueue)
    → q.timer_set ≡ []
    → (elim (check_sizes q) [ none ↦ none | some q' ↦ rearm q' ]) ≡ none
unfolding rearm
checked-empty q h = elim (Bool-cases (length q.timer_set == q.id_count)) [
  | inl e ↦ rw e (rw (rearm, h) refl)
  | inr e ↦ rw e refl
]

module _ (run : Timer → TimerQueue → Option TimerQueue) (now_at : ℕ → ℕ)
    (keeps : (t : Timer) (q : TimerQueue) → run t q ≡ some q) where
  run_all-cons :
      (ts : ℕ) {a : ℕ} {t : Timer} (ex : List TimerEntry) (q : TimerQueue)
      → q.heap a ≡ some t
      → t.is_repeat ≡ false
      → run_all run now_at ((ts, a) ∷ ex) q
        ≡ run_all run now_at ex (record q { heap = update q.heap a none })
  unfolding run_all renew
  run_all-cons ts {a} {t} ex q h k = rw (run_all, h) (rw (keeps t q) (rw (renew, h) (rw k refl)))

  run_all-deleted :
      (ts : ℕ) {a : ℕ} (ex : List TimerEntry) (q : TimerQueue)
      → q.heap a ≡ none
      → run_all run now_at ((ts, a) ∷ ex) q ≡ none
  unfolding run_all
  run_all-deleted ts ex q h = rw (run_all, h) refl

  -- A round over timers that do not repeat puts none back.
  run_all-keeps :
      (ex : List TimerEntry) (q : TimerQueue) {q' : TimerQueue}
      → ((a : ℕ) (t : Timer) → q.heap a ≡ some t → t.is_repeat ≡ false)
      → run_all run now_at ex q ≡ some q'
      → q'.timer_set ≡ q.timer_set
  unfolding run_all renew
  run_all-keeps [] q o h = ground arith
  run_all-keeps ((ts, a) ∷ ex) q o h = elim (Option-cases (q.heap a)) [
    | inl e ↦ ground (arith, run_all-deleted ts ex q e)
    | inr (t, e) ↦
        run_all-keeps ex (record q { heap = update q.heap a none }) (λ b u k. grind arith)
          (sym (run_all-cons ts ex q e (o a t e)) ∙ h)
  ]

  -- A round has no defined end when every timer of a valid queue is due, none repeats, and the
  -- callbacks do not touch the timers: `handleRead` gets to `begin()` of an empty set.
  pub handle_read_drained :
      (q : TimerQueue) (when : ℕ)
      → IsValid q
      → all_due when q.timer_set ≡ true
      → ((a : ℕ) (t : Timer) → q.heap a ≡ some t → t.is_repeat ≡ false)
      → handle_read run now_at q when ≡ none
  unfolding handle_read rearm
  handle_read_drained q when v h o =
      let f = find_expired_timer-FoundExpired q when v in
      let empty = nothing_left when f.expired f.left.timer_set (rw f.whole h) f.not_due in
      ends f empty (Option-cases (run_all run now_at f.expired f.left))
    where
      ends :
          (f : FoundExpired q when)
          → f.left.timer_set ≡ []
          → (run_all run now_at f.expired f.left ≡ none)
            ⊎ ((q' : TimerQueue) × (run_all run now_at f.expired f.left ≡ some q'))
          → handle_read run now_at q when ≡ none
      ends f e (inl x) = rw (handle_read, f.returns) (rw x refl)
      ends f e (inr (q', x)) =
          rw (handle_read, f.returns)
            (rw x (
              checked-empty q' (
                run_all-keeps f.expired f.left
                  (λ a t k. o a t (ap (λ g. g a) (sym f.same_heap) ∙ k)) x
                ∙ e)))

rearm_empty : (q : TimerQueue) → q.timer_set ≡ [] → rearm q ≡ none
unfolding rearm
rearm_empty q h = ground arith

-- A queue after `assert` and the last lines of `handleRead`.
checked-Sound :
    {ex : List TimerEntry} (q : TimerQueue)
    → Sound q ex
    → (elim (check_sizes q) [ none ↦ none | some q' ↦ rearm q' ]) ≡ rearm q
checked-Sound q v =
    let e : (length q.timer_set == q.id_count) ≡ true = ground (arith, v.same_size) in rw e refl

-- What becomes of the queue when the timers of the entries, one after the other, have their
-- callbacks run and are then renewed or deleted, at the times `now_at`.
pub data Served (run : Timer → TimerQueue → Option TimerQueue) (now_at : ℕ → ℕ)
    : List TimerEntry → TimerQueue → TimerQueue → Type 0 where
  all_served : {q : TimerQueue} → Served run now_at [] q q
  serves :
      {ts a : ℕ} {t : Timer} {ex : List TimerEntry} {q q1 q2 q' : TimerQueue}
      → q.heap a ≡ some t
      → run t q ≡ some q1
      → renew q1 a (now_at a) ≡ some q2
      → Served run now_at ex q2 q'
      → Served run now_at ((ts, a) ∷ ex) q q'

-- Callbacks that leave a valid queue valid, also in the middle of a round.
module _ (run : Timer → TimerQueue → Option TimerQueue) (now_at : ℕ → ℕ)
    (keeps : (t : Timer) (q : TimerQueue) (ex : List TimerEntry)
      → Sound q ex
      → (q' : TimerQueue) × (run t q ≡ some q') × Sound q' ex) where
  run_all-Sound :
      (ex : List TimerEntry) (q : TimerQueue)
      → Sound q ex
      → (q' : TimerQueue) × (run_all run now_at ex q ≡ some q')
        × Served run now_at ex q q'
        × IsValid q'
  unfolding run_all
  run_all-Sound [] q v = (q, refl, all_served, v)
  run_all-Sound ((ts, a) ∷ ex) q v =
      let w = Each_head v.pending in
      let (q1, ran, v1) = keeps w.timer q ((ts, a) ∷ ex) v in
      let (q2, renewed, v2) =
        renew-Sound v1 (Each_head v1.pending) (Each-rest v1.pending) (now_at a) in
      let (q3, rest, served, v3) = run_all-Sound ex q2 v2 in
      (
        q3,
        rw (run_all, w.on_heap) (rw ran (rw renewed rest)),
        serves w.on_heap ran renewed served,
        v3,
      )

  -- On a valid queue, with callbacks that leave a valid queue valid (also one with timers that
  -- wait for their turn), `handleRead` takes the timers that are due out of the set, and one
  -- after the other, in their order, their callbacks run and they are renewed or deleted, with no
  -- assertion failed, up to a valid queue: if that is empty, the round has no defined end;
  -- otherwise the round returns it, with the descriptor set for its first timer.
  pub handle_read-Ends :
      (q : TimerQueue) (when : ℕ)
      → IsValid q
      → (f : FoundExpired q when) × (q' : TimerQueue) × Served run now_at f.expired f.left q'
        × IsValid q'
        × (q'.timer_set ≡ [] → handle_read run now_at q when ≡ none)
        × ((e : TimerEntry) (s : List TimerEntry)
            → q'.timer_set ≡ e ∷ s
            → handle_read run now_at q when ≡ some (record q' { armed = some e.0 }))
  unfolding handle_read
  handle_read-Ends q when v =
      let f = find_expired_timer-FoundExpired q when v in
      let (q', ran, served, v') = run_all-Sound f.expired f.left f.sound in
      let ends : handle_read run now_at q when ≡ rearm q' =
        rw (handle_read, f.returns) (rw ran (checked-Sound q' v')) in
      (f, q', served, v', (λ e. ends ∙ rearm_empty q' e), (λ e s h. ends ∙ rearm_head q' e s h))
