-- ===== src/Event/TimerQueue/Expiry.antt =====
-- The timers that are due: `findExpiredTimer` on a valid queue.
use knpnl.Prelude.{
  ℕ, ◌≤◌, ◌≡◌, refl, subst, sym, ap, ◌∙◌, inl, inr, none, some, length, ◌==◌, true, List, ◌++◌, ◌<◌,
  arith,
}
use knpnl.Event.TimerQueue.Order.{
  has_entry, Each-weaken, Each-both, has_entry-append, has_entry-Each,
}
use knpnl.Event.TimerQueue.Erasure.{Erased, NotOf, erase_ids-Erased}
use knpnl.Event.TimerQueue.Valid.{OfTimer, Waiting, Entered, Sound, IsValid}
use knpnl.Event.TimerQueue.{
  Timer, TimerQueue, erase_ids, find_expired_timer, starts_after, TimerEntry, before, from,
  uintptr_max,
}
use knpnl.Event.TimerQueue.Due.{
  all_due, none_due, before-from, all_due-before, none_due-from, due_Each, not_due_Each,
  sorted-before, sorted-from, proper-before, proper-from, before-Each, from-Each,
  length-before-from, starts_after-none_due,
}

-- The expired timers, and the queue without them.
pub record FoundExpired (q : TimerQueue) (when : ℕ) : Type 0 where
  pub left : TimerQueue
  pub expired : List TimerEntry
  pub returns : find_expired_timer q when ≡ some (left, expired)
  pub whole : expired ++ left.timer_set ≡ q.timer_set
  pub due : all_due when expired ≡ true
  pub not_due : none_due when left.timer_set ≡ true
  pub same_heap : left.heap ≡ q.heap
  pub sound : Sound left expired

found_by :
    (q : TimerQueue) (when : ℕ) {q' : TimerQueue}
    → starts_after when (from (when, uintptr_max) q.timer_set) ≡ true
    → erase_ids
        (before (when, uintptr_max) q.timer_set)
        (record q { timer_set = from (when, uintptr_max) q.timer_set })
      ≡ some q'
    → (length q'.timer_set == q'.id_count) ≡ true
    → find_expired_timer q when ≡ some (q', before (when, uintptr_max) q.timer_set)
unfolding find_expired_timer
found_by q when h k l = rw h (rw k (rw l refl))

-- What is left is valid, and the expired timers wait for their turn.
module _ {q : TimerQueue} (when : ℕ) (v : IsValid q)
    (e : Erased
      (record q { timer_set = from (when, uintptr_max) q.timer_set })
      (before (when, uintptr_max) q.timer_set)) where
  abbrev pivot : TimerEntry
  pivot = (when, uintptr_max)

  not_of :
      (u b : ℕ) (o : OfTimer q.heap q.id_map u b)
      → when < u
      → (t c : ℕ) → OfTimer q.heap q.id_map t c × (t ≤ when)
      → NotOf q.heap o.timer.timer_id t c
  not_of u b o l t c (p, k) x i s = ground (arith, v.own_ids c b x o.timer i o.on_heap s)

  left-OfTimer :
      (u b : ℕ) → OfTimer q.heap q.id_map u b × (when < u) → OfTimer q.heap e.left.id_map u b
  left-OfTimer u b (o, l) = record {
    timer = o.timer;
    on_heap = o.on_heap;
    its_time = o.its_time;
    mapped =
        e.kept o.timer.timer_id (
          Each-weaken (not_of u b o l) (
            Each-both (before-Each pivot v.recorded)
              (due_Each when _ (all_due-before when q.timer_set))))
        ∙ o.mapped;
  }

  left-Waiting :
      (u b : ℕ)
      → OfTimer q.heap q.id_map u b
        × ((t : Timer) → q.heap b ≡ some t → e.left.id_map t.timer_id ≡ none)
      → Waiting q.heap e.left.id_map u b
  left-Waiting u b (o, g) = record {
    timer = o.timer;
    on_heap = o.on_heap;
    its_time = o.its_time;
    unmapped = g o.timer o.on_heap;
  }

  -- The queue that is left.
  abbrev rest : TimerQueue
  rest = record e.left { timer_set = from pivot q.timer_set; heap = q.heap }

  left-Entered : (k b : ℕ) → e.left.id_map k ≡ some b → Entered rest k b
  left-Entered k b i =
      let o = v.entered k b (e.less k b i) in
      let split : has_entry (o.timer.expired, b)
            (before pivot q.timer_set ++ from pivot q.timer_set)
          ≡ true =
        rw (before-from pivot q.timer_set) o.in_set in
      record {
        timer = o.timer;
        on_heap = o.on_heap;
        its_id = o.its_id;
        in_set =
            elim (has_entry-append o.timer.expired b (before pivot q.timer_set)
              (from pivot q.timer_set) split) [
                | inl m ↦
                    (let g = has_entry-Each o.timer.expired b e.gone m o.timer o.on_heap in
                      ground (arith, o.its_id))
                | inr m ↦ m
              ];
      }

  rest-Sound : Sound rest (before pivot q.timer_set)
  rest-Sound = record {
    ordered = sorted-from pivot q.timer_set v.ordered;
    addresses = proper-from pivot q.timer_set v.addresses;
    recorded = Each-weaken left-OfTimer (
        Each-both (from-Each pivot v.recorded)
          (not_due_Each when _ (none_due-from when q.timer_set v.ordered v.addresses)));
    same_size = omega (arith, e.fewer, v.same_size, length-before-from pivot q.timer_set);
    entered = left-Entered;
    own_ids = v.own_ids;
    pending = Each-weaken left-Waiting (Each-both (before-Each pivot v.recorded) e.gone);
    pending_ordered = sorted-before pivot q.timer_set v.ordered;
    pending_addresses = proper-before pivot q.timer_set v.addresses;
  }

  rest-eq : rest ≡ e.left
  rest-eq = λ i. record e.left { timer_set = sym e.same_set i; heap = sym e.same_heap i }

-- On a valid queue, whose addresses are below `UINTPTR_MAX`, `findExpiredTimer` returns and none
-- of its assertions fails: the timers that are due come back in their order and leave the set,
-- those that stay are not due, and what is left is a valid queue, in which the expired timers
-- wait for their turn.
pub find_expired_timer-FoundExpired : (q : TimerQueue) (when : ℕ) → IsValid q → FoundExpired q when
find_expired_timer-FoundExpired q when v =
    let p : TimerEntry = (when, uintptr_max) in
    let later = none_due-from when q.timer_set v.ordered v.addresses in
    let sizes = length-before-from p q.timer_set in
    let erased =
      erase_ids-Erased (before p q.timer_set) (record q { timer_set = from p q.timer_set })
        (sorted-before p q.timer_set v.ordered) (omega arith) (before-Each p v.recorded) in
    let same = ap length erased.same_set in
    let same_size : length erased.left.timer_set ≡ erased.left.id_count = omega arith in
    record {
      left = erased.left;
      expired = before p q.timer_set;
      returns = found_by q when (starts_after-none_due when _ later) erased.returns (ground arith);
      whole = rw erased.same_set (before-from p q.timer_set);
      due = all_due-before when q.timer_set;
      not_due = rw erased.same_set later;
      same_heap = erased.same_heap;
      sound =
          subst (λ l. Sound l (before p q.timer_set)) (rest-eq when v erased)
            (rest-Sound when v erased);
    }
