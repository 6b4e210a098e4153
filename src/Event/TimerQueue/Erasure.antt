-- ===== src/Event/TimerQueue/Erasure.antt =====
-- The ids of a list of timers leave the map.
use knpnl.Prelude.{
  ℕ, ◌+◌, ◌-◌, ◌≤◌, ◌≡◌, refl, ◌∙◌, inl, inr, Option, none, some, length, true, List, [], ◌∷◌,
  Option-cases, ◌≢◌, arith,
}
use knpnl.Event.TimerQueue.Order.{sorted, Differs, Each, nil, cons, tail-Each}
use knpnl.Event.TimerQueue.Valid.{OfTimer, Recorded}
use knpnl.Event.TimerQueue.{Timer, TimerQueue, id_erase, erase_ids, update, TimerEntry}

still_mapped :
    (q : TimerQueue) {ts a : ℕ} (o : OfTimer q.heap q.id_map ts a) (u b : ℕ)
    → OfTimer q.heap q.id_map u b
    → Differs (ts, a) (u, b)
    → OfTimer q.heap (update q.id_map o.timer.timer_id none) u b
still_mapped q o u b p d = record {
  timer = p.timer;
  on_heap = p.on_heap;
  its_time = p.its_time;
  mapped = ground (arith, p.mapped, p.on_heap, p.its_time, o.mapped, o.on_heap, o.its_time);
}

-- The ids that none of the entries has.
abbrev pub NotOf : (ℕ → Option Timer) → ℕ → ℕ → ℕ → Type 0
NotOf heap k u b = (t : Timer) → heap b ≡ some t → t.timer_id ≢ k

kept_id :
    (heap : ℕ → Option Timer) (ids ids' : ℕ → Option ℕ) {ts a : ℕ} {ex : List TimerEntry}
    (o : OfTimer heap ids ts a) (k : ℕ)
    → (Each (NotOf heap k) ex → ids' k ≡ update ids o.timer.timer_id none k)
    → Each (NotOf heap k) ((ts, a) ∷ ex)
    → ids' k ≡ ids k
kept_id heap ids ids' o k rest (cons n e) =
    let r = rest e in let x = n o.timer o.on_heap in ground arith

id_erase-count :
    (q : TimerQueue) {k a : ℕ} → q.id_map k ≡ some a → (id_erase q k).id_count ≡ q.id_count - 1
unfolding id_erase
id_erase-count q h = rw h refl

erase_ids-cons :
    (ts : ℕ) {a : ℕ} {t : Timer} (ex : List TimerEntry) (q : TimerQueue)
    → q.heap a ≡ some t
    → erase_ids ((ts, a) ∷ ex) q ≡ erase_ids ex (id_erase q t.timer_id)
unfolding erase_ids
erase_ids-cons ts ex q h = rw (erase_ids, h) refl

-- The queue without the ids of these entries; the other ids are as they were.
pub record Erased (q : TimerQueue) (ex : List TimerEntry) : Type 0 where
  pub left : TimerQueue
  pub returns : erase_ids ex q ≡ some left
  pub same_set : left.timer_set ≡ q.timer_set
  pub same_heap : left.heap ≡ q.heap
  pub fewer : left.id_count + length ex ≡ q.id_count
  pub gone : Each (λ u b. (t : Timer) → q.heap b ≡ some t → left.id_map t.timer_id ≡ none) ex
  pub less : (k b : ℕ) → left.id_map k ≡ some b → q.id_map k ≡ some b
  pub kept : (k : ℕ) → Each (NotOf q.heap k) ex → left.id_map k ≡ q.id_map k

erased_id :
    (q q' : TimerQueue) (k : ℕ)
    → ((j b : ℕ) → q'.id_map j ≡ some b → (id_erase q k).id_map j ≡ some b)
    → q'.id_map k ≡ none
unfolding id_erase
erased_id q q' k less = elim (Option-cases (q'.id_map k)) [
  | inl e ↦ e
  | inr (b, e) ↦ (let l = less k b e in ground arith)
]

pub erase_ids-Erased :
    (ex : List TimerEntry) (q : TimerQueue)
    → sorted ex ≡ true
    → length ex ≤ q.id_count
    → Recorded q.heap q.id_map ex
    → Erased q ex
unfolding erase_ids id_erase sorted
erase_ids-Erased [] q h k r = record {
  left = q;
  returns = refl;
  same_set = refl;
  same_heap = refl;
  fewer = omega arith;
  gone = nil;
  less = λ k b e. e;
  kept = λ k n. refl;
}
erase_ids-Erased ((ts, a) ∷ ex) q h k (cons o r) =
    let rest =
      erase_ids-Erased ex (id_erase q o.timer.timer_id) (ground arith)
        (ground (arith, id_erase-count q o.mapped)) (tail-Each ts a (still_mapped q o) h r) in
    record {
      left = rest.left;
      returns = erase_ids-cons ts ex q o.on_heap ∙ rest.returns;
      same_set = rest.same_set;
      same_heap = rest.same_heap;
      fewer = ground (arith, id_erase-count q o.mapped, rest.fewer);
      gone =
          cons
            (λ t e.
              let g = erased_id q rest.left o.timer.timer_id rest.less in ground (arith, o.on_heap))
            rest.gone;
      less = λ j b e. ground (arith, rest.less j b e);
      kept = λ j n. kept_id q.heap q.id_map rest.left.id_map o j (rest.kept j) n;
    }
