-- ===== src/Event/TimerQueue/Destruction.antt =====
-- event/TimerQueue.cpp: the destructor of a timer queue.
use knpnl.Prelude.{ℕ, ◌≡◌, refl, ap, ◌∙◌, true, false, Option, none, some, List, [], ◌∷◌, arith}
use knpnl.Event.TimerQueue.{Timer, TimerQueue, TimerEntry, entry_ltb, update}
use knpnl.Event.TimerQueue.Order.{sorted, above, has_entry, Each, nil, cons, Each-both}
use knpnl.Event.TimerQueue.Valid.{OfTimer, IsValid}

-- The loop of `~TimerQueue()` over the set; `none` is the `delete` of a timer that is gone.
unfoldable pub delete_all : List TimerEntry → (ℕ → Option Timer) → Option (ℕ → Option Timer)
delete_all [] heap = some heap
delete_all ((ts, a) ∷ s) heap =
    let rest = delete_all s (update heap a none) in elim (heap a) [ none ↦ none | some t ↦ rest ]

unfoldable pub destroy : TimerQueue → Option (ℕ → Option Timer)
unfolding delete_all
destroy q = delete_all q.timer_set q.heap

-- The timer at the address has the time of the entry.
record IsLive (heap : ℕ → Option Timer) (ts a : ℕ) : Type 0 where
  pub timer : Timer
  pub on_heap : heap a ≡ some timer
  pub its_time : timer.expired ≡ ts

Each-map :
    {P Q : ℕ → ℕ → Type 0} {s : List TimerEntry}
    → ((ts a : ℕ) → P ts a → Q ts a)
    → Each P s
    → Each Q s
Each-map f nil = nil
Each-map f (cons p e) = cons (f _ _ p) (Each-map f e)

above_tail :
    (e : TimerEntry) (u b : ℕ) (s : List TimerEntry)
    → entry_ltb e (u, b) ≡ true
    → above (u, b) s ≡ true
    → above e s ≡ true
unfolding above
above_tail e u b [] h k = refl
above_tail e u b ((v, c) ∷ s) h k = ground arith

-- The entries behind the first of a set are later.
sorted-later :
    (e : TimerEntry) (s : List TimerEntry)
    → above e s ≡ true
    → sorted s ≡ true
    → Each (λ u b. entry_ltb e (u, b) ≡ true) s
unfolding sorted above
sorted-later e [] h k = nil
sorted-later e ((u, b) ∷ s) h k =
    cons h (sorted-later e s (above_tail e u b s h (ground arith)) (ground arith))

still-IsLive :
    (heap : ℕ → Option Timer) (t a u b : ℕ)
    → IsLive heap t a
    → IsLive heap u b
    → entry_ltb (t, a) (u, b) ≡ true
    → IsLive (update heap a none) u b
still-IsLive heap t a u b l m h =
    let same : a ≡ b → t ≡ u = λ e. (let x = ap heap e in ground arith) in
    record { timer = m.timer; on_heap = ground (arith, same); its_time = m.its_time }

-- What the loop leaves: the timers of the set are gone, and the others are as they were.
record Freed (s : List TimerEntry) (heap heap' : ℕ → Option Timer) : Type 0 where
  pub gone : (ts a : ℕ) → has_entry (ts, a) s ≡ true → heap' a ≡ none
  pub stays_gone : (a : ℕ) → heap a ≡ none → heap' a ≡ none
  pub others : (a : ℕ) → ((ts : ℕ) → has_entry (ts, a) s ≡ false) → heap' a ≡ heap a

delete_all-next :
    (ts a : ℕ) (t : Timer) (s : List TimerEntry) (heap : ℕ → Option Timer)
    {heap' : ℕ → Option Timer}
    → heap a ≡ some t
    → delete_all s (update heap a none) ≡ some heap'
    → delete_all ((ts, a) ∷ s) heap ≡ some heap'
unfolding delete_all
delete_all-next ts a t s heap e run = rw (delete_all, e) run

delete_all-Freed :
    (s : List TimerEntry) (heap : ℕ → Option Timer)
    → sorted s ≡ true
    → Each (IsLive heap) s
    → (heap' : ℕ → Option Timer) × (delete_all s heap ≡ some heap') × Freed s heap heap'
unfolding delete_all sorted has_entry
delete_all-Freed [] heap h e = (
  heap,
  refl,
  record { gone = λ ts a f. absurd (ground arith); stays_gone = λ a f. f; others = λ a f. refl },
)
delete_all-Freed ((t, a) ∷ s) heap h (cons l e) =
    let later = sorted-later (t, a) s (ground arith) (ground arith) in
    let (heap', run, f) =
      delete_all-Freed s (update heap a none) (ground arith)
        (Each-map (λ u b (p, q). still-IsLive heap t a u b l p q) (Each-both e later)) in
    (
      heap',
      delete_all-next t a l.timer s heap l.on_heap run,
      record {
        gone = λ ts b i. ground (arith, f.gone ts b, f.stays_gone b);
        stays_gone = λ b n. ground (arith, f.stays_gone b);
        others = λ b n. f.others b (λ ts. ground (arith, n ts)) ∙ ground (arith, n t);
      },
    )

-- The destructor of a valid timer queue deletes no timer twice: it ends, each timer in the map is
-- gone, and what is at an address that no entry of the set has is left as it was.
pub destroy_deletes :
    (q : TimerQueue)
    → IsValid q
    → (heap : ℕ → Option Timer) × (destroy q ≡ some heap)
      × ((id a : ℕ) → q.id_map id ≡ some a → heap a ≡ none)
      × ((a : ℕ) → ((ts : ℕ) → has_entry (ts, a) q.timer_set ≡ false) → heap a ≡ q.heap a)
unfolding destroy
destroy_deletes q v =
    let (heap, run, f) = delete_all-Freed q.timer_set q.heap v.ordered (
      Each-map
        (λ ts a (o : OfTimer q.heap q.id_map ts a). record {
          timer = o.timer;
          on_heap = o.on_heap;
          its_time = o.its_time;
        })
        v.recorded) in
    (heap, run, λ id a e. (let n = v.entered id a e in f.gone n.timer.expired a n.in_set), f.others)
