-- ===== src/Event/TimerQueue/Due.antt =====
-- The set of timers at a time: the entries that are due come before those that are not.
use knpnl.Prelude.{
  ℕ, ◌+◌, ◌≤◌, ◌≡◌, refl, ap, inl, inr, length, Bool, true, false, ◌&&◌, List, [], ◌∷◌, ◌++◌, ltb,
  leb, Bool-cases, ◌<◌, arith,
}
use knpnl.Event.TimerQueue.Order.{sorted, above, proper, Each, nil, cons}
use knpnl.Event.TimerQueue.{starts_after, TimerEntry, entry_ltb, before, from, uintptr_max}

-- Each entry is due at that time, or none is.
unfoldable pub all_due : ℕ → List TimerEntry → Bool
all_due when [] = true
all_due when (e ∷ r) = leb e.0 when && all_due when r

unfoldable pub none_due : ℕ → List TimerEntry → Bool
none_due when [] = true
none_due when (e ∷ r) = ltb when e.0 && none_due when r

pub before-from : (p : TimerEntry) (s : List TimerEntry) → before p s ++ from p s ≡ s
unfolding before from
before-from p [] = refl
before-from p (x ∷ r) = elim (Bool-cases (entry_ltb x p)) [
  | inl e ↦ rw e (ap (λ l. x ∷ l) (before-from p r))
  | inr e ↦ rw e refl
]

due_of : (when t a : ℕ) → entry_ltb (t, a) (when, uintptr_max) ≡ true → leb t when ≡ true
due_of when t a h = ground arith

pub all_due-before :
    (when : ℕ) (s : List TimerEntry) → all_due when (before (when, uintptr_max) s) ≡ true
unfolding before all_due
all_due-before when [] = refl
all_due-before when ((t, a) ∷ r) =
    let ih = all_due-before when r in
    let due = due_of when t a in
    elim (Bool-cases (entry_ltb (t, a) (when, uintptr_max))) [
      | inl e ↦ rw e (rw (due e) ih)
      | inr e ↦ rw e refl
    ]

not_due_of :
    (when t a : ℕ)
    → ltb a uintptr_max ≡ true
    → entry_ltb (t, a) (when, uintptr_max) ≡ false
    → ltb when t ≡ true
not_due_of when t a h k = ground arith

later : (when t a u b : ℕ) → ltb when t ≡ true → entry_ltb (t, a) (u, b) ≡ true → ltb when u ≡ true
later when t a u b h k = ground arith

-- What follows an entry that is not due is not due.
none_due-tail :
    (when t a : ℕ) (r : List TimerEntry)
    → sorted ((t, a) ∷ r) ≡ true
    → ltb when t ≡ true
    → none_due when r ≡ true
unfolding sorted above none_due
none_due-tail when t a [] h k = refl
none_due-tail when t a ((u, b) ∷ r) h k = ground (arith, none_due-tail when u b r)

pub none_due-from :
    (when : ℕ) (s : List TimerEntry)
    → sorted s ≡ true
    → proper s ≡ true
    → none_due when (from (when, uintptr_max) s) ≡ true
unfolding from none_due sorted proper
none_due-from when [] h k = refl
none_due-from when ((t, a) ∷ r) h k =
    ground (arith, none_due-from when r, none_due-tail when t a r, not_due_of when t a)

pub due_Each : (when : ℕ) (s : List TimerEntry) → all_due when s ≡ true → Each (λ t a. t ≤ when) s
unfolding all_due
due_Each when [] h = nil
due_Each when ((t, a) ∷ s) h = cons (ground arith) (due_Each when s (ground arith))

pub not_due_Each :
    (when : ℕ) (s : List TimerEntry) → none_due when s ≡ true → Each (λ t a. when < t) s
unfolding none_due
not_due_Each when [] h = nil
not_due_Each when ((t, a) ∷ s) h = cons (ground arith) (not_due_Each when s (ground arith))

pub sorted-before :
    (p : TimerEntry) (s : List TimerEntry) → sorted s ≡ true → sorted (before p s) ≡ true
unfolding before sorted above
sorted-before p [] h = refl
sorted-before p (x ∷ []) h = ground arith
sorted-before p (x ∷ y ∷ r) h = ground (arith, sorted-before p (y ∷ r))

pub sorted-from :
    (p : TimerEntry) (s : List TimerEntry) → sorted s ≡ true → sorted (from p s) ≡ true
unfolding from sorted
sorted-from p [] h = refl
sorted-from p (x ∷ r) h = ground (arith, sorted-from p r)

pub proper-before :
    (p : TimerEntry) (s : List TimerEntry) → proper s ≡ true → proper (before p s) ≡ true
unfolding before proper
proper-before p [] h = refl
proper-before p (x ∷ r) h = ground (arith, proper-before p r)

pub proper-from :
    (p : TimerEntry) (s : List TimerEntry) → proper s ≡ true → proper (from p s) ≡ true
unfolding from proper
proper-from p [] h = refl
proper-from p (x ∷ r) h = ground (arith, proper-from p r)

pub before-Each :
    {P : ℕ → ℕ → Type 0} (p : TimerEntry) {s : List TimerEntry} → Each P s → Each P (before p s)
unfolding before
before-Each p nil = nil
before-Each p (cons {ts} {a} o r) = elim (Bool-cases (entry_ltb (ts, a) p)) [
  | inl e ↦ rw e (cons o (before-Each p r))
  | inr e ↦ rw e nil
]

pub from-Each :
    {P : ℕ → ℕ → Type 0} (p : TimerEntry) {s : List TimerEntry} → Each P s → Each P (from p s)
unfolding from
from-Each p nil = nil
from-Each p (cons {ts} {a} o r) = elim (Bool-cases (entry_ltb (ts, a) p)) [
  | inl e ↦ rw e (from-Each p r)
  | inr e ↦ rw e (cons o r)
]

pub length-before-from :
    (p : TimerEntry) (s : List TimerEntry) → length (before p s) + length (from p s) ≡ length s
unfolding before from
length-before-from p [] = refl
length-before-from p (x ∷ r) = elim (Bool-cases (entry_ltb x p)) [
  | inl e ↦ rw e (ground (arith, length-before-from p r))
  | inr e ↦ rw e (omega arith)
]

pub starts_after-none_due :
    (when : ℕ) (s : List TimerEntry) → none_due when s ≡ true → starts_after when s ≡ true
unfolding none_due
starts_after-none_due when [] h = refl
starts_after-none_due when (e ∷ r) h = ground arith
