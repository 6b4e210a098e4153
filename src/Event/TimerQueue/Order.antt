-- ===== src/Event/TimerQueue/Order.antt =====
-- `std::set` of timer entries, as the list of its elements in order: what insertion and erasure do
-- to the order, the elements and the size.
use knpnl.Prelude.{
  ℕ, ◌+◌, ◌<◌, ◌≡◌, refl, ◌⊎◌, inl, inr, Bool, true, false, ◌&&◌, ◌||◌, List, [], ◌∷◌, ◌++◌, length,
  ltb, ◌==◌, Bool-cases, arith,
}
use knpnl.Event.TimerQueue.{TimerEntry, entry_ltb, set_insert, set_erase, uintptr_max}

-- The entries are in strictly ascending order.
unfoldable pub above : TimerEntry → List TimerEntry → Bool
above e [] = true
above e (x ∷ r) = entry_ltb e x

unfoldable pub sorted : List TimerEntry → Bool
sorted [] = true
sorted (x ∷ r) = above x r && sorted r

-- The addresses are below `UINTPTR_MAX`.
unfoldable pub proper : List TimerEntry → Bool
proper [] = true
proper (e ∷ r) = ltb e.1 uintptr_max && proper r

unfoldable pub has_entry : TimerEntry → List TimerEntry → Bool
has_entry e [] = false
has_entry e (x ∷ r) = (e.0 == x.0 && e.1 == x.1) || has_entry e r

-- One stands before the other.
abbrev pub Differs : TimerEntry → TimerEntry → Type 0
Differs e x = (entry_ltb e x || entry_ltb x e) ≡ true

-- What holds of each entry.
pub data Each (P : ℕ → ℕ → Type 0) : List TimerEntry → Type 0 where
  nil : Each P []
  cons : {ts a : ℕ} {s : List TimerEntry} → P ts a → Each P s → Each P ((ts, a) ∷ s)

above-set_insert :
    (t a u b : ℕ) (s : List TimerEntry)
    → above (t, a) s ≡ true
    → entry_ltb (t, a) (u, b) ≡ true
    → above (t, a) (set_insert (u, b) s) ≡ true
unfolding above set_insert
above-set_insert t a u b [] h k = k
above-set_insert t a u b ((v, c) ∷ s) h k = ground arith

pub sorted-set_insert :
    (u b : ℕ) (s : List TimerEntry) → sorted s ≡ true → sorted (set_insert (u, b) s) ≡ true
unfolding sorted set_insert above
sorted-set_insert u b [] h = refl
sorted-set_insert u b ((t, a) ∷ s) h =
    ground (arith, sorted-set_insert u b s, above-set_insert t a u b s)

above_trans :
    (t a u b : ℕ) (s : List TimerEntry)
    → entry_ltb (t, a) (u, b) ≡ true
    → above (u, b) s ≡ true
    → above (t, a) s ≡ true
unfolding above
above_trans t a u b [] h k = refl
above_trans t a u b ((v, c) ∷ s) h k = ground arith

above-set_erase :
    (t a u b : ℕ) (s : List TimerEntry)
    → above (t, a) s ≡ true
    → sorted s ≡ true
    → above (t, a) (set_erase (u, b) s) ≡ true
unfolding set_erase sorted above
above-set_erase t a u b [] h k = refl
above-set_erase t a u b ((v, c) ∷ s) h k = ground (arith, above_trans t a v c s)

pub sorted-set_erase :
    (u b : ℕ) (s : List TimerEntry) → sorted s ≡ true → sorted (set_erase (u, b) s) ≡ true
unfolding sorted set_erase
sorted-set_erase u b [] h = refl
sorted-set_erase u b ((t, a) ∷ s) h =
    ground (arith, sorted-set_erase u b s, above-set_erase t a u b s)

pub proper-set_insert :
    (u b : ℕ) (s : List TimerEntry)
    → b < uintptr_max
    → proper s ≡ true
    → proper (set_insert (u, b) s) ≡ true
unfolding proper set_insert
proper-set_insert u b [] h k = ground arith
proper-set_insert u b ((t, a) ∷ s) h k = ground (arith, proper-set_insert u b s h)

pub proper-set_erase :
    (u b : ℕ) (s : List TimerEntry) → proper s ≡ true → proper (set_erase (u, b) s) ≡ true
unfolding proper set_erase
proper-set_erase u b [] k = refl
proper-set_erase u b ((t, a) ∷ s) k = ground (arith, proper-set_erase u b s)

-- What an insertion leaves in the set: the entry, and all that was there.
pub has_entry-set_insert_self :
    (u b : ℕ) (s : List TimerEntry) → has_entry (u, b) (set_insert (u, b) s) ≡ true
unfolding has_entry set_insert
has_entry-set_insert_self u b [] = ground arith
has_entry-set_insert_self u b ((t, a) ∷ s) = ground (arith, has_entry-set_insert_self u b s)

pub has_entry-set_insert :
    (u b v c : ℕ) (s : List TimerEntry)
    → has_entry (v, c) s ≡ true
    → has_entry (v, c) (set_insert (u, b) s) ≡ true
unfolding has_entry set_insert
has_entry-set_insert u b v c [] h = ground arith
has_entry-set_insert u b v c ((t, a) ∷ s) h = ground (arith, has_entry-set_insert u b v c s)

pub has_entry-set_erase :
    (u b v c : ℕ) (s : List TimerEntry)
    → Differs (u, b) (v, c)
    → has_entry (v, c) s ≡ true
    → has_entry (v, c) (set_erase (u, b) s) ≡ true
unfolding has_entry set_erase
has_entry-set_erase u b v c [] d h = h
has_entry-set_erase u b v c ((t, a) ∷ s) d h = ground (arith, has_entry-set_erase u b v c s d)

pub length-set_insert :
    (u b : ℕ) (s : List TimerEntry)
    → has_entry (u, b) s ≡ false
    → length (set_insert (u, b) s) ≡ length s + 1
unfolding has_entry set_insert
length-set_insert u b [] h = omega arith
length-set_insert u b ((t, a) ∷ s) h = ground (arith, length-set_insert u b s)

pub length-set_erase :
    (u b : ℕ) (s : List TimerEntry)
    → has_entry (u, b) s ≡ true
    → length (set_erase (u, b) s) + 1 ≡ length s
unfolding has_entry set_erase
length-set_erase u b [] h = ground arith
length-set_erase u b ((t, a) ∷ s) h = ground (arith, length-set_erase u b s)

pub has_entry-append :
    (u b : ℕ) (r s : List TimerEntry)
    → has_entry (u, b) (r ++ s) ≡ true
    → (has_entry (u, b) r ≡ true) ⊎ (has_entry (u, b) s ≡ true)
unfolding has_entry
has_entry-append u b [] s h = inr h
has_entry-append u b ((t, a) ∷ r) s h = ground (arith, has_entry-append u b r s)

pub Each-both :
    {P Q : ℕ → ℕ → Type 0} {s : List TimerEntry}
    → Each P s
    → Each Q s
    → Each (λ t a. P t a × Q t a) s
Each-both nil nil = nil
Each-both (cons p e) (cons q f) = cons (p, q) (Each-both e f)

module _ {P : ℕ → ℕ → Type 0} where
  pub Each_head : {t a : ℕ} {s : List TimerEntry} → Each P ((t, a) ∷ s) → P t a
  Each_head (cons p e) = p

  pub Each-rest : {t a : ℕ} {s : List TimerEntry} → Each P ((t, a) ∷ s) → Each P s
  Each-rest (cons p e) = e

  pub has_entry-Each :
      {s : List TimerEntry} (u b : ℕ) → Each P s → has_entry (u, b) s ≡ true → P u b
  unfolding has_entry
  has_entry-Each u b nil h = ground arith
  has_entry-Each u b (cons {ts} {a} {s} p e) h = elim (Bool-cases (u == ts && b == a)) [
    | inl k ↦ (let x : u ≡ ts = ground arith in let y : b ≡ a = ground arith in rw (x, y) p)
    | inr k ↦ has_entry-Each u b e (ground arith)
  ]

  pub Each-weaken :
      {Q : ℕ → ℕ → Type 0} {s : List TimerEntry} → ((t a : ℕ) → P t a → Q t a) → Each P s → Each Q s
  Each-weaken f nil = nil
  Each-weaken f (cons p e) = cons (f _ _ p) (Each-weaken f e)

  pub set_insert-Each :
      {Q : ℕ → ℕ → Type 0} {s : List TimerEntry} (u b : ℕ)
      → ((t a : ℕ) → P t a → Q t a)
      → Q u b
      → Each P s
      → Each Q (set_insert (u, b) s)
  unfolding set_insert
  set_insert-Each u b f q nil = cons q nil
  set_insert-Each u b f q (cons {ts} {a} p e) = elim (Bool-cases (entry_ltb (u, b) (ts, a))) [
    | inl k ↦ rw k (cons q (cons (f ts a p) (Each-weaken f e)))
    | inr k ↦ rw k (elim (Bool-cases (entry_ltb (ts, a) (u, b))) [
      | inl l ↦ rw l (cons (f ts a p) (set_insert-Each u b f q e))
      | inr l ↦ rw l (cons (f ts a p) (Each-weaken f e))
    ])
  ]

  -- The entries behind one differ from it.
  pub tail-Each :
      {Q : ℕ → ℕ → Type 0} {s : List TimerEntry} (u b : ℕ)
      → ((t a : ℕ) → P t a → Differs (u, b) (t, a) → Q t a)
      → sorted ((u, b) ∷ s) ≡ true
      → Each P s
      → Each Q s
  unfolding sorted above
  tail-Each u b f h nil = nil
  tail-Each u b f h (cons {ts} {a} {s} p e) =
      cons (f ts a p (ground arith)) (tail-Each u b f (ground (arith, above_trans u b ts a s)) e)

  -- The entries that an erasure leaves differ from the one that was erased.
  pub set_erase-Each :
      {Q : ℕ → ℕ → Type 0} {s : List TimerEntry} (u b : ℕ)
      → ((t a : ℕ) → P t a → Differs (u, b) (t, a) → Q t a)
      → sorted s ≡ true
      → Each P s
      → Each Q (set_erase (u, b) s)
  unfolding set_erase sorted
  set_erase-Each u b f h nil = nil
  set_erase-Each u b f h (cons {ts} {a} {s} p e) =
      elim (Bool-cases (entry_ltb (u, b) (ts, a) || entry_ltb (ts, a) (u, b))) [
        | inl k ↦ rw k (cons (f ts a p k) (set_erase-Each u b f (ground arith) e))
        | inr k ↦ rw k (
            let x : u ≡ ts = ground arith in
            let y : b ≡ a = ground arith in tail-Each u b f (rw (x, y) h) e)
      ]
