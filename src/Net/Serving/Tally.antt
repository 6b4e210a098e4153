-- ===== src/Net/Serving/Tally.antt =====
-- Lists: what holds of each of their elements, and how many of them pass a test.
use knpnl.Prelude.{ℕ, suc, ◌+◌, ◌≡◌, Bool, false, List, [], ◌∷◌, ◌++◌, if◌then◌else◌, arith, refl}

module _ {A : Type 0} where
  unfoldable pub tally : (A → Bool) → List A → ℕ
  tally f [] = 0
  tally f (x ∷ xs) = let n = tally f xs in if f x then suc n else n

  pub tally-append : (f : A → Bool) (xs ys : List A) → tally f (xs ++ ys) ≡ tally f xs + tally f ys
  unfolding tally
  tally-append f [] ys = omega arith
  tally-append f (x ∷ xs) ys = ground (arith, tally-append f xs ys)

  -- The list grows at its end.
  pub tally-snoc :
      (f : A → Bool) (xs : List A) (x : A)
      → tally f (xs ++ (x ∷ [])) ≡ (if f x then suc (tally f xs) else tally f xs)
  unfolding tally
  tally-snoc f xs x = ground (arith, tally-append f xs (x ∷ []))

  -- An element is taken out.
  pub tally_out :
      (f : A → Bool) (xs : List A) (x : A) (ys : List A)
      → tally f (xs ++ (x ∷ ys)) ≡ (if f x then suc (tally f (xs ++ ys)) else tally f (xs ++ ys))
  unfolding tally
  tally_out f xs x ys = ground (arith, tally-append f xs (x ∷ ys), tally-append f xs ys)

  pub data Each (P : A → Type 0) : List A → Type 0 where
    all_of_none : Each P []
    also : {x : A} {xs : List A} → P x → Each P xs → Each P (x ∷ xs)

  pub Each-append : {P : A → Type 0} {xs ys : List A} → Each P xs → Each P ys → Each P (xs ++ ys)
  Each-append all_of_none b = b
  Each-append (also p a) b = also p (Each-append a b)

  pub Each-weaken : {P Q : A → Type 0} {xs : List A} → ((x : A) → P x → Q x) → Each P xs → Each Q xs
  Each-weaken f all_of_none = all_of_none
  Each-weaken f (also p a) = also (f _ p) (Each-weaken f a)

  pub Each-both :
      {P Q : A → Type 0} {xs : List A} → Each P xs → Each Q xs → Each (λ x. P x × Q x) xs
  Each-both all_of_none b = all_of_none
  Each-both (also p a) (also q b) = also (p, q) (Each-both a b)

  pub Each-front : {P : A → Type 0} (xs : List A) (ys : List A) → Each P (xs ++ ys) → Each P xs
  Each-front [] ys a = all_of_none
  Each-front (x ∷ xs) ys (also p a) = also p (Each-front xs ys a)

  pub Each-back : {P : A → Type 0} (xs : List A) {ys : List A} → Each P (xs ++ ys) → Each P ys
  Each-back [] a = a
  Each-back (x ∷ xs) (also p a) = Each-back xs a

  pub Each-head : {P : A → Type 0} {x : A} {xs : List A} → Each P (x ∷ xs) → P x
  Each-head (also p a) = p

  pub Each-tail : {P : A → Type 0} {x : A} {xs : List A} → Each P (x ∷ xs) → Each P xs
  Each-tail (also p a) = a

  -- None of them passes a test that each fails.
  pub Each-tally : (f : A → Bool) {xs : List A} → Each (λ x. f x ≡ false) xs → tally f xs ≡ 0
  unfolding tally
  Each-tally f all_of_none = refl
  Each-tally f (also p a) = ground (arith, Each-tally f a)
