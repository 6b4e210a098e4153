-- ===== src/Logger/FileName.antt =====
-- base/Logger.h, `FileName::get`: the part behind the last '/'.
use knpnl.Prelude.{
  ℕ, ◌≡◌, ◌≢◌, inl, inr, refl, ap, ◌∙◌, Option, none, some, List, [], ◌∷◌, ◌++◌, if◌then◌else◌,
  ◌==◌, arith, Bool-cases,
}
use knpnl.Logger.{from_last_slash, get}

-- Without a slash.
data Plain : List ℕ → Type 0 where
  empty : Plain []
  other : {c : ℕ} {s : List ℕ} → c ≢ 47 → Plain s → Plain (c ∷ s)

-- What `strrchr` finds.
data Found (name : List ℕ) : Option (List ℕ) → Type 0 where
  not_there : Plain name → Found name none
  there :
      (dir base : List ℕ) {r : Option (List ℕ)}
      → r ≡ some (47 ∷ base)
      → name ≡ dir ++ (47 ∷ base)
      → Plain base
      → Found name r

from_last_slash-Found : (name : List ℕ) → Found name (from_last_slash name)
unfolding from_last_slash
from_last_slash-Found [] = not_there empty
from_last_slash-Found (c ∷ s) = go (from_last_slash s) (from_last_slash-Found s)
  where
    go :
        (r : Option (List ℕ))
        → Found s r
        → Found (c ∷ s) (elim r [ some t ↦ some t | none ↦ if c == 47 then some (c ∷ s) else none ])
    go none (not_there p) = elim (Bool-cases (c == 47)) [
      | inl e ↦ there [] s (ground arith) (ground arith) p
      | inr e ↦ rw e (not_there (other (ground arith) p))
    ]
    go (some t) (there dir base h e p) = there (c ∷ dir) base h (ap (◌∷◌ c) e) p
    go none (there dir base h e p) = ground arith

-- What `get` gives: the part of the name behind its last '/'; the null pointer if there is none.
data Gives (name : List ℕ) : Option (List ℕ) → Type 0 where
  null : Plain name → Gives name none
  base_name :
      (dir base : List ℕ) {r : Option (List ℕ)}
      → r ≡ some base
      → name ≡ dir ++ (47 ∷ base)
      → Plain base
      → Gives name r

-- For each name without a NUL, `get` gives the part behind the last '/', and the null pointer, where
-- the whole name is meant, if the name has no '/'.
get-Gives : (name : List ℕ) → Gives name (get name)
unfolding get
get-Gives name = go (from_last_slash name) refl (from_last_slash-Found name)
  where
    go : (r : Option (List ℕ)) → from_last_slash name ≡ r → Found name r → Gives name (get name)
    go none h (not_there p) = rw (get, h) (null p)
    go r h (there dir base k e p) = base_name dir base (rw (get, h ∙ k) refl) e p
