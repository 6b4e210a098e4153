-- ===== src/Kernel/Threads.antt =====
-- What the program asks of pthreads: the documented behaviour of threads that are joined or detached.
use knpnl.Prelude.{ℕ, ◌≡◌, ◌≢◌, Bool, true, false}

-- Only the thread `id` changes, to `now`.
pub record Changed {S : Type 0} (joinable : S → ℕ → Bool) (s s' : S) (id : ℕ) (now : Bool)
    : Type 0 where
  pub at : joinable s' id ≡ now
  pub elsewhere : (other : ℕ) → other ≢ id → joinable s' other ≡ joinable s other

-- A thread is joinable from its creation until it is joined or detached, which gives its resources
-- back. `create` gives a return code and an id; `join` and `detach` give return codes.
pub record Pthreads : Type 1 where
  pub S : Type 0
  pub joinable : S → ℕ → Bool
  pub create : S → (ℕ × ℕ) × S
  pub join : S → ℕ → ℕ × S
  pub detach : S → ℕ → ℕ × S
  pub create_lem :
      (s : S)
      → (create s).0.0 ≡ 0
      → (joinable s (create s).0.1 ≡ false) × Changed joinable s (create s).1 (create s).0.1 true
  pub join_lem :
      (s : S) (id : ℕ)
      → joinable s id ≡ true
      → ((join s id).0 ≡ 0) × Changed joinable s (join s id).1 id false
  pub detach_lem :
      (s : S) (id : ℕ)
      → joinable s id ≡ true
      → ((detach s id).0 ≡ 0) × Changed joinable s (detach s id).1 id false
