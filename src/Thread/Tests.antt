-- ===== src/Thread/Tests.antt =====
-- The theorem about threads at a concrete input.
use knpnl.Prelude.{ℕ, suc, ◌≡◌, refl, Bool, true, false, some, if◌then◌else◌, ◌==◌, arith}
use knpnl.Kernel.Threads.{Pthreads, Changed}
use knpnl.Thread.{Thread, new_unnamed, start}
use knpnl.Thread.Life.{Ends, start-Ends}

abbrev Table : Type 0
Table = ℕ × (ℕ → Bool)

abbrev marked : (ℕ → Bool) → ℕ → Bool → ℕ → Bool
marked f id now j = if j == id then now else f j

abbrev joinable_in : Table → ℕ → Bool
joinable_in s id = s.1 id

marked-Changed :
    (n m : ℕ) (f : ℕ → Bool) (id : ℕ) (now : Bool)
    → Changed joinable_in (n, f) (m, marked f id now) id now
marked-Changed n m f id now = record { at = ground arith; elsewhere = λ other ne. ground arith }

-- Threads are numbered one after the other.
abbrev table_create : Table → (ℕ × ℕ) × Table
table_create (n, f) = ((if f n then 11 else 0, n), (suc n, marked f n true))

table_create_lem :
    (s : Table)
    → (table_create s).0.0 ≡ 0
    → (joinable_in s (table_create s).0.1 ≡ false)
      × Changed joinable_in s (table_create s).1 (table_create s).0.1 true
table_create_lem (n, f) h = (ground arith, marked-Changed n (suc n) f n true)

abbrev table_release : Table → ℕ → ℕ × Table
table_release (n, f) id = (if f id then 0 else 3, (n, marked f id false))

table_release_lem :
    (s : Table) (id : ℕ)
    → joinable_in s id ≡ true
    → ((table_release s id).0 ≡ 0) × Changed joinable_in s (table_release s id).1 id false
table_release_lem (n, f) id h = (ground arith, marked-Changed n n f id false)

abbrev table : Pthreads
table = record {
  S = Table;
  joinable = joinable_in;
  create = table_create;
  join = table_release;
  detach = table_release;
  create_lem = table_create_lem;
  join_lem = table_release_lem;
  detach_lem = table_release_lem;
}

abbrev no_threads : Table
no_threads = (1, λ id. false)

start-Ends_example :
    (t : Thread ℕ) × (s : Table) × (start table (new_unnamed 5) no_threads ≡ some (t, s))
    × Ends table no_threads t s
unfolding new_unnamed
start-Ends_example = (start-Ends table (new_unnamed 5) no_threads refl).1 refl
