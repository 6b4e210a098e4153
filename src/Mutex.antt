-- ===== src/Mutex.antt =====
-- base/Mutex.h and Mutex.cpp: what a mutex keeps beside that of pthreads. The return code of pthreads
-- is an argument, and `none` is a failed assertion.
use knpnl.Prelude.{zero, Bool, true, false, Option, none, some, ℤ, pos}

pub record Mutex : Type 0 where
  pub is_locked : Bool

-- What the assertion behind a call lets pass.
abbrev checked {ℓ} : {A : Type ℓ} → ℤ → A → Option A
checked (pos zero) a = some a
checked ret a = none

-- The constructor and the destructor.
unfoldable pub new : ℤ → Option Mutex
new ret = checked ret (record { is_locked = false })

unfoldable pub destroy : ℤ → Mutex → Option Mutex
destroy ret m = checked ret m

-- `Lock()` and `Unlock()`, and so the constructor and the destructor of a `MutexLock`.
unfoldable pub lock : ℤ → Mutex → Option Mutex
lock ret m = checked ret (record m { is_locked = true })

unfoldable pub unlock : ℤ → Mutex → Option Mutex
unlock ret m = checked ret (record m { is_locked = false })
