-- ===== src/Net/Socket.antt =====
-- net/Socket.h and Socket.cpp: the calls of the kernel that a socket makes, and what is kept of them.
-- `none` is a failed assertion.
pub mod Reuse
use knpnl.Prelude.{
  ℕ, zero, Bool, true, false, Option, none, some, List, [], ◌∷◌, if◌then◌else◌, ℤ, pos, ◌==◌,
}

-- The second argument of `shutdown`.
pub data How : Type 0 where
  shut_rd shut_wr shut_rdwr : How

-- The option of `setsockopt` at SOL_SOCKET.
pub data SocketOption : Type 0 where
  so_reuseaddr so_reuseport : SocketOption

-- The flags of `fcntl` that matter here.
pub record Flags : Type 0 where
  pub nonblock : Bool
  pub others : ℕ

-- A call of the kernel for a descriptor.
pub data SystemCall : Type 0 where
  binds : (fd : ℕ) (ip : List ℕ) (port : ℕ) → SystemCall
  listens : (fd : ℕ) → SystemCall
  accepts4 : (fd : ℕ) (nonblock cloexec : Bool) → SystemCall
  shuts_down : (fd : ℕ) → How → SystemCall
  sets_option : (fd : ℕ) → SocketOption → (value : ℕ) → SystemCall
  sets_flags : (fd : ℕ) → Flags → SystemCall

pub record Socket : Type 0 where
  pub fd : ℕ
  pub is_binded : Bool

unfoldable pub new : ℕ → Socket
new fd = record { fd = fd; is_binded = false }

-- `Bind(ip, port)`; `ret` is what `bind` gives.
unfoldable pub bind : Socket → List ℕ → ℕ → ℤ → Option (Socket × List SystemCall)
bind s ip port (pos zero) = some (record s { is_binded = true }, binds s.fd ip port ∷ [])
bind s ip port ret = none

-- `Listen()`; `ret` is what `listen` gives.
unfoldable pub listen : Socket → ℤ → Option (List SystemCall)
listen s (pos zero) = some (listens s.fd ∷ [])
listen s ret = none

-- `Accept(client_addr)` gives what `accept4` gives.
unfoldable pub accept : Socket → ℤ → ℤ × List SystemCall
accept s ret = (ret, accepts4 s.fd true true ∷ [])

unfoldable pub shutdown_write : Socket → List SystemCall
shutdown_write s = shuts_down s.fd shut_rd ∷ []

unfoldable pub set_reuse_port : Socket → Bool → List SystemCall
set_reuse_port s on = sets_option s.fd so_reuseaddr 1 ∷ []

unfoldable pub set_reuse_addr : Socket → Bool → List SystemCall
set_reuse_addr s on = sets_option s.fd so_reuseaddr 1 ∷ []

-- `setNonblock()`, from the flags that `fcntl(F_GETFL)` gives.
unfoldable pub set_nonblock : Socket → Flags → Flags × List SystemCall
set_nonblock s old = (old, sets_flags s.fd (record old { nonblock = true }) ∷ [])
