-- ===== src/Kernel.antt =====
-- What the program asks of the kernel: the documented behaviour of a non-blocking stream socket.
-- The code only calls these functions, so they are parameters of the model. The state of the
-- socket stands for what reaches it until the end of the call that is modelled.
pub mod Sockets
pub mod Threads
use knpnl.Prelude.{ℕ, ◌≤◌, ◌<◌, ◌≡◌, List, [], ◌∷◌, ◌++◌, length, take}

-- `recv`: bytes ([] for the return value 0), EAGAIN, or another error.
pub data RecvResult : Type 0 where
  bytes : List ℕ → RecvResult
  again : RecvResult
  error : RecvResult

-- The peer may send more, has closed its side, or the connection is broken.
pub data Status : Type 0 where
  open_end closed_end broken : Status

-- What one call of `recv` with room for `len` bytes may do to a socket.
pub data Received {S : Type 0} (pending : S → List ℕ) (status : S → Status) (len : ℕ) (s : S)
    (r : RecvResult) (s' : S) : Type 0 where
  got :
      (x : ℕ) (xs : List ℕ)
      → r ≡ bytes (x ∷ xs)
      → length (x ∷ xs) ≤ len
      → pending s ≡ (x ∷ xs) ++ pending s'
      → status s' ≡ status s
      → Received pending status len s r s'
  ended :
      r ≡ bytes []
      → pending s ≡ []
      → pending s' ≡ []
      → status s ≡ closed_end
      → Received pending status len s r s'
  blocked :
      r ≡ again
      → pending s ≡ []
      → pending s' ≡ []
      → status s ≡ open_end
      → Received pending status len s r s'
  failed :
      r ≡ error → pending s' ≡ pending s → status s ≡ broken → Received pending status len s r s'

pub record Receiver : Type 1 where
  pub S : Type 0
  pub recv : S → ℕ → RecvResult × S
  -- The bytes that wait to be read, oldest first.
  pub pending : S → List ℕ
  pub status : S → Status
  pub recv_lem :
      (s : S) (len : ℕ) → 0 < len → Received pending status len s (recv s len).0 (recv s len).1

-- `writev`: the number of bytes taken, EAGAIN, or another error.
pub data WriteResult : Type 0 where
  wrote : ℕ → WriteResult
  would_block : WriteResult
  write_error : WriteResult

-- What one call may do: it takes some of the bytes, and none only if there are none.
pub data Written {S : Type 0} (sent : S → List ℕ) (s : S) (out : List ℕ) (r : WriteResult) (s' : S)
    : Type 0 where
  took :
      (n : ℕ)
      → r ≡ wrote n
      → n ≤ length out
      → (n ≡ 0 → out ≡ [])
      → sent s' ≡ sent s ++ take n out
      → Written sent s out r s'
  refused : r ≡ would_block → sent s' ≡ sent s → Written sent s out r s'
  broke : r ≡ write_error → sent s' ≡ sent s → Written sent s out r s'

pub record Sender : Type 1 where
  pub S : Type 0
  pub writev : S → List ℕ → WriteResult × S
  -- The bytes that the socket has taken, oldest first.
  pub sent : S → List ℕ
  pub writev_lem : (s : S) (out : List ℕ) → Written sent s out (writev s out).0 (writev s out).1

-- `accept4` of a non-blocking listening socket: the new descriptor, EAGAIN, or another error.
pub data AcceptResult : Type 0 where
  connection : ℕ → AcceptResult
  no_more : AcceptResult
  accept_error : AcceptResult

-- What one call may do; an error may have cost some of the waiting connections.
pub data Accepted {S : Type 0} (pending : S → List ℕ) (s : S) (r : AcceptResult) (s' : S)
    : Type 0 where
  taken : (fd : ℕ) → r ≡ connection fd → pending s ≡ fd ∷ pending s' → Accepted pending s r s'
  drained : r ≡ no_more → pending s ≡ [] → pending s' ≡ [] → Accepted pending s r s'
  lost :
      (dropped : List ℕ)
      → r ≡ accept_error
      → pending s ≡ dropped ++ pending s'
      → Accepted pending s r s'

pub record Listener : Type 1 where
  pub S : Type 0
  pub accept4 : S → AcceptResult × S
  -- The descriptors that the waiting connections get, oldest first.
  pub pending : S → List ℕ
  pub accept4_lem : (s : S) → Accepted pending s (accept4 s).0 (accept4 s).1
