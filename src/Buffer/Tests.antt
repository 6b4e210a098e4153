-- ===== src/Buffer/Tests.antt =====
-- Runs of the buffer, and the theorems about it at concrete inputs.
use knpnl.Prelude.{ℕ, ◌≡◌, ◌<◌, refl, List, [], ◌∷◌, write_at, arith, some, ℤ, minus_one}
use knpnl.Kernel.{Status, open_end}
use knpnl.Kernel.Sockets.{socket}
use knpnl.Buffer.{FixedBuffer, append, read_ptr_move, used, avail, compact, put, capacity}
use knpnl.Buffer.Contents.{IsValid, Took, append_refines, read_ptr_move_refines}
use knpnl.Buffer.ReadFd.{read_fd}
use knpnl.Buffer.ReadFd.Outcome.{ReadOutcome, read_fd_drains}

-- Eight bytes, of which 3, 4 and 5 are unread.
abbrev sample : FixedBuffer
sample = record { mem = 1 ∷ 2 ∷ 3 ∷ 4 ∷ 5 ∷ 0 ∷ 0 ∷ 0 ∷ []; read_ptr = 2; write_ptr = 5 }

sample-IsValid : IsValid sample
sample-IsValid = omega arith

-- The bytes are moved when they do not fit behind the others.
append_moves :
    append sample (6 ∷ 7 ∷ 8 ∷ [])
    ≡ (record { mem = 3 ∷ 4 ∷ 5 ∷ 6 ∷ 7 ∷ 8 ∷ 0 ∷ 0 ∷ []; read_ptr = 0; write_ptr = 6 }, 3)
unfolding append compact put used avail write_at
append_moves = refl

append_refines_example :
    let (b, n) = append sample (6 ∷ 7 ∷ 8 ∷ []) in (n ≡ 3) × Took sample (6 ∷ 7 ∷ 8 ∷ []) b
append_refines_example =
    (append_refines (6 ∷ 7 ∷ 8 ∷ []) sample-IsValid).0 (unfold avail used in omega arith)

read_ptr_move_refines_example :
    let (b, r) = read_ptr_move sample 4 in (r ≡ minus_one) × (¬ IsValid b) × (capacity b < used b)
read_ptr_move_refines_example =
    (read_ptr_move_refines 4 sample-IsValid (omega arith)).1 (unfold used in omega arith)

read_fd_drains_example :
    (out : ℤ × FixedBuffer × (List ℕ × Status)) × (read_fd socket sample (6 ∷ 7 ∷ 8 ∷ [], open_end)
      ≡ some out)
    × ReadOutcome socket sample (6 ∷ 7 ∷ 8 ∷ [], open_end) out
read_fd_drains_example = read_fd_drains socket sample (6 ∷ 7 ∷ 8 ∷ [], open_end) sample-IsValid
