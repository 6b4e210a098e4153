-- ===== src/Net/TcpConnection.antt =====
-- net/TcpConnection.cpp, `sendMessage`: the write buffer and the file behind it go to the socket.
-- The second `iovec` is the list of the bytes of the file that are left; it is empty where
-- `iov_base` is null.
pub mod Send
use knpnl.Prelude.{
  ℕ, zero, suc, ◌+◌, ◌-◌, Bool, true, false, List, [], ◌∷◌, ◌++◌, length, drop, slice, ltb, ◌==◌,
  if◌then◌else◌, ℤ, pos, minus_one, Option, none, some,
}
use knpnl.Kernel.{WriteResult, wrote, would_block, write_error, Sender}
use knpnl.Buffer.{FixedBuffer, used, read_ptr_move, reset}

-- `mWriteBuffer` and `m_iv[1]`.
pub record Outgoing : Type 0 where
  pub buffer : FixedBuffer
  pub file : List ℕ

-- The bytes of the two `iovec`s: `used()` bytes from the read pointer on, and the file.
abbrev pub vector : Outgoing → List ℕ
vector o = slice o.buffer.mem o.buffer.read_ptr (used o.buffer) ++ o.file

-- What is left after `n` bytes were taken.
advance : Outgoing → ℕ → Outgoing
advance o n =
    if ltb (used o.buffer) n
    then record o { buffer = reset o.buffer; file = drop (n - used o.buffer) o.file }
    else record o { buffer = (read_ptr_move o.buffer n).0 }

-- `m_iv[1]` is cleared.
abbrev drop_file : Outgoing → Outgoing
drop_file o = record o { file = [] }

module _ (k : Sender) where
  open k use {S, writev}

  -- The loop and what follows it. `none`: the fuel ran out.
  send_loop : ℕ → Outgoing → S → Option (ℤ × Outgoing × S)
  send_loop zero o s = none
  send_loop (suc fuel) o s =
      let s' = (writev s (vector o)).1 in
      elim (writev s (vector o)).0 as (λ _. Option (ℤ × Outgoing × S)) [
        | wrote n ↦
            let more = send_loop fuel (advance o n) s' in
            if n == 0 then some (pos 0, drop_file o, s') else more
        | would_block ↦ some (pos (used o.buffer + length o.file), o, s')
        | write_error ↦ some (minus_one, drop_file o, s')
      ]

  -- Each round but the last takes a byte.
  unfoldable pub send_message : Outgoing → S → Option (ℤ × Outgoing × S)
  unfolding send_loop advance
  send_message o s = send_loop (suc (length (vector o))) o s
