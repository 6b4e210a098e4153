-- ===== src/Buffer/ReadFd.antt =====
-- base/Buffer.cpp, `FixedBuffer::readFd`: the loop that empties a socket into the buffer.
pub mod Loop
pub mod Outcome
use knpnl.Prelude.{
  ℕ, zero, suc, ◌+◌, ◌-◌, ◌*◌, ◌≤◌, ◌<◌, ◌≡◌, refl, sym, ap, ◌∙◌, Bool, true, false, List, [], ◌∷◌,
  ◌++◌, length, sub_size, if◌then◌else◌, ◌==◌, ℤ, pos, minus_one, arith, Option, none, some,
  Bool-cases, ◌⊎◌, inl, inr,
}
use mathlib.Core.Option
use knpnl.Kernel.{RecvResult, bytes, again, error, Receiver, Received, got, ended, blocked, failed}
use knpnl.Buffer.{FixedBuffer, capacity, used, avail, compact, put}

-- How the loop ends: full or drained by `break` or its test, or with `return -1`.
pub data Stop : Type 0 where
  finished gave_up : Stop

-- `_end - mWritePtr`
abbrev pub tail_room : FixedBuffer → ℕ
tail_room b = sub_size (capacity b) b.write_ptr

module _ (k : Receiver) where
  open k use {S, recv}

  -- `none`: the fuel ran out.
  pub read_loop : ℕ → FixedBuffer → S → Option (Stop × FixedBuffer × S)
  read_loop zero b s = none
  read_loop (suc fuel) b s =
      let compacted = read_loop fuel (compact b) s in
      let received : Option (Stop × FixedBuffer × S) = elim (recv s (tail_room b)).0 [
        | bytes [] ↦ some (gave_up, b, (recv s (tail_room b)).1)
        | bytes (x ∷ xs) ↦ read_loop fuel (put b (x ∷ xs)) (recv s (tail_room b)).1
        | again ↦ some (finished, b, (recv s (tail_room b)).1)
        | error ↦ some (gave_up, b, (recv s (tail_room b)).1)
      ] in
      if avail b == 0
      then some (finished, b, s)
      else if tail_room b == 0
      then compacted
      else received

  -- The value that is returned, from the bytes that were there before.
  pub finish : ℕ → Stop × FixedBuffer × S → ℤ × FixedBuffer × S
  finish last_used (finished, b, s) = (pos (sub_size (used b) last_used), b, s)
  finish last_used (gave_up, b, s) = (minus_one, b, s)

  -- Each round but one in two reads a byte at least.
  abbrev pub fuel_for : FixedBuffer → ℕ
  fuel_for b = 2 * capacity b + 2

  unfoldable pub read_fd : FixedBuffer → S → Option (ℤ × FixedBuffer × S)
  unfolding read_loop finish
  read_fd b s =
      if avail b == 0
      then some (pos 0, b, s)
      else Option.map (finish (used b)) (read_loop (fuel_for b) b s)
