-- ===== src/Buffer.antt =====
-- base/Buffer.h and base/Buffer.cpp: `FixedBuffer`, a block of bytes with a read and a write
-- pointer. Pointers are offsets from `_buf`, and `_end - _buf` is the length of the block.
pub mod Contents
pub mod Copy
pub mod ReadFd
mod Tests
use knpnl.Prelude.{
  ℕ, zero, suc, ◌+◌, ◌-◌, ◌≤◌, ◌≡◌, Bool, true, false, List, [], ◌∷◌, length, slice, write_at,
  sub_size, ltb, leb, if◌then◌else◌, ◌==◌, ℤ, pos, minus_one,
}

pub record FixedBuffer : Type 0 where
  pub mem : List ℕ
  pub read_ptr : ℕ
  pub write_ptr : ℕ

-- `kBufferSize`
abbrev pub buffer_size : ℕ
buffer_size = 1024

-- `new char[kBufferSize]` hands over `block`, whose bytes are not initialised.
unfoldable pub init : List ℕ → FixedBuffer
init block = record { mem = block; read_ptr = 0; write_ptr = 0 }

-- `length()`
abbrev pub capacity : FixedBuffer → ℕ
capacity b = length b.mem

-- `used()`: `size_t` subtraction, which wraps.
unfoldable pub used : FixedBuffer → ℕ
used b = sub_size b.write_ptr b.read_ptr

unfoldable pub avail : FixedBuffer → ℕ
avail b = sub_size (capacity b) (used b)

-- The unread bytes are moved to the start of the block.
unfoldable pub compact : FixedBuffer → FixedBuffer
compact b = record {
  mem = write_at b.mem 0 (slice b.mem b.read_ptr (used b));
  read_ptr = 0;
  write_ptr = used b;
}

-- `memcpy(mWritePtr, str, len); mWritePtr += len;`
unfoldable pub put : FixedBuffer → List ℕ → FixedBuffer
put b s = record b { mem = write_at b.mem b.write_ptr s; write_ptr = b.write_ptr + length s }

-- `append(str, len)`: the new buffer and the number that is returned.
unfoldable pub append : FixedBuffer → List ℕ → FixedBuffer × ℕ
unfolding compact put used avail write_at
append b s =
    if ltb (length s) (sub_size (capacity b) b.write_ptr)
    then (put b s, length s)
    else if leb (length s) (avail b)
    then (put (compact b) s, length s)
    else (b, 0)

-- `append(ch)`
pub append_char : FixedBuffer → ℕ → FixedBuffer × ℕ
append_char b ch = append b (ch ∷ [])

-- `readPtrMove(len)` for `0 ≤ len`. The pointer is moved by the very expression that is tested.
unfoldable pub read_ptr_move : FixedBuffer → ℕ → FixedBuffer × ℤ
read_ptr_move b len =
    let moved = record b { read_ptr = b.read_ptr + len } in
    if leb moved.read_ptr moved.write_ptr then (moved, pos 0) else (moved, minus_one)

-- `add(len)`
unfoldable pub add : FixedBuffer → ℕ → FixedBuffer × ℤ
add b len =
    if ltb (avail b) len
    then (b, minus_one)
    else (record b { write_ptr = b.write_ptr + len }, pos len)

-- `reset()`
unfoldable pub reset : FixedBuffer → FixedBuffer
reset b = record b { read_ptr = 0; write_ptr = 0 }

zeros : List ℕ → List ℕ
zeros [] = []
zeros (x ∷ xs) = 0 ∷ zeros xs

-- `clear()`
unfoldable pub clear : FixedBuffer → FixedBuffer
unfolding zeros reset
clear b = reset (record b { mem = zeros b.mem })
