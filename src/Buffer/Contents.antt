-- ===== src/Buffer/Contents.antt =====
-- base/Buffer.cpp seen by a client: a bounded queue of bytes.
use knpnl.Prelude.{
  ℕ, ◌+◌, ◌-◌, ◌^◌, ◌≤◌, ◌<◌, ◌≡◌, refl, ap, ◌∙◌, List, ◌++◌, length, slice, pos, minus_one, arith,
  length-write_at, length-slice, slice_grown, slice_moved, drop, drop-drop, drop-take,
}
use knpnl.Buffer.{FixedBuffer, capacity, used, avail, compact, put, append, read_ptr_move}

-- The comment of the class: _buf <= mReadPtr <= mWritePtr <= _end. The block fits the address
-- space.
pub record IsValid (b : FixedBuffer) : Type 0 where
  pub ordered : b.read_ptr ≤ b.write_ptr
  pub in_block : b.write_ptr ≤ capacity b
  pub small : capacity b < 2 ^ 63

-- The unread bytes, oldest first.
abbrev pub contents : FixedBuffer → List ℕ
contents b = slice b.mem b.read_ptr (b.write_ptr - b.read_ptr)

pub used-eq : {b : FixedBuffer} → IsValid b → used b ≡ b.write_ptr - b.read_ptr
unfolding used
used-eq v = omega arith

pub avail-add-used : {b : FixedBuffer} → IsValid b → avail b + used b ≡ capacity b
unfolding avail used
avail-add-used v = omega arith

pub length-contents : {b : FixedBuffer} → IsValid b → length (contents b) ≡ used b
length-contents {b} v =
    omega (arith, used-eq v, length-slice b.mem b.read_ptr (b.write_ptr - b.read_ptr))

pub compact-IsValid : {b : FixedBuffer} → IsValid b → IsValid (compact b)
unfolding compact used
compact-IsValid {b} v = omega (arith, length-write_at b.mem 0 (slice b.mem b.read_ptr (used b)))

pub capacity-compact : (b : FixedBuffer) → capacity (compact b) ≡ capacity b
unfolding compact
capacity-compact b = length-write_at b.mem 0 _

-- Moving the unread bytes to the start of the block keeps them.
pub contents-compact : {b : FixedBuffer} → IsValid b → contents (compact b) ≡ contents b
unfolding compact
contents-compact {b} v =
    slice_moved b.mem (slice b.mem b.read_ptr (used b)) (used b - 0) (omega (arith, len, used-eq v))
      (omega (arith, len, used-eq v))
    ∙ ap (slice b.mem b.read_ptr) (used-eq v)
  where
    len : length (slice b.mem b.read_ptr (used b)) ≡ used b
    len = length-slice b.mem b.read_ptr (used b) (omega (arith, used-eq v))

pub put-IsValid :
    {b : FixedBuffer} (s : List ℕ)
    → IsValid b
    → b.write_ptr + length s ≤ capacity b
    → IsValid (put b s)
unfolding put
put-IsValid {b} s v h = omega (arith, length-write_at b.mem b.write_ptr s)

pub capacity-put : (b : FixedBuffer) (s : List ℕ) → capacity (put b s) ≡ capacity b
unfolding put
capacity-put b s = length-write_at b.mem b.write_ptr s

pub contents-put :
    {b : FixedBuffer} (s : List ℕ)
    → IsValid b
    → b.write_ptr + length s ≤ capacity b
    → contents (put b s) ≡ contents b ++ s
unfolding put
contents-put {b} s v h =
    slice_grown b.mem b.read_ptr (b.write_ptr - b.read_ptr) b.write_ptr _ s (omega arith)
      (omega arith) h

pub used-put :
    {b : FixedBuffer} (s : List ℕ)
    → IsValid b
    → b.write_ptr + length s ≤ capacity b
    → used (put b s) ≡ used b + length s
unfolding put used
used-put {b} s v h = omega arith

pub used-compact : {b : FixedBuffer} → IsValid b → used (compact b) ≡ used b
unfolding compact used
used-compact v = omega arith

pub write_ptr-compact : (b : FixedBuffer) → (compact b).write_ptr ≡ used b
unfolding compact
write_ptr-compact b = refl

-- What a call that takes `s` leaves behind.
pub record Took (b : FixedBuffer) (s : List ℕ) (b' : FixedBuffer) : Type 0 where
  pub valid : IsValid b'
  pub same_size : capacity b' ≡ capacity b
  pub bytes : contents b' ≡ contents b ++ s
  pub grown : used b' ≡ used b + length s

pub put-Took :
    {b : FixedBuffer} (s : List ℕ)
    → IsValid b
    → b.write_ptr + length s ≤ capacity b
    → Took b s (put b s)
put-Took {b} s v h = record {
  valid = put-IsValid s v h;
  same_size = capacity-put b s;
  bytes = contents-put s v h;
  grown = used-put s v h;
}

pub compact-put-Took :
    {b : FixedBuffer} (s : List ℕ) → IsValid b → length s ≤ avail b → Took b s (put (compact b) s)
compact-put-Took {b} s v h = record {
  valid = put-IsValid s (compact-IsValid v) fits;
  same_size = capacity-put (compact b) s ∙ capacity-compact b;
  bytes = contents-put s (compact-IsValid v) fits ∙ ap (λ l. l ++ s) (contents-compact v);
  grown = used-put s (compact-IsValid v) fits ∙ ap (λ k. k + length s) (used-compact v);
}
  where
    fits : (compact b).write_ptr + length s ≤ capacity (compact b)
    fits = omega (arith, write_ptr-compact b, capacity-compact b, avail-add-used v)

-- What `append` promises on a valid buffer: a string that fits is taken whole, behind the bytes
-- that wait, its length is returned, and the buffer stays valid and of its size; for one that
-- does not fit 0 is returned and the buffer stays as it was.
pub append_refines :
    {b : FixedBuffer} (s : List ℕ)
    → IsValid b
    → let (b', n) = append b s in
      (length s ≤ avail b → (n ≡ length s) × Took b s b')
      × (avail b < length s → (n ≡ 0) × (b' ≡ b))
unfolding append
append_refines {b} s v =
    ground (arith, avail-add-used v, used-eq v, put-Took s v, compact-put-Took s v)

contents_moved :
    {b : FixedBuffer} (n : ℕ)
    → IsValid b
    → slice b.mem (b.read_ptr + n) (b.write_ptr - (b.read_ptr + n)) ≡ drop n (contents b)
contents_moved {b} n v =
    let e : b.write_ptr - (b.read_ptr + n) ≡ b.write_ptr - b.read_ptr - n = omega arith in
    rw (
      e,
      drop-take n (b.write_ptr - b.read_ptr) (drop b.read_ptr b.mem),
      drop-drop n b.read_ptr b.mem,
    )

-- What `readPtrMove` promises on a valid buffer for an amount that is there: those bytes are gone
-- from the front, 0 is returned and the buffer stays valid.
pub read_ptr_move_consumes :
    {b : FixedBuffer} (n : ℕ)
    → IsValid b
    → n ≤ used b
    → let (b', r) = read_ptr_move b n in
      IsValid b' × (r ≡ pos 0) × (contents b' ≡ drop n (contents b)) × (used b' + n ≡ used b)
unfolding read_ptr_move used
read_ptr_move_consumes {b} n v h = ground (arith, used-eq v, contents_moved n v)

-- `readPtrMove` on a valid buffer, for an amount below 2^63. Where that many bytes are there,
-- they are gone from the front, 0 is returned and the buffer stays valid. Where they are not, -1
-- is returned, but the pointer has been moved already: the buffer breaks its invariant, and
-- `used` wraps to more than the block holds.
pub read_ptr_move_refines :
    {b : FixedBuffer} (n : ℕ)
    → IsValid b
    → n < 2 ^ 63
    → let (b', r) = read_ptr_move b n in
      (n ≤ used b
        → IsValid b' × (r ≡ pos 0) × (contents b' ≡ drop n (contents b)) × (used b' + n ≡ used b))
      × (used b < n → (r ≡ minus_one) × (¬ IsValid b') × (capacity b' < used b'))
unfolding read_ptr_move used
read_ptr_move_refines {b} n v small = (read_ptr_move_consumes n v, λ h. ground arith)
