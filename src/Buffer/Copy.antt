-- ===== src/Buffer/Copy.antt =====
-- base/Buffer.h: the deep copy of a buffer.
use knpnl.Prelude.{
  ℕ, ◌-◌, ◌≡◌, ap, ◌∙◌, List, length, slice, write_at, length-write_at, length-slice, slice_grown,
  arith,
}
use knpnl.Buffer.{FixedBuffer, capacity, used}
use knpnl.Buffer.Contents.{IsValid, contents, used-eq}

-- The copy constructor, into the `block` of `length()` bytes that `new` gives, and the assignment,
-- which forgets the old block.
unfoldable pub copy : List ℕ → FixedBuffer → FixedBuffer
copy block b = record {
  mem = write_at block b.read_ptr (slice b.mem b.read_ptr (used b));
  read_ptr = b.read_ptr;
  write_ptr = b.write_ptr;
}

-- The copy of a valid buffer is valid, has its capacity, and holds the same unread bytes; so the
-- two can then be used apart.
copy-contents :
    (block : List ℕ) {b : FixedBuffer}
    → IsValid b
    → length block ≡ capacity b
    → IsValid (copy block b)
      × (capacity (copy block b) ≡ capacity b)
      × (contents (copy block b) ≡ contents b)
unfolding copy
copy-contents block {b} v h = (
  omega (arith, length-write_at block b.read_ptr (slice b.mem b.read_ptr (used b))),
  length-write_at block b.read_ptr _ ∙ h,
  slice_grown block b.read_ptr 0 b.read_ptr (b.write_ptr - b.read_ptr)
        (slice b.mem b.read_ptr (used b)) (omega arith) (omega (arith, len, used-eq v))
        (omega (arith, len, used-eq v))
      ∙ ap (slice b.mem b.read_ptr) (used-eq v),
)
  where
    len : length (slice b.mem b.read_ptr (used b)) ≡ used b
    len = length-slice b.mem b.read_ptr (used b) (omega (arith, used-eq v))
