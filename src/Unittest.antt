-- ===== src/Unittest.antt =====
-- The unit tests of the repository, run on the models of what they test: an expectation is a
-- Boolean, and a test is whether all of its expectations hold.
mod Buffers
mod Requests
mod Responses
use knpnl.Prelude.{ℕ, suc, Bool, true, false, List, [], ◌∷◌, replicate, ◌&&◌}
use knpnl.Buffer.{FixedBuffer, buffer_size, init}

-- `FixedBuffer buf;`, of a block that happens to be zero.
abbrev pub fresh_buffer : FixedBuffer
unfolding init
fresh_buffer = init (replicate buffer_size 0)

-- All of them hold.
unfoldable pub all_hold : List Bool → Bool
all_hold [] = true
all_hold (b ∷ bs) = b && all_hold bs
