-- ===== src/Unittest/Buffers.antt =====
-- unittest/buffer_unittest.cpp
use knpnl.Prelude.{ℕ, ◌≡◌, refl, Bool, true, List, [], ◌∷◌, replicate, drop}
use knpnl.Buffer.{FixedBuffer, append, used, read_ptr_move}
use knpnl.Http.CString.{codes, c_str, bytes_eq}
use knpnl.Unittest.{fresh_buffer, all_hold}

-- The string at `readPtr()`.
unfoldable string_at : FixedBuffer → List ℕ
unfolding c_str
string_at b = c_str (drop b.read_ptr b.mem)

-- `testCase0`
unfoldable append_test : Bool
unfolding append string_at bytes_eq all_hold fresh_buffer
append_test =
    let a = (append fresh_buffer (codes "123")).0 in
    let b = (append a (codes "456")).0 in
    let c = (append b (codes "789")).0 in
    all_hold (
      bytes_eq (string_at a) (codes "123")
      ∷ bytes_eq (string_at b) (codes "123456")
      ∷ bytes_eq (string_at c) (codes "123456789")
      ∷ [])

append_test_passes : append_test ≡ true
unfolding append_test
append_test_passes = refl

-- The numbers of bytes that `testCase1` looks at: after each of three strings of 500 `x`, and after
-- 602 bytes were taken behind the second.
unfoldable move_test : List ℕ
unfolding append used read_ptr_move fresh_buffer
move_test =
    let s1 = replicate 500 120 in
    let a = (append fresh_buffer s1).0 in
    let b = (append a s1).0 in
    let c = (read_ptr_move b 602).0 in
    let d = (append c s1).0 in used a ∷ used b ∷ c.read_ptr ∷ used c ∷ used d ∷ d.read_ptr ∷ []

-- The test expects 501, 1002, 602, 400, 901 and 0.
move_test_numbers : move_test ≡ 500 ∷ 1000 ∷ 602 ∷ 398 ∷ 898 ∷ 0 ∷ []
unfolding move_test
move_test_numbers = refl
