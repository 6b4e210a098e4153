-- ===== src/Net/Tests.antt =====
-- The theorems about connections at concrete inputs.
use knpnl.Prelude.{
  ℕ, ◌≡◌, refl, inl, inr, ltb, if◌then◌else◌, List, [], ◌∷◌, ◌++◌, length, ℤ, some, arith,
  Bool-cases,
}
use mathlib.Core.List.{append-nil}
use knpnl.Kernel.{Sender, WriteResult, wrote, would_block, Written, took, refused}
use knpnl.Buffer.Contents.{IsValid}
use knpnl.Net.TcpConnection.{Outgoing, send_message}
use knpnl.Net.TcpConnection.Send.{SendOutcome, send_message-SendOutcome}

-- A socket that takes one byte at a time, up to three in all.
abbrev slow_writev : List ℕ → List ℕ → WriteResult × List ℕ
slow_writev s [] = (wrote 0, s)
slow_writev s (x ∷ out) = if ltb (length s) 3 then (wrote 1, s ++ (x ∷ [])) else (would_block, s)

slow_writev_lem :
    (s out : List ℕ) → Written (λ t. t) s out (slow_writev s out).0 (slow_writev s out).1
slow_writev_lem s [] = took 0 refl (omega arith) (λ _. refl) (ground (arith, append-nil s))
slow_writev_lem s (x ∷ out) = elim (Bool-cases (ltb (length s) 3)) [
  | inl e ↦ rw e (took 1 refl (omega arith) (λ h. absurd (omega arith)) refl)
  | inr e ↦ rw e (refused refl refl)
]

abbrev slow : Sender
slow = record { S = List ℕ; writev = slow_writev; sent = λ t. t; writev_lem = slow_writev_lem }

abbrev outgoing : Outgoing
outgoing = record {
  buffer = record { mem = 0 ∷ 1 ∷ 2 ∷ 0 ∷ []; read_ptr = 1; write_ptr = 3 };
  file = 3 ∷ 4 ∷ 5 ∷ [];
}

outgoing-IsValid : IsValid outgoing.buffer
outgoing-IsValid = omega arith

send_message-SendOutcome_example :
    (out : ℤ × Outgoing × List ℕ) × (send_message slow outgoing [] ≡ some out)
    × SendOutcome slow outgoing [] out
send_message-SendOutcome_example = send_message-SendOutcome slow outgoing [] outgoing-IsValid
