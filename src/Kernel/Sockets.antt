-- ===== src/Kernel/Sockets.antt =====
-- Sockets whose behaviour is computed, which show that the kernel's documented behaviour can be had.
use knpnl.Prelude.{
  ℕ, ◌<◌, ◌≡◌, ◌≢◌, refl, List, [], ◌∷◌, ◌++◌, length, take, ltb, ltb→lt, if◌then◌else◌, Bool-cases,
  inl, inr, arith,
}
use knpnl.Kernel.{
  RecvResult, bytes, again, error, Status, open_end, closed_end, broken, Receiver, Received, got,
  ended, blocked, failed, wrote, Written, took, Sender,
}

-- A socket whose state is what waits in it and what its peer has done. It hands over at most two
-- bytes at once.
abbrev socket_recv : List ℕ × Status → ℕ → RecvResult × (List ℕ × Status)
socket_recv ([], open_end) len = (again, ([], open_end))
socket_recv ([], closed_end) len = (bytes [], ([], closed_end))
socket_recv (xs, broken) len = (error, (xs, broken))
socket_recv (x ∷ [], st) len = (bytes (x ∷ []), ([], st))
socket_recv (x ∷ y ∷ xs, st) len =
    if ltb 1 len then (bytes (x ∷ y ∷ []), (xs, st)) else (bytes (x ∷ []), (y ∷ xs, st))

abbrev Law : List ℕ × Status → ℕ → Type 0
Law s len =
    Received {S = List ℕ × Status} (λ t. t.0) (λ t. t.1) len s (socket_recv s len).0
      (socket_recv s len).1

socket_recv_pair :
    (x y : ℕ) (xs : List ℕ) (st : Status) (len : ℕ)
    → 0 < len
    → st ≢ broken
    → Law (x ∷ y ∷ xs, st) len
socket_recv_pair x y xs open_end len h ne = elim (Bool-cases (ltb 1 len)) [
  | inl e ↦ got x (y ∷ []) (rw e refl) (omega (arith, ltb→lt 1 len e)) (rw e refl) (rw e refl)
  | inr e ↦ got x [] (rw e refl) h (rw e refl) (rw e refl)
]
socket_recv_pair x y xs closed_end len h ne = elim (Bool-cases (ltb 1 len)) [
  | inl e ↦ got x (y ∷ []) (rw e refl) (omega (arith, ltb→lt 1 len e)) (rw e refl) (rw e refl)
  | inr e ↦ got x [] (rw e refl) h (rw e refl) (rw e refl)
]
socket_recv_pair x y xs broken len h ne = absurd (ne refl)

pub socket_recv_lem : (s : List ℕ × Status) (len : ℕ) → 0 < len → Law s len
socket_recv_lem ([], open_end) len h = blocked refl refl refl refl
socket_recv_lem ([], closed_end) len h = ended refl refl refl refl
socket_recv_lem ([], broken) len h = failed refl refl refl
socket_recv_lem (x ∷ [], open_end) len h = got x [] refl h refl refl
socket_recv_lem (x ∷ [], closed_end) len h = got x [] refl h refl refl
socket_recv_lem (x ∷ [], broken) len h = failed refl refl refl
socket_recv_lem (x ∷ y ∷ xs, open_end) len h = socket_recv_pair x y xs open_end len h (λ e. cc)
socket_recv_lem (x ∷ y ∷ xs, closed_end) len h = socket_recv_pair x y xs closed_end len h (λ e. cc)
socket_recv_lem (x ∷ y ∷ xs, broken) len h = failed refl refl refl

abbrev pub socket : Receiver
socket = record {
  S = List ℕ × Status;
  recv = socket_recv;
  pending = λ t. t.0;
  status = λ t. t.1;
  recv_lem = socket_recv_lem;
}

take-length : (l : List ℕ) → take (length l) l ≡ l
take-length [] = refl
take-length (x ∷ l) = rw (take-length l) refl

-- A socket that takes all that it is given.
pub roomy_lem : (s out : List ℕ) → Written (λ t. t) s out (wrote (length out)) (s ++ out)
roomy_lem s [] = took 0 refl (omega arith) (λ h. refl) refl
roomy_lem s (x ∷ out) =
    took (length (x ∷ out)) refl (omega arith) (λ h. absurd (omega arith))
      (rw (take-length (x ∷ out)) refl)

abbrev pub roomy : Sender
roomy = record {
  S = List ℕ;
  writev = λ s out. (wrote (length out), s ++ out);
  sent = λ s. s;
  writev_lem = roomy_lem;
}
