-- ===== src/Net/TcpConnection/Send.antt =====
-- `sendMessage`: what reaches the socket, and what is kept for later.
use mathlib.Core.List.{append_assoc}
use knpnl.Prelude.{
  ℕ, zero, suc, ◌+◌, ◌-◌, ◌≤◌, ◌<◌, ◌≡◌, ◌≢◌, inl, inr, refl, sym, ap, ◌∙◌, true, false, List, [],
  ◌++◌, length, take, drop, ltb, ℤ, pos, minus_one, some, Bool-cases, arith, drop-append_le,
  drop-append_ge, take-append-drop, length-append, length-drop,
}
use native.Mathlib.Decide.{ℕ_discrete}
use knpnl.Prelude.{take_nil}
use knpnl.Kernel.{
  WriteResult, wrote, would_block, write_error, Sender, Written, took, refused, broke,
}
use knpnl.Buffer.{FixedBuffer, used, read_ptr_move, reset}
use knpnl.Buffer.Contents.{IsValid, contents, used-eq, length-contents, read_ptr_move_consumes}
use knpnl.Net.TcpConnection.{Outgoing, vector, advance, send_loop, send_message}

vector-eq : (o : Outgoing) → IsValid o.buffer → vector o ≡ contents o.buffer ++ o.file
vector-eq o v = rw (used-eq v) refl

reset-IsValid : (b : FixedBuffer) → IsValid b → IsValid (reset b) × (contents (reset b) ≡ [])
unfolding reset
reset-IsValid b v = (omega arith, refl)

-- The pointers are moved on by just the bytes that were taken.
advance-vector :
    (o : Outgoing) (n : ℕ)
    → IsValid o.buffer
    → n ≤ length (vector o)
    → IsValid (advance o n).buffer × (vector (advance o n) ≡ drop n (vector o))
unfolding advance
advance-vector o n v h = elim (Bool-cases (ltb (used o.buffer) n)) [
  | inl e ↦ rw e ((reset-IsValid o.buffer v).0, past e)
  | inr e ↦ rw e (let m = read_ptr_move_consumes n v (ground arith) in (m.0, within e m.0 m.2))
]
  where
    split : drop n (vector o) ≡ drop n (contents o.buffer ++ o.file)
    split = ap (drop n) (vector-eq o v)

    past :
        ltb (used o.buffer) n ≡ true
        → vector (record { buffer = reset o.buffer; file = drop (n - used o.buffer) o.file })
          ≡ drop n (vector o)
    past e =
        vector-eq _ (reset-IsValid o.buffer v).0
        ∙ ap (λ l. l ++ drop (n - used o.buffer) o.file) (reset-IsValid o.buffer v).1
        ∙ ap (λ u. drop (n - u) o.file) (sym (length-contents v))
        ∙ sym (drop-append_ge n (contents o.buffer) o.file (ground (arith, length-contents v)))
        ∙ sym split

    within :
        ltb (used o.buffer) n ≡ false
        → IsValid (read_ptr_move o.buffer n).0
        → contents (read_ptr_move o.buffer n).0 ≡ drop n (contents o.buffer)
        → vector (record o { buffer = (read_ptr_move o.buffer n).0 }) ≡ drop n (vector o)
    within e w c =
        vector-eq _ w
        ∙ ap (λ l. l ++ o.file) c
        ∙ sym (drop-append_le n (contents o.buffer) o.file (ground (arith, length-contents v)))
        ∙ sym split

-- What the call has done when it returns `out.0`: 0 when all was sent, the number of bytes that
-- wait when the socket is full, and -1 on an error, where the file is given up.
module _ (k : Sender) where
  open k use {S, writev, sent, writev_lem}

  pub data SendOutcome (o : Outgoing) (s : S) (out : ℤ × Outgoing × S) : Type 0 where
    all_sent :
        out.0 ≡ pos 0 → sent out.2 ≡ sent s ++ vector o → IsValid out.1.buffer → SendOutcome o s out
    waits :
        out.0 ≡ pos (length (vector out.1))
        → sent out.2 ++ vector out.1 ≡ sent s ++ vector o
        → IsValid out.1.buffer
        → SendOutcome o s out
    broken :
        (lost : List ℕ)
        → out.0 ≡ minus_one
        → sent out.2 ++ lost ≡ sent s ++ vector o
        → out.1.file ≡ []
        → IsValid out.1.buffer
        → SendOutcome o s out

  abbrev Returns : ℕ → Outgoing → S → Type 0
  Returns fuel o s =
      (out : ℤ × Outgoing × S) × (send_loop k fuel o s ≡ some out) × SendOutcome o s out

  -- A round that took bytes.
  module _ (o : Outgoing) (n : ℕ) (s s' : S) (d : vector (advance o n) ≡ drop n (vector o))
      (t : sent s' ≡ sent s ++ take n (vector o)) where
    joined : sent s' ++ vector (advance o n) ≡ sent s ++ vector o
    joined = rw (t, d, append_assoc, take-append-drop n (vector o)) refl

    advance-SendOutcome :
        (out : ℤ × Outgoing × S) → SendOutcome (advance o n) s' out → SendOutcome o s out
    advance-SendOutcome out (all_sent r q v) = all_sent r (q ∙ joined) v
    advance-SendOutcome out (waits r q v) = waits r (q ∙ joined) v
    advance-SendOutcome out (broken l r q f v) = broken l r (q ∙ joined) f v

  step-wrote :
      (fuel : ℕ) (o : Outgoing) (s s' : S) (n : ℕ)
      → (writev s (vector o)).0 ≡ wrote n
      → (writev s (vector o)).1 ≡ s'
      → n ≢ 0
      → send_loop k (suc fuel) o s ≡ send_loop k fuel (advance o n) s'
  unfolding send_loop
  step-wrote fuel o s s' n e f h = ground arith

  step-end :
      (fuel : ℕ) (o : Outgoing) (s s' : S)
      → (writev s (vector o)).1 ≡ s'
      → ((writev s (vector o)).0 ≡ wrote 0
          → send_loop k (suc fuel) o s ≡ some (pos 0, record o { file = [] }, s'))
        × ((writev s (vector o)).0 ≡ would_block
            → send_loop k (suc fuel) o s ≡ some (pos (used o.buffer + length o.file), o, s'))
        × ((writev s (vector o)).0 ≡ write_error
            → send_loop k (suc fuel) o s ≡ some (minus_one, record o { file = [] }, s'))
  unfolding send_loop
  step-end fuel o s s' f = (λ e. ground arith, λ e. ground arith, λ e. ground arith)

  length-vector :
      (o : Outgoing) → IsValid o.buffer → used o.buffer + length o.file ≡ length (vector o)
  length-vector o v = omega (
    arith,
    ap length (vector-eq o v),
    length-append (contents o.buffer) o.file,
    length-contents v,
  )

  round-Returns :
      (fuel : ℕ) (o : Outgoing) (s : S) (r : WriteResult) (s' : S)
      → IsValid o.buffer
      → (writev s (vector o)).0 ≡ r
      → (writev s (vector o)).1 ≡ s'
      → ((n : ℕ)
          → n ≢ 0
          → n ≤ length (vector o)
          → IsValid (advance o n).buffer
          → vector (advance o n) ≡ drop n (vector o)
          → Returns fuel (advance o n) s')
      → Written sent s (vector o) r s'
      → Returns (suc fuel) o s
  round-Returns fuel o s r s' v e f next (took n g le z t) = elim (ℕ_discrete n 0) [
    | yes zero_bytes ↦ (
      (pos 0, record o { file = [] }, s'),
      (step-end fuel o s s' f).0 (e ∙ g ∙ ap wrote zero_bytes),
      all_sent refl (t ∙ rw (z zero_bytes) (ap (◌++◌ (sent s)) (take_nil n))) v,
    )
    | no some_bytes ↦
        let (w, d) = advance-vector o n v le in
        let (out, run, oc) = next n some_bytes le w d in
        (
          out,
          step-wrote fuel o s s' n (e ∙ g) f some_bytes ∙ run,
          advance-SendOutcome o n s s' d t out oc,
        )
  ]
  round-Returns fuel o s r s' v e f next (refused g t) = (
    (pos (used o.buffer + length o.file), o, s'),
    (step-end fuel o s s' f).1 (e ∙ g),
    waits (ap pos (length-vector o v)) (ap (λ l. l ++ vector o) t) v,
  )
  round-Returns fuel o s r s' v e f next (broke g t) = (
    (minus_one, record o { file = [] }, s'),
    (step-end fuel o s s' f).2 (e ∙ g),
    broken (vector o) refl (ap (λ l. l ++ vector o) t) refl v,
  )

  send_loop-Returns :
      (fuel : ℕ) (o : Outgoing) (s : S)
      → IsValid o.buffer
      → length (vector o) < fuel
      → Returns fuel o s
  send_loop-Returns zero o s v h = absurd (omega arith)
  send_loop-Returns (suc fuel) o s v h =
      round-Returns fuel o s _ _ v refl refl
        (λ n ne le w d.
          send_loop-Returns fuel (advance o n) _ w
            (omega (arith, ap length d, length-drop n (vector o))))
        (writev_lem s (vector o))

  -- With a valid write buffer `sendMessage` returns on every socket, and no byte of the buffer or
  -- of the file is sent twice, skipped or out of order; the buffer stays valid. 0 means that all
  -- was sent, or that the socket is full and nothing is left; a positive number counts the bytes
  -- that are kept for the next call; after -1 the file is given up, and the bytes that were sent
  -- are a beginning of those that were to be sent.
  pub send_message-SendOutcome :
      (o : Outgoing) (s : S)
      → IsValid o.buffer
      → (out : ℤ × Outgoing × S) × (send_message k o s ≡ some out) × SendOutcome o s out
  unfolding send_message
  send_message-SendOutcome o s v = send_loop-Returns (suc (length (vector o))) o s v (omega arith)
