-- ===== src/Buffer/ReadFd/Loop.antt =====
-- base/Buffer.cpp: the loop of `readFd`, round by round.
use knpnl.Prelude.{
  ℕ, zero, suc, ◌+◌, ◌*◌, ◌≤◌, ◌<◌, ◌≡◌, ◌≢◌, refl, ap, ◌∙◌, List, [], ◌∷◌, ◌++◌, if◌then◌else◌,
  ◌==◌, arith, some, ◌⊎◌, inl, inr,
}
use mathlib.Core.List.{append_assoc}
use native.Mathlib.Decide.{ℕ_discrete}
use knpnl.Kernel.{
  RecvResult, bytes, Receiver, Received, got, ended, blocked, failed, open_end, closed_end, broken,
}
use knpnl.Buffer.{FixedBuffer, capacity, used, avail, compact, put}
use knpnl.Buffer.Contents.{
  IsValid, contents, avail-add-used, Took, put-Took, contents-compact, compact-IsValid,
  used-compact, capacity-compact, write_ptr-compact,
}
use knpnl.Buffer.ReadFd.{Stop, finished, gave_up, tail_room, read_loop}

module _ (k : Receiver) where
  open k use {S, recv, pending, status, recv_lem}

  -- The loop went from `b` and `s` to `out`: no byte was lost, made up or reordered; it gave up
  -- only at the end of the stream or on an error, and finished only when the buffer was full or
  -- the socket had nothing left.
  pub record Drained (b : FixedBuffer) (s : S) (out : Stop × FixedBuffer × S) : Type 0 where
    pub valid : IsValid out.1
    pub same_size : capacity out.1 ≡ capacity b
    pub no_loss : contents out.1 ++ pending out.2 ≡ contents b ++ pending s
    pub grown : used b ≤ used out.1
    pub on_finish :
        out.0 ≡ finished → (avail out.1 ≡ 0) ⊎ ((pending out.2 ≡ []) × (status s ≡ open_end))
    pub on_give_up :
        out.0 ≡ gave_up → ((pending out.2 ≡ []) × (status s ≡ closed_end)) ⊎ (status s ≡ broken)

  abbrev measure : FixedBuffer → ℕ
  measure b = 2 * avail b + (if tail_room b == 0 then 1 else 0)

  abbrev Ends : ℕ → FixedBuffer → S → Type 0
  Ends fuel b s =
      (out : Stop × FixedBuffer × S) × (read_loop k fuel b s ≡ some out) × Drained b s out

  full-Ends : (fuel : ℕ) (b : FixedBuffer) (s : S) → IsValid b → avail b ≡ 0 → Ends (suc fuel) b s
  unfolding read_loop
  full-Ends fuel b s v e = (
    (finished, b, s),
    ground arith,
    record {
      valid = v;
      same_size = refl;
      no_loss = refl;
      grown = omega arith;
      on_finish = λ _. inl e;
      on_give_up = λ h. cc;
    },
  )

  -- The block is full at its end: the bytes are moved and the loop goes on.
  compact-Ends :
      (fuel : ℕ) (b : FixedBuffer) (s : S)
      → IsValid b
      → avail b ≢ 0
      → tail_room b ≡ 0
      → Ends fuel (compact b) s
      → Ends (suc fuel) b s
  unfolding read_loop
  compact-Ends fuel b s v e t (out, run, d) = (
    out,
    ground arith,
    record {
      valid = d.valid;
      same_size = d.same_size ∙ capacity-compact b;
      no_loss = d.no_loss ∙ ap (λ l. l ++ pending s) (contents-compact v);
      grown = omega (arith, d.grown, used-compact v);
      on_finish = d.on_finish;
      on_give_up = d.on_give_up;
    },
  )

  step-got :
      (fuel : ℕ) (b : FixedBuffer) (s : S) (x : ℕ) (xs : List ℕ) (s' : S)
      → avail b ≢ 0
      → tail_room b ≢ 0
      → (recv s (tail_room b)).0 ≡ bytes (x ∷ xs)
      → (recv s (tail_room b)).1 ≡ s'
      → read_loop k (suc fuel) b s ≡ read_loop k fuel (put b (x ∷ xs)) s'
  unfolding read_loop
  step-got fuel b s x xs s' e t er es = ground arith

  got-Drained :
      (b : FixedBuffer) (s s' : S) (bs : List ℕ) (out : Stop × FixedBuffer × S)
      → Took b bs (put b bs)
      → pending s ≡ bs ++ pending s'
      → status s' ≡ status s
      → Drained (put b bs) s' out
      → Drained b s out
  got-Drained b s s' bs out took p q d = record {
    valid = d.valid;
    same_size = d.same_size ∙ took.same_size;
    no_loss = rw (d.no_loss, took.bytes, p) (append_assoc (contents b) bs (pending s'));
    grown = omega (arith, d.grown, took.grown);
    on_finish = rw (← q) d.on_finish;
    on_give_up = rw (← q) d.on_give_up;
  }

  recv-Ends :
      (fuel : ℕ) (b : FixedBuffer) (s : S) (r : RecvResult) (s' : S)
      → IsValid b
      → avail b ≢ 0
      → tail_room b ≢ 0
      → (recv s (tail_room b)).0 ≡ r
      → (recv s (tail_room b)).1 ≡ s'
      → ((x : ℕ) (xs : List ℕ) → Took b (x ∷ xs) (put b (x ∷ xs)) → Ends fuel (put b (x ∷ xs)) s')
      → Received pending status (tail_room b) s r s'
      → Ends (suc fuel) b s
  unfolding read_loop
  recv-Ends fuel b s r s' v e t er es next (got x xs f h p q) =
      let took : Took b (x ∷ xs) (put b (x ∷ xs)) = put-Took (x ∷ xs) v (omega arith) in
      let (out, run, d) = next x xs took in
      (
        out,
        step-got fuel b s x xs s' e t (er ∙ f) es ∙ run,
        got-Drained b s s' (x ∷ xs) out took p q d,
      )
  recv-Ends fuel b s r s' v e t er es next (ended f p q st) = (
    (gave_up, b, s'),
    ground arith,
    record {
      valid = v;
      same_size = refl;
      no_loss = rw (p, q) refl;
      grown = omega arith;
      on_finish = λ h. cc;
      on_give_up = λ h. inl (q, st);
    },
  )
  recv-Ends fuel b s r s' v e t er es next (blocked f p q st) = (
    (finished, b, s'),
    ground arith,
    record {
      valid = v;
      same_size = refl;
      no_loss = rw (p, q) refl;
      grown = omega arith;
      on_finish = λ h. inr (q, st);
      on_give_up = λ h. cc;
    },
  )
  recv-Ends fuel b s r s' v e t er es next (failed f p st) = (
    (gave_up, b, s'),
    ground arith,
    record {
      valid = v;
      same_size = refl;
      no_loss = rw p refl;
      grown = omega arith;
      on_finish = λ h. cc;
      on_give_up = λ h. inr st;
    },
  )

  measure-compact :
      {b : FixedBuffer}
      → IsValid b
      → avail b ≢ 0
      → (avail (compact b) ≡ avail b) × (tail_room (compact b) ≢ 0)
  measure-compact {b} v e = omega (
    arith,
    avail-add-used v,
    avail-add-used (compact-IsValid v),
    used-compact v,
    capacity-compact b,
    write_ptr-compact b,
  )

  -- The loop ends within its fuel on every socket.
  pub read_loop-Ends :
      (fuel : ℕ) (b : FixedBuffer) (s : S) → IsValid b → measure b < fuel → Ends fuel b s
  read_loop-Ends zero b s v h = absurd (omega arith)
  read_loop-Ends (suc fuel) b s v h = elim (ℕ_discrete (avail b) 0) [
    | yes e ↦ full-Ends fuel b s v e
    | no e ↦ elim (ℕ_discrete (tail_room b) 0) [
      | yes t ↦ compact-Ends fuel b s v e t (
          read_loop-Ends fuel (compact b) s (compact-IsValid v) (ground (arith, measure-compact v)))
      | no t ↦
          recv-Ends fuel b s _ _ v e t refl refl
            (λ x xs took.
              read_loop-Ends fuel (put b (x ∷ xs)) _ took.valid
                (ground (arith, avail-add-used v, avail-add-used took.valid)))
            (recv_lem s (tail_room b) (omega arith))
    ]
  ]
