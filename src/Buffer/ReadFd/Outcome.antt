-- ===== src/Buffer/ReadFd/Outcome.antt =====
-- What `readFd` returns, and what that says of the socket.
use mathlib.Core.List.{append-nil}
use mathlib.Core.Option
use native.Mathlib.Decide.{ℕ_discrete}
use knpnl.Prelude.{
  ◌-◌, ◌≤◌, ◌<◌, ◌≡◌, refl, sym, ap, ◌∙◌, subst, [], ◌++◌, length, length-append, ℤ, pos, minus_one,
  arith, some, ◌⊎◌, inl, inr,
}
use knpnl.Kernel.{Receiver, open_end, closed_end, broken}
use knpnl.Buffer.{FixedBuffer, capacity, used, avail}
use knpnl.Buffer.Contents.{IsValid, contents, avail-add-used, length-contents}
use knpnl.Buffer.ReadFd.{Stop, finished, gave_up, read_fd, finish, fuel_for}
use knpnl.Buffer.ReadFd.Loop.{Drained, read_loop-Ends}

module _ (k : Receiver) where
  open k use {S, pending, status}

  -- What the call leaves behind, and what its result means.
  pub record ReadOutcome (b : FixedBuffer) (s : S) (out : ℤ × FixedBuffer × S) : Type 0 where
    pub valid : IsValid out.1
    pub no_loss : contents out.1 ++ pending out.2 ≡ contents b ++ pending s
    pub same_size : capacity out.1 ≡ capacity b
    pub grown : used b ≤ used out.1
    pub code :
        ((out.0 ≡ pos (used out.1 - used b))
          × ((avail out.1 ≡ 0) ⊎ ((pending out.2 ≡ []) × (status s ≡ open_end))))
        ⊎ ((out.0 ≡ minus_one)
            × (((pending out.2 ≡ []) × (status s ≡ closed_end)) ⊎ (status s ≡ broken)))

  finish-ReadOutcome :
      (b : FixedBuffer) (s : S) (out : Stop × FixedBuffer × S)
      → Drained k b s out
      → ReadOutcome b s (finish k (used b) out)
  unfolding finish
  finish-ReadOutcome b s (finished, b', s') d = record {
    valid = d.valid;
    no_loss = d.no_loss;
    same_size = d.same_size;
    grown = d.grown;
    code =
        inl (
          ap pos (omega (arith, d.grown, avail-add-used d.valid, d.valid.small)),
          d.on_finish refl,
        );
  }
  finish-ReadOutcome b s (gave_up, b', s') d = record {
    valid = d.valid;
    no_loss = d.no_loss;
    same_size = d.same_size;
    grown = d.grown;
    code = inr (refl, d.on_give_up refl);
  }

  -- On a valid buffer `readFd` returns on every socket. What is unread in the buffer and what
  -- waits in the socket together stay the same bytes in the same order, and the buffer stays
  -- valid and of its size, with no fewer unread bytes than before. A result that is not negative
  -- counts the bytes that were added, and then the buffer is full or the open socket is empty; -1
  -- means that the peer has closed and all was read, or that the connection is broken.
  pub read_fd_drains :
      (b : FixedBuffer) (s : S)
      → IsValid b
      → (out : ℤ × FixedBuffer × S) × (read_fd k b s ≡ some out) × ReadOutcome b s out
  unfolding read_fd
  read_fd_drains b s v = elim (ℕ_discrete (avail b) 0) [
    | yes e ↦ (
      (pos 0, b, s),
      ground arith,
      record {
        valid = v;
        no_loss = refl;
        same_size = refl;
        grown = omega arith;
        code = inl (ap pos (omega arith), inl e);
      },
    )
    | no e ↦
        let (out, run, d) =
          read_loop-Ends k (fuel_for k b) b s v (grind (arith, avail-add-used v)) in
        (
          finish k (used b) out,
          ground (arith, ap (Option.map (finish k (used b))) run),
          finish-ReadOutcome b s out d,
        )
  ]

  closed_lem :
      (b : FixedBuffer) (s : S) (out : ℤ × FixedBuffer × S)
      → IsValid b
      → status s ≡ closed_end
      → length (pending s) < avail b
      → ReadOutcome b s out
      → (out.0 ≡ minus_one) × (contents out.1 ≡ contents b ++ pending s)
  closed_lem b s (r, b', s') v c room o = elim o.code [
    | inl (_, inl full) ↦ absurd (
        omega (
          arith,
          ap length o.no_loss,
          length-append (contents b') (pending s'),
          length-append (contents b) (pending s),
          length-contents v,
          length-contents o.valid,
          avail-add-used v,
          avail-add-used o.valid,
        ))
    | inl (_, inr (_, p)) ↦ cc
    | inr (e, inl (p, _)) ↦
        (e, sym (append-nil (contents b')) ∙ ap (λ l. contents b' ++ l) (sym p) ∙ o.no_loss)
    | inr (_, inr p) ↦ cc
  ]

  -- The peer's last bytes: when it has closed and they leave room in a valid buffer, they are all
  -- read into it, and the call returns -1, the result for an error.
  pub read_fd_closed :
      (b : FixedBuffer) (s : S) {out : ℤ × FixedBuffer × S}
      → IsValid b
      → status s ≡ closed_end
      → length (pending s) < avail b
      → read_fd k b s ≡ some out
      → (out.0 ≡ minus_one) × (contents out.1 ≡ contents b ++ pending s)
  read_fd_closed b s {out} v c room run =
      let (out', run', o) = read_fd_drains b s v in
      let e : out' ≡ out = cc in closed_lem b s out v c room (subst (ReadOutcome b s) e o)
