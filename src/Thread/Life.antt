-- ===== src/Thread/Life.antt =====
-- What a thread has given back when its object is gone.
use native.Mathlib.Decide.{ℕ_discrete}
use knpnl.Prelude.{ℕ, ◌≡◌, ◌≢◌, refl, sym, ◌∙◌, true, false, none, some, arith}
use knpnl.Kernel.Threads.{Pthreads, Changed}
use knpnl.Thread.{Thread, start, join, destroy}

module _ (p : Pthreads) where
  open p use {S, joinable}

  -- Each thread is as it was before the object's thread was made.
  abbrev pub Released : S → S → Type 0
  Released s s' = (id : ℕ) → joinable s' id ≡ joinable s id

  there_and_back :
      {s s1 s2 : S} {id : ℕ}
      → joinable s id ≡ false
      → Changed joinable s s1 id true
      → Changed joinable s1 s2 id false
      → Released s s2
  there_and_back {id = id} h c d other = elim (ℕ_discrete other id) [
    | yes e ↦ rw e (d.at ∙ sym h)
    | no ne ↦ d.elsewhere other ne ∙ c.elsewhere other ne
  ]

module _ {Task : Type 0} (p : Pthreads) where
  open p use {S, joinable, create, create_lem, join_lem, detach_lem}

  -- The object is gone, or joined and then gone, without a failed assertion, and nothing is left.
  pub record Ends (s : S) (t1 : Thread Task) (s1 : S) : Type 0 where
    pub made : joinable s1 t1.pthread_id ≡ true
    pub detached : (s2 : S) × (destroy p t1 s1 ≡ some s2) × Released p s s2
    pub joined :
        (t2 : Thread Task) × (s2 : S) × (join p t1 s1 ≡ some (t2, s2))
        × (destroy p t2 s2 ≡ some s2)
        × Released p s s2

  started-Ends :
      (t : Thread Task) (s : S)
      → t.is_join ≡ false
      → (create s).0.0 ≡ 0
      → Ends s (record t { pthread_id = (create s).0.1; is_running = true }) (create s).1
  unfolding join destroy
  started-Ends t s h e =
      let id = (create s).0.1 in
      let s1 = (create s).1 in
      let (fresh, c) = create_lem s e in
      let (d0, d) = detach_lem s1 id c.at in
      let (j0, j) = join_lem s1 id c.at in
      record {
        made = c.at;
        detached = ((p.detach s1 id).1, rw (h, d0) refl, there_and_back p fresh c d);
        joined = (
          record t { pthread_id = id; is_running = true; is_join = true },
          (p.join s1 id).1,
          rw j0 refl,
          refl,
          there_and_back p fresh c j,
        );
      }

  -- The life of a thread's object, before which nobody has joined it. Where `pthread_create`
  -- fails, the assertion of `start` does. Where it succeeds, `start` does, and the thread is
  -- joinable; then the destructor, at once or behind a `join`, fails no assertion, and after it
  -- each thread is joinable or not as it was before `start`, so that the thread is joined or
  -- detached just once.
  pub start-Ends :
      (t : Thread Task) (s : S)
      → t.is_join ≡ false
      → ((create s).0.0 ≢ 0 → start p t s ≡ none)
        × ((create s).0.0 ≡ 0
            → (t1 : Thread Task) × (s1 : S) × (start p t s ≡ some (t1, s1)) × Ends s t1 s1)
  unfolding start
  start-Ends t s h = (
    λ ne. ground arith,
    λ e. (
      record t { pthread_id = (create s).0.1; is_running = true },
      (create s).1,
      rw e refl,
      started-Ends t s h e,
    ),
  )
