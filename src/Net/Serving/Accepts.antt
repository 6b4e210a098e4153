-- ===== src/Net/Serving/Accepts.antt =====
-- A connection is accepted.
use knpnl.Prelude.{
  ℕ, suc, ◌+◌, ◌<◌, ◌≡◌, ◌⊎◌, true, some, [], ◌∷◌, ◌++◌, Bool-cases, ◌==◌, inl, inr, arith,
}
use knpnl.Event.LoopThreadPool.{LoopThreadPool}
use knpnl.Net.Connection.{connecting, closed}
use knpnl.Net.TcpServer.{TcpConnPtr, established, Request, new_connection, update}
use knpnl.Net.Serving.{Serving, accept}
use knpnl.Net.Serving.Tally.{tally, tally-snoc, all_of_none, also, Each-append, Each-weaken}
use knpnl.Net.Serving.Invariant.{
  asks_established, asks_destroy, removes_it, due_established, due_end, is_open, Inv, Held,
  new-opening, new-ending, new-removals, Begun-snoc,
}

-- A connection is made, with the loop `i`.
abbrev added : Serving → LoopThreadPool → ℕ → ℕ → Serving
added s pool i fd =
    let c : TcpConnPtr = record { object = s.next_object; fd = fd; io_loop = i } in
    record s {
      server = record s.server {
        thread_pool = pool;
        conn_map = update s.server.conn_map fd (some c);
        asked =
            s.server.asked
            ++ (record { loop = i; duty = established; connection = s.next_object } ∷ []);
      };
      next_object = suc s.next_object;
      object = update s.object s.next_object c;
      state = update s.state s.next_object connecting;
    }

module _ (s : Serving) (pool : LoopThreadPool) (i fd : ℕ) (v : Inv s)
    (h : (o : ℕ) → o < s.next_object → (s.object o).fd ≡ fd → s.state o ≡ closed) where
  new_request : Request
  new_request = record { loop = i; duty = established; connection = s.next_object }

  added-opening :
      (o : ℕ)
      → o < suc s.next_object
      → tally (asks_established o) (added s pool i fd).server.asked
        ≡ due_established ((added s pool i fd).state o)
  added-opening o l = ground (
    arith,
    tally-snoc (asks_established o) s.server.asked
        (record { loop = i; duty = established; connection = s.next_object }),
    new-opening s v,
    v.opening o,
  )

  added-ending :
      (o : ℕ)
      → o < suc s.next_object
      → tally (asks_destroy o) (added s pool i fd).server.asked + tally (removes_it o) s.removals
        ≡ due_end ((added s pool i fd).state o)
  added-ending o l = ground (
    arith,
    tally-snoc (asks_destroy o) s.server.asked
        (record { loop = i; duty = established; connection = s.next_object }),
    new-ending s v,
    new-removals s v,
    v.ending o,
  )

  added-in_map :
      (o : ℕ)
      → o < suc s.next_object
      → (is_open ((added s pool i fd).state o) ≡ true) ⊎ (0 < tally (removes_it o) s.removals)
      → (added s pool i fd).server.conn_map ((added s pool i fd).object o).fd
        ≡ some ((added s pool i fd).object o)
  added-in_map o l k = ground (arith, new-removals s v, v.ending o, v.in_map o, h o)

  old-Held : (k : ℕ) (c : TcpConnPtr) → Held s k c → Held (added s pool i fd) k c
  old-Held k c g = record {
    was_made = ground (arith, g.was_made);
    has_fd = g.has_fd;
    in_use = ground (arith, g.in_use, g.was_made);
  }

  added-Held :
      (k : ℕ) (c : TcpConnPtr)
      → (added s pool i fd).server.conn_map k ≡ some c
      → Held (added s pool i fd) k c
  added-Held k c e = elim (Bool-cases (fd == k)) [
    | inl q ↦ record { was_made = ground arith; has_fd = ground arith; in_use = inl (ground arith) }
    | inr q ↦ old-Held k c (v.map_only k c (ground arith))
  ]

  added-Inv : Inv (added s pool i fd)
  added-Inv = record {
    numbers = λ o l. ground (arith, v.numbers o);
    opening = added-opening;
    ending = added-ending;
    in_map = added-in_map;
    map_only = added-Held;
    requests =
        Each-append (Each-weaken (λ r p. ground (arith, p)) v.requests)
          (also (ground arith) all_of_none);
    in_turn =
        Begun-snoc s.server.asked _ (Each-weaken (λ r p e. ground (arith, p)) v.requests) v.in_turn;
    to_remove = Each-weaken (λ c p. ground (arith, p)) v.to_remove;
  }

pub accept-Inv :
    (s : Serving) (fd : ℕ)
    → ((o : ℕ) → o < s.next_object → (s.object o).fd ≡ fd → s.state o ≡ closed)
    → Inv s
    → Inv (accept s fd)
unfolding accept new_connection
accept-Inv s fd h v = added-Inv s _ _ fd v h
