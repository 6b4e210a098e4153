-- ===== src/Net/Serving/Closes.antt =====
-- A connection is closed, by a call of `Close` or in its loop.
use knpnl.Prelude.{ℕ, ◌<◌, ◌≡◌, ◌≢◌, inl, inr, refl, [], ◌∷◌, ◌++◌, arith, Option-cases}
use knpnl.Net.Connection.{ConnectionState, connecting, connected, closing, closed}
use knpnl.Net.TcpServer.{handle_close, close, update}
use knpnl.Net.Serving.{Serving, close_connection}
use knpnl.Net.Serving.Tally.{tally-snoc, all_of_none, also, Each-append, Each-weaken}
use knpnl.Net.Serving.Invariant.{asks_established, asks_destroy, removes_it, Inv, Begun-snoc}

-- A `handleClose` is queued.
abbrev queued : Serving → ℕ → Serving
queued s o = record s {
  server = record s.server {
    asked =
        s.server.asked
        ++ (record {
          loop = (s.object o).io_loop;
          duty = handle_close;
          connection = (s.object o).object;
        }
            ∷ []);
  };
}

queued-Inv : (s : Serving) (o : ℕ) → o < s.next_object → Inv s → Inv (queued s o)
queued-Inv s o l v = record {
  numbers = v.numbers;
  opening = λ k n. ground (
    arith,
    tally-snoc (asks_established k) s.server.asked (record {
      loop = (s.object o).io_loop;
      duty = handle_close;
      connection = (s.object o).object;
    }),
    v.opening k n,
  );
  ending = λ k n. ground (
    arith,
    tally-snoc (asks_destroy k) s.server.asked (record {
      loop = (s.object o).io_loop;
      duty = handle_close;
      connection = (s.object o).object;
    }),
    v.ending k n,
  );
  in_map = v.in_map;
  map_only = λ k c e.
      let h = v.map_only k c e in
      record { was_made = h.was_made; has_fd = h.has_fd; in_use = h.in_use };
  requests = Each-append v.requests (also (ground (arith, v.numbers o l)) all_of_none);
  in_turn = Begun-snoc s.server.asked _ (Each-weaken (λ r p e. refl) v.requests) v.in_turn;
  to_remove = v.to_remove;
}

pub close-Inv :
    (s : Serving) (o : ℕ)
    → o < s.next_object
    → Inv s
    → Inv (record s { server = close s.server (s.object o) })
unfolding close
close-Inv s o l v = elim (Option-cases (s.server.conn_map (s.object o).fd)) [
  | inl e ↦ rw (close, e) v
  | inr (c, e) ↦ rw (close, e) (queued-Inv s o l v)
]

abbrev removal_queued : Serving → ℕ → Serving
removal_queued s o = record s {
  state = update s.state o closing;
  removals = s.removals ++ (s.object o ∷ []);
}

closing-Inv :
    (s : Serving) (o : ℕ)
    → o < s.next_object
    → s.state o ≡ connected
    → Inv s
    → Inv (removal_queued s o)
closing-Inv s o l e v = record {
  numbers = v.numbers;
  opening = λ k n. ground (arith, v.opening k n);
  ending = λ k n.
      ground
        (arith, tally-snoc (removes_it k) s.removals (s.object o), v.numbers o l, v.ending k n);
  in_map = λ k n h. ground (
    arith,
    tally-snoc (removes_it k) s.removals (s.object o),
    v.numbers o l,
    v.in_map k n,
    v.in_map o l,
  );
  map_only = λ k c m.
      let h = v.map_only k c m in
      record {
        was_made = h.was_made;
        has_fd = h.has_fd;
        in_use = ground (
          arith,
          h.in_use,
          h.was_made,
          v.numbers o l,
          tally-snoc (removes_it c.object) s.removals (s.object o),
        );
      };
  requests = v.requests;
  in_turn = v.in_turn;
  to_remove = Each-append v.to_remove (also (ground (arith, v.numbers o l)) all_of_none);
}

pub close_connection-Inv :
    (s : Serving) (o : ℕ)
    → o < s.next_object
    → s.state o ≢ connecting
    → Inv s
    → Inv (close_connection s o)
unfolding close_connection
close_connection-Inv s o l n v = by_state (s.state o) refl
  where
    by_state : (t : ConnectionState) → s.state o ≡ t → Inv (close_connection s o)
    by_state connecting e = absurd (n e)
    by_state connected e = rw (close_connection, e) (closing-Inv s o l e v)
    by_state closing e = rw (close_connection, e) v
    by_state closed e = rw (close_connection, e) v
