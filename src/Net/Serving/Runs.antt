-- ===== src/Net/Serving/Runs.antt =====
-- A loop runs the oldest of its requests, and the server's loop removes a connection.
use knpnl.Prelude.{
  ℕ, suc, ◌+◌, ◌<◌, ◌≡◌, ◌≢◌, refl, sym, subst, ap, ◌∙◌, false, List, [], ◌∷◌, ◌++◌, if◌then◌else◌,
  arith,
}
use knpnl.Net.Connection.{ConnectionState, connecting, connected, closing, closed}
use knpnl.Net.TcpServer.{Duty, established, handle_close, destroy, Request, update}
use knpnl.Net.Serving.{Serving, run_request}
use knpnl.Net.Serving.Tally.{
  tally, tally-append, tally_out, Each, Each-append, Each-weaken, Each-front, Each-both, Each-back,
  Each-head, Each-tail, Each-tally,
}
use knpnl.Net.Serving.Invariant.{
  is_established, asks_established, asks_destroy, removes_it, due_established, due_end, Proper,
  Begun, request, Inv,
}
use knpnl.Net.Serving.Closes.{close_connection-Inv}

Begun-rest :
    (xs : List Request) (r : Request) (ys : List Request)
    → Begun (xs ++ (r ∷ ys))
    → Begun (xs ++ ys)
Begun-rest [] r ys (request h b) = b
Begun-rest (x ∷ xs) r ys (request h b) =
    request (λ e. ground (arith, tally_out (asks_established x.connection) xs r ys, h e))
      (Begun-rest xs r ys b)

-- Behind a request that is not its `Established`, there is none for the connection.
Begun-behind :
    (xs : List Request) (r : Request) (ys : List Request)
    → Begun (xs ++ (r ∷ ys))
    → is_established r.duty ≡ false
    → tally (asks_established r.connection) ys ≡ 0
Begun-behind [] r ys (request h b) e = h e
Begun-behind (x ∷ xs) r ys (request h b) e = Begun-behind xs r ys b e

is_connecting : (t : ConnectionState) {n : ℕ} → suc n ≡ due_established t → t ≡ connecting
is_connecting connecting e = refl
is_connecting connected e = ground arith
is_connecting closing e = ground arith
is_connecting closed e = ground arith

is_closing : (t : ConnectionState) {n : ℕ} → suc n ≡ due_end t → t ≡ closing
is_closing connecting e = ground arith
is_closing connected e = ground arith
is_closing closing e = refl
is_closing closed e = ground arith

-- A loop is at its request `r`, with `xs` before it for other loops.
module _ (s : Serving) (xs : List Request) (r : Request) (ys : List Request)
    (e : s.server.asked ≡ xs ++ (r ∷ ys)) (f : Each (λ q. q.loop ≢ r.loop) xs) (v : Inv s) where
  all-Proper : Each (Proper s) (xs ++ (r ∷ ys))
  all-Proper = subst (Each (Proper s)) e v.requests

  this-Proper : Proper s r
  this-Proper = Each-head (Each-back xs all-Proper)

  rest-Proper : Each (Proper s) (xs ++ ys)
  rest-Proper =
      Each-append (Each-front xs (r ∷ ys) all-Proper) (Each-tail (Each-back xs all-Proper))

  all-Begun : Begun (xs ++ (r ∷ ys))
  all-Begun = subst Begun e v.in_turn

  out-opening :
      (o : ℕ)
      → o < s.next_object
      → (if asks_established o r
          then suc (tally (asks_established o) (xs ++ ys))
          else tally (asks_established o) (xs ++ ys))
        ≡ due_established (s.state o)
  out-opening o l =
      sym (tally_out (asks_established o) xs r ys)
      ∙ (ap (tally (asks_established o)) (sym e) ∙ v.opening o l)

  out-ending :
      (o : ℕ)
      → o < s.next_object
      → (if asks_destroy o r
            then suc (tally (asks_destroy o) (xs ++ ys))
            else tally (asks_destroy o) (xs ++ ys))
          + tally (removes_it o) s.removals
        ≡ due_end (s.state o)
  out-ending o l =
      ap (λ n. n + tally (removes_it o) s.removals)
        (sym (tally_out (asks_destroy o) xs r ys) ∙ ap (tally (asks_destroy o)) (sym e))
      ∙ v.ending o l

  pub established-connecting : r.duty ≡ established → s.state r.connection ≡ connecting
  established-connecting d = ground (arith, out-opening r.connection this-Proper.0)

  pub destroy-closing : r.duty ≡ destroy → s.state r.connection ≡ closing
  destroy-closing d = ground (arith, out-ending r.connection this-Proper.0)

  -- None of the requests before it is for its connection.
  front_others : tally (asks_established r.connection) xs ≡ 0
  front_others = Each-tally _ (
      Each-weaken (λ q p. ground (arith, p.0, p.1.1, this-Proper.1))
        (Each-both f (Each-front xs (r ∷ ys) all-Proper)))

  pub handle_close-connecting : r.duty ≡ handle_close → s.state r.connection ≢ connecting
  handle_close-connecting d = ground (
    arith,
    out-opening r.connection this-Proper.0,
    tally-append (asks_established r.connection) xs ys,
    front_others,
    Begun-behind xs r ys all-Begun,
  )

  abbrev left : Serving
  left = record s { server = record s.server { asked = xs ++ ys } }

  established-Inv :
      r.duty ≡ established → Inv (record left { state = update s.state r.connection connected })
  established-Inv d = record {
    numbers = v.numbers;
    opening = λ o l. ground (arith, out-opening o l, established-connecting d);
    ending = λ o l. ground (arith, out-ending o l, established-connecting d);
    in_map = λ o l k. ground (arith, v.in_map o l, established-connecting d);
    map_only = λ k c m.
        let h = v.map_only k c m in
        record { was_made = h.was_made; has_fd = h.has_fd; in_use = ground (arith, h.in_use) };
    requests = rest-Proper;
    in_turn = Begun-rest xs r ys all-Begun;
    to_remove = v.to_remove;
  }

  left-Inv : r.duty ≡ handle_close → Inv left
  left-Inv d = record {
    numbers = v.numbers;
    opening = λ o l. ground (arith, out-opening o l);
    ending = λ o l. ground (arith, out-ending o l);
    in_map = v.in_map;
    map_only = λ k c m.
        let h = v.map_only k c m in
        record { was_made = h.was_made; has_fd = h.has_fd; in_use = h.in_use };
    requests = rest-Proper;
    in_turn = Begun-rest xs r ys all-Begun;
    to_remove = v.to_remove;
  }

  destroy-Inv : r.duty ≡ destroy → Inv (record left { state = update s.state r.connection closed })
  destroy-Inv d = record {
    numbers = v.numbers;
    opening = λ o l. ground (arith, out-opening o l, destroy-closing d);
    ending = λ o l. ground (arith, out-ending o l, destroy-closing d);
    in_map = λ o l k. ground (arith, v.in_map o l, out-ending o l, destroy-closing d);
    map_only = λ k c m.
        let h = v.map_only k c m in
        record {
          was_made = h.was_made;
          has_fd = h.has_fd;
          in_use =
              ground (arith, h.in_use, out-ending r.connection this-Proper.0, destroy-closing d);
        };
    requests = rest-Proper;
    in_turn = Begun-rest xs r ys all-Begun;
    to_remove = v.to_remove;
  }

  pub run_request-Inv : Inv (run_request s r (xs ++ ys))
  unfolding run_request
  run_request-Inv = by_duty r.duty refl
    where
      by_duty : (d : Duty) → r.duty ≡ d → Inv (run_request s r (xs ++ ys))
      by_duty established d = rw (run_request, d) (established-Inv d)
      by_duty handle_close d =
          rw (run_request, d)
            (close_connection-Inv left r.connection this-Proper.0 (handle_close-connecting d)
              (left-Inv d))
      by_duty destroy d = rw (run_request, d) (destroy-Inv d)
