-- ===== src/Net/Serving/Removes.antt =====
-- net/TcpServer.cpp: the server's loop removes a connection.
use knpnl.Prelude.{ℕ, suc, ◌≡◌, refl, subst, ap, ◌∙◌, some, List, [], ◌∷◌, if◌then◌else◌, arith}
use knpnl.Net.TcpServer.{TcpServer, TcpConnPtr, destroy, remove_in_loop}
use knpnl.Net.Serving.{Serving}
use knpnl.Net.Serving.Tally.{
  tally, tally-snoc, tally_out, Each, all_of_none, also, Each-append, Each-weaken, Each-head,
  Each-tail,
}
use knpnl.Net.Serving.Invariant.{
  asks_established, asks_destroy, removes_it, Made, Inv, Held, Begun-snoc,
}
use knpnl.Net.TcpServer.Handover.{remove_in_loop_asks, without}

-- The server without the connection, which is to be destroyed.
abbrev removed : Serving → TcpConnPtr → List TcpConnPtr → Serving
removed s c cs = record s { server = without s.server c; removals = cs }

module _ (s : Serving) (c : TcpConnPtr) (cs : List TcpConnPtr) (e : s.removals ≡ c ∷ cs)
    (v : Inv s) where
  all-Made : Each (Made s) (c ∷ cs)
  all-Made = subst (Each (Made s)) e v.to_remove

  this-Made : Made s c
  this-Made = Each-head all-Made

  counts :
      (o : ℕ)
      → tally (removes_it o) s.removals
        ≡ (if removes_it o c then suc (tally (removes_it o) cs) else tally (removes_it o) cs)
  counts o = ap (tally (removes_it o)) e ∙ tally_out (removes_it o) [] c cs

  pub still_in_map : s.server.conn_map c.fd ≡ some (s.object c.object)
  still_in_map = ground (arith, v.in_map c.object this-Made.0, counts c.object, this-Made.1)

  removed-Held :
      (k : ℕ) (x : TcpConnPtr)
      → (removed s c cs).server.conn_map k ≡ some x
      → Held (removed s c cs) k x
  removed-Held k x m =
      let h = v.map_only k x (ground arith) in
      record {
        was_made = h.was_made;
        has_fd = h.has_fd;
        in_use = ground (arith, h.in_use, h.was_made, h.has_fd, counts x.object, this-Made);
      }

  removed-Inv : Inv (removed s c cs)
  removed-Inv = record {
    numbers = v.numbers;
    opening = λ o l. ground (
      arith,
      tally-snoc (asks_established o) s.server.asked
          (record { loop = c.io_loop; duty = destroy; connection = c.object }),
      v.opening o l,
    );
    ending = λ o l. ground (
      arith,
      tally-snoc (asks_destroy o) s.server.asked
          (record { loop = c.io_loop; duty = destroy; connection = c.object }),
      v.ending o l,
      counts o,
    );
    in_map = λ o l k. ground (
      arith,
      v.in_map o l,
      counts o,
      v.ending o l,
      v.numbers o l,
      v.numbers c.object this-Made.0,
      still_in_map,
    );
    map_only = removed-Held;
    requests = Each-append v.requests (also (ground (arith, this-Made.1, this-Made.0)) all_of_none);
    in_turn = Begun-snoc s.server.asked _ (Each-weaken (λ r p e. refl) v.requests) v.in_turn;
    to_remove = Each-tail all-Made;
  }

  pub remove_in_loop-Inv :
      (server : TcpServer)
      → remove_in_loop s.server c ≡ some server
      → Inv (record s { server = server; removals = cs })
  remove_in_loop-Inv server h =
      subst (λ x. Inv (record s { server = x; removals = cs }))
        (ground (arith, remove_in_loop_asks s.server c still_in_map)) removed-Inv
