-- ===== src/Net/Serving/Assertions.antt =====
-- What a server's removals and requests find when they are run, however the loops interleave: the
-- assertion of `removeInLoop`, and the states of the connections. The assertions of the handlers on
-- their channels are not of this model: see Net/Connection.
use knpnl.Prelude.{ℕ, ◌<◌, true, some, ◌⊎◌, inl, ◌≡◌, ◌≢◌, refl, none, List, ◌∷◌, ◌++◌, arith}
use knpnl.Event.LoopThreadPool.{LoopThreadPool}
use knpnl.Net.Connection.{ConnectionState, connecting, closing}
use knpnl.Net.TcpServer.{
  TcpConnPtr, Duty, established, handle_close, destroy, Request, remove_in_loop,
}
use knpnl.Net.Serving.{
  Serving, start, Step, accepts, calls_close, runs, peer_closes, removes, Reach, here, next,
}
use knpnl.Net.Serving.Tally.{Each, tally}
use knpnl.Net.Serving.Invariant.{is_open, removes_it, Inv, start-Inv}
use knpnl.Net.TcpServer.Handover.{remove_in_loop_asks}
use knpnl.Net.Serving.Accepts.{accept-Inv}
use knpnl.Net.Serving.Closes.{close_connection-Inv, close-Inv}
use knpnl.Net.Serving.Runs.{
  run_request-Inv, established-connecting, destroy-closing, handle_close-connecting,
}
use knpnl.Net.Serving.Removes.{remove_in_loop-Inv, still_in_map}

Step-Inv : {s t : Serving} → Step s t → Inv s → Inv t
Step-Inv {s} (accepts fd h) v = accept-Inv s fd h v
Step-Inv {s} (calls_close o l) v = close-Inv s o l v
Step-Inv {s} (runs xs r ys e f) v = run_request-Inv s xs r ys e f v
Step-Inv {s} (peer_closes o l e) v = close_connection-Inv s o l (ground arith) v
Step-Inv {s} (removes c cs server e h) v = remove_in_loop-Inv s c cs e v server h

Reach-Inv :
    (pool : LoopThreadPool) (nobody : TcpConnPtr) {s : Serving}
    → Reach (start pool nobody) s
    → Inv s
Reach-Inv pool nobody here = start-Inv pool nobody
Reach-Inv pool nobody (next r st) = Step-Inv st (Reach-Inv pool nobody r)

-- The state in which a request finds its connection: `Established` a new one, `Destroy` one that is
-- closing, and `handleClose` none that is not established yet.
abbrev pub Finds : Duty → ConnectionState → Type 0
Finds established t = t ≡ connecting
Finds handle_close t = t ≢ connecting
Finds destroy t = t ≡ closing

-- The server's next removal succeeds, and so does the next request of each loop; a connection that
-- is open is in the map, and what is in the map is open, or waits for its removal.
pub record Succeeds (s : Serving) : Type 0 where
  pub removal :
      (c : TcpConnPtr) (cs : List TcpConnPtr)
      → s.removals ≡ c ∷ cs
      → remove_in_loop s.server c ≢ none
  pub duty :
      (xs : List Request) (r : Request) (ys : List Request)
      → s.server.asked ≡ xs ++ (r ∷ ys)
      → Each (λ q. q.loop ≢ r.loop) xs
      → Finds r.duty (s.state r.connection)
  pub open_in_map :
      (o : ℕ)
      → o < s.next_object
      → is_open (s.state o) ≡ true
      → s.server.conn_map (s.object o).fd ≡ some (s.object o)
  pub map_only :
      (fd : ℕ) (c : TcpConnPtr)
      → s.server.conn_map fd ≡ some c
      → (is_open (s.state c.object) ≡ true) ⊎ (0 < tally (removes_it c.object) s.removals)

finds :
    (s : Serving) (xs : List Request) (r : Request) (ys : List Request)
    → s.server.asked ≡ xs ++ (r ∷ ys)
    → Each (λ q. q.loop ≢ r.loop) xs
    → Inv s
    → Finds r.duty (s.state r.connection)
finds s xs r ys e f v = by_duty r.duty refl
  where
    by_duty : (d : Duty) → r.duty ≡ d → Finds r.duty (s.state r.connection)
    by_duty established h = rw h (established-connecting s xs r ys e f v h)
    by_duty handle_close h = rw h (handle_close-connecting s xs r ys e f v h)
    by_duty destroy h = rw h (destroy-closing s xs r ys e f v h)

-- In every state that a server may reach, whatever connections come, are closed by their peers or
-- by calls of `Close`, and however the server's loop and the loops of the connections interleave:
-- the next `removeInLoop` does not fail its assertion; and when a loop comes to the oldest of its
-- requests, `Established` finds a connection that is connecting, `Destroy` one that is closing,
-- and `handleClose` none that is still connecting; each open connection is in the server's map
-- under its descriptor, and each entry of the map is open or waits for its removal.
pub Reach-Succeeds :
    (pool : LoopThreadPool) (nobody : TcpConnPtr) {s : Serving}
    → Reach (start pool nobody) s
    → Succeeds s
Reach-Succeeds pool nobody {s} r =
    let v = Reach-Inv pool nobody r in
    record {
      removal = λ c cs e. ground (arith, remove_in_loop_asks s.server c (still_in_map s c cs e v));
      duty = λ xs q ys e f. finds s xs q ys e f v;
      open_in_map = λ o l h. v.in_map o l (inl h);
      map_only = λ fd c e. (v.map_only fd c e).in_use;
    }
