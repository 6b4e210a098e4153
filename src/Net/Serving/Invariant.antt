-- ===== src/Net/Serving/Invariant.antt =====
-- What the server, its connections and the queues of the loops agree on.
use knpnl.Prelude.{
  ℕ, ◌+◌, ◌<◌, ◌≡◌, ◌⊎◌, refl, Bool, true, false, ◌&&◌, some, List, [], ◌∷◌, ◌++◌, ◌==◌, arith,
}
use knpnl.Event.LoopThreadPool.{LoopThreadPool}
use knpnl.Net.Connection.{ConnectionState, connecting, connected, closing, closed}
use knpnl.Net.TcpServer.{TcpConnPtr, Duty, established, handle_close, destroy, Request}
use knpnl.Net.Serving.{Serving, start}
use knpnl.Net.Serving.Tally.{tally, tally-snoc, Each, all_of_none, also, Each-weaken, Each-tally}

abbrev pub is_established : Duty → Bool
is_established established = true
is_established handle_close = false
is_established destroy = false

abbrev pub is_destroy : Duty → Bool
is_destroy established = false
is_destroy handle_close = false
is_destroy destroy = true

abbrev pub asks_established : ℕ → Request → Bool
asks_established o r = is_established r.duty && (r.connection == o)

abbrev pub asks_destroy : ℕ → Request → Bool
asks_destroy o r = is_destroy r.duty && (r.connection == o)

abbrev pub removes_it : ℕ → TcpConnPtr → Bool
removes_it o c = c.object == o

-- How many requests for `Established` are due in a state, and how many removals and `Destroy`s.
abbrev pub due_established : ConnectionState → ℕ
due_established connecting = 1
due_established connected = 0
due_established closing = 0
due_established closed = 0

abbrev pub due_end : ConnectionState → ℕ
due_end connecting = 0
due_end connected = 0
due_end closing = 1
due_end closed = 0

abbrev pub is_open : ConnectionState → Bool
is_open connecting = true
is_open connected = true
is_open closing = false
is_open closed = false

-- A request is for a connection that was made, and with its loop.
abbrev pub Proper : Serving → Request → Type 0
Proper s r = (r.connection < s.next_object) × (r.loop ≡ (s.object r.connection).io_loop)

abbrev pub Made : Serving → TcpConnPtr → Type 0
Made s c = (c.object < s.next_object) × (c ≡ s.object c.object)

-- Behind another request of a connection there is none for its `Established`.
pub data Begun : List Request → Type 0 where
  no_request : Begun []
  request :
      {r : Request} {rs : List Request}
      → (is_established r.duty ≡ false → tally (asks_established r.connection) rs ≡ 0)
      → Begun rs
      → Begun (r ∷ rs)

-- An entry of the map is a connection that is open, or whose removal is queued.
pub record Held (s : Serving) (fd : ℕ) (c : TcpConnPtr) : Type 0 where
  pub was_made : Made s c
  pub has_fd : c.fd ≡ fd
  pub in_use : (is_open (s.state c.object) ≡ true) ⊎ (0 < tally (removes_it c.object) s.removals)

pub record Inv (s : Serving) : Type 0 where
  pub numbers : (o : ℕ) → o < s.next_object → (s.object o).object ≡ o
  pub opening :
      (o : ℕ)
      → o < s.next_object
      → tally (asks_established o) s.server.asked ≡ due_established (s.state o)
  pub ending :
      (o : ℕ)
      → o < s.next_object
      → tally (asks_destroy o) s.server.asked + tally (removes_it o) s.removals
        ≡ due_end (s.state o)
  pub in_map :
      (o : ℕ)
      → o < s.next_object
      → (is_open (s.state o) ≡ true) ⊎ (0 < tally (removes_it o) s.removals)
      → s.server.conn_map (s.object o).fd ≡ some (s.object o)
  pub map_only : (fd : ℕ) (c : TcpConnPtr) → s.server.conn_map fd ≡ some c → Held s fd c
  pub requests : Each (Proper s) s.server.asked
  pub in_turn : Begun s.server.asked
  pub to_remove : Each (Made s) s.removals

pub start-Inv : (pool : LoopThreadPool) (nobody : TcpConnPtr) → Inv (start pool nobody)
unfolding start
start-Inv pool nobody = record {
  numbers = λ o l. absurd (omega arith);
  opening = λ o l. absurd (omega arith);
  ending = λ o l. absurd (omega arith);
  in_map = λ o l. absurd (omega arith);
  map_only = λ fd c h. absurd (ground arith);
  requests = all_of_none;
  in_turn = no_request;
  to_remove = all_of_none;
}

-- No request and no removal is for a connection that was not made yet.
pub new-opening : (s : Serving) → Inv s → tally (asks_established s.next_object) s.server.asked ≡ 0
new-opening s v = Each-tally _ (Each-weaken (λ r p. ground (arith, p)) v.requests)

pub new-ending : (s : Serving) → Inv s → tally (asks_destroy s.next_object) s.server.asked ≡ 0
new-ending s v = Each-tally _ (Each-weaken (λ r p. ground (arith, p)) v.requests)

pub new-removals : (s : Serving) → Inv s → tally (removes_it s.next_object) s.removals ≡ 0
new-removals s v = Each-tally _ (Each-weaken (λ r p. ground (arith, p)) v.to_remove)

pub Begun-snoc :
    (rs : List Request) (q : Request)
    → Each (λ r. is_established r.duty ≡ false → asks_established r.connection q ≡ false) rs
    → Begun rs
    → Begun (rs ++ (q ∷ []))
unfolding tally
Begun-snoc [] q a b = request (λ e. refl) no_request
Begun-snoc (r ∷ rs) q (also p a) (request h b) =
    request (λ e. ground (arith, tally-snoc (asks_established r.connection) rs q, h e, p e))
      (Begun-snoc rs q a b)
