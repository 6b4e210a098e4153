-- ===== src/Net/Acceptor/Accepting.antt =====
-- net/Acceptor.cpp, `handlerRead`, with the server's `newConnection` behind it.
use mathlib.Core.List.{Memᴰ, append_assoc, append-nil}
use mathlib.Core.List.Memᴰ.{not-nil, cases_cons}
use knpnl.Prelude.{
  ℕ, ◌≤◌, ◌==◌, Bool-cases, inl, inr, ◌⊎◌, zero, suc, ◌<◌, ◌≡◌, refl, ap, ◌∙◌, Bool, true, false,
  Option, some, List, [], ◌∷◌, ◌++◌, length, arith, sym,
}
use knpnl.Kernel.{Listener, AcceptResult, connection, no_more, accept_error, Accepted}
use knpnl.Kernel
use knpnl.Net.TcpServer.{TcpServer, TcpConnPtr, Request, established, new_connection}
use knpnl.Event.LoopThreadPool.{LoopThreadPool, get_next_loop}
use knpnl.Net.Acceptor.{Served, serve, handler_read, on_new_connection}

module _ {X : Type 0} (callback : Option (X → ℕ → X)) where
  -- The descriptors one after the other.
  unfoldable pub serve_all : List ℕ → Served X → Served X
  serve_all [] v = v
  serve_all (fd ∷ fds) v = serve_all fds (serve callback v fd)

  module _ (l : Listener) where
    open l use {S, accept4, pending, accept4_lem}

    -- `handlerRead` has ended and has served, in order, those that waited first; all of them,
    -- unless an error other than EAGAIN has come.
    pub record Handled (s : S) (v : Served X) (r : Option (Bool × Served X × S)) : Type 0 where
      pub broke : Bool
      pub now : List ℕ
      pub later : List ℕ
      pub left : S
      pub ended : r ≡ some (broke, serve_all now v, left)
      pub in_order : pending s ≡ now ++ later
      pub nothing_left : broke ≡ false → (later ≡ []) × (pending left ≡ [])

    after-Handled :
        (fd : ℕ) (s s' : S) (v : Served X) (r : Option (Bool × Served X × S))
        → pending s ≡ fd ∷ pending s'
        → Handled s' (serve callback v fd) r
        → Handled s v r
    unfolding serve_all
    after-Handled fd s s' v r e h = record {
      broke = h.broke;
      now = fd ∷ h.now;
      later = h.later;
      left = h.left;
      ended = h.ended;
      in_order = e ∙ ap (λ x. fd ∷ x) h.in_order;
      nothing_left = h.nothing_left;
    }

    at_end-Handled :
        (b : Bool) (s s' : S) (v : Served X)
        → (b ≡ false → (pending s ≡ []) × (pending s' ≡ []))
        → Handled s v (some (b, v, s'))
    unfolding serve_all
    at_end-Handled b s s' v h = record {
      broke = b;
      now = [];
      later = pending s;
      left = s';
      ended = refl;
      in_order = refl;
      nothing_left = h;
    }

    handler_read-Handled :
        (n : ℕ) (s : S) (v : Served X)
        → length (pending s) < n
        → Handled s v (handler_read callback l n s v)
    unfolding handler_read
    handler_read-Handled zero s v h = absurd (omega arith)
    handler_read-Handled (suc n) s v h =
        by_result (handler_read-Handled n (accept4 s).1) (accept4_lem s)
      where
        by_result :
            ((w : Served X)
              → length (pending (accept4 s).1) < n
              → Handled (accept4 s).1 w (handler_read callback l n (accept4 s).1 w))
            → Accepted pending s (accept4 s).0 (accept4 s).1
            → Handled s v (handler_read callback l (suc n) s v)
        by_result rest (Kernel.Accepted.taken fd e f) =
            rw (handler_read, e)
              (after-Handled fd s (accept4 s).1 v _ f (rest (serve callback v fd) (ground arith)))
        by_result rest (Kernel.Accepted.drained e f g) =
            rw (handler_read, e) (at_end-Handled false s (accept4 s).1 v (λ h. (f, g)))
        by_result rest (Kernel.Accepted.lost d e f) =
            rw (handler_read, e) (at_end-Handled true s (accept4 s).1 v (λ h. ground arith))

-- One `Established` for each descriptor, in the order of the descriptors, by the loops of the pool
-- in turn; the connections are numbered from `object` on.
unfoldable pub requests_for : LoopThreadPool → ℕ → List ℕ → List Request
requests_for pool object [] = []
requests_for pool object (fd ∷ fds) =
    let (pool', i) = get_next_loop pool in
    record { loop = i; duty = established; connection = object }
    ∷ requests_for pool' (suc object) fds

-- The map has a new connection for the descriptor, with a number from `object` on.
abbrev pub Knows : ℕ → TcpServer → ℕ → Type 0
Knows object s fd = (c : TcpConnPtr) × (s.conn_map fd ≡ some c) × (c.fd ≡ fd) × (object ≤ c.object)

-- The server knows the descriptors, and it has asked for one `Established` each.
pub record Serves (fds : List ℕ) (s : TcpServer) (object : ℕ) (s' : TcpServer) : Type 0 where
  pub known : (fd : ℕ) → Memᴰ fd fds → Knows object s' fd
  pub asked_each : s'.asked ≡ s.asked ++ requests_for s.thread_pool object fds

keeps_known :
    (s : TcpServer) (first object fd k : ℕ)
    → first ≤ object
    → Knows first s k
    → Knows first (new_connection s object fd).0 k
unfolding new_connection
keeps_known s first object fd k l (c, e, f, n) = elim (Bool-cases (fd == k)) [
  | inl h ↦ ((new_connection s object fd).1, ground arith, ground arith, l)
  | inr h ↦ (c, ground arith, f, n)
]

is_known : (s : TcpServer) (object fd : ℕ) → Knows object (new_connection s object fd).0 fd
unfolding new_connection
is_known s object fd = ((new_connection s object fd).1, ground arith, refl, omega arith)

asks_one :
    (s : TcpServer) (object fd : ℕ) (fds : List ℕ)
    → let s1 = (new_connection s object fd).0 in
      s1.asked ++ requests_for s1.thread_pool (suc object) fds
      ≡ s.asked ++ requests_for s.thread_pool object (fd ∷ fds)
unfolding new_connection requests_for get_next_loop
asks_one s object fd fds = append_assoc s.asked _ _

serve_server : TcpServer × ℕ → List ℕ → TcpServer × ℕ
serve_server x [] = x
serve_server x (fd ∷ fds) = serve_server (on_new_connection x fd) fds

-- Serving with the server's callback.
serve_all-server :
    (fds : List ℕ) (v : Served (TcpServer × ℕ))
    → (serve_all (some on_new_connection) fds v).state ≡ serve_server v.state fds
unfolding serve_all serve serve_server
serve_all-server [] v = refl
serve_all-server (fd ∷ fds) v =
    serve_all-server fds (record v { state = on_new_connection v.state fd })

still_known :
    (fds : List ℕ) (s : TcpServer) (first object k : ℕ)
    → first ≤ object
    → Knows first s k
    → Knows first (serve_server (s, object) fds).0 k
unfolding on_new_connection serve_server
still_known [] s first object k l h = h
still_known (fd ∷ fds) s first object k l h =
    still_known fds (new_connection s object fd).0 first (suc object) k (omega arith)
      (keeps_known s first object fd k l h)

-- The server serves one descriptor, and then the others.
known_one :
    (s : TcpServer) (object fd k : ℕ) (fds : List ℕ)
    → Serves fds
        (new_connection s object fd).0
        (suc object)
        (serve_server ((new_connection s object fd).0, suc object) fds).0
    → (k ≡ fd) ⊎ Memᴰ k fds
    → Knows object (serve_server ((new_connection s object fd).0, suc object) fds).0 k
known_one s object fd k fds rest (inl e) =
    still_known fds (new_connection s object fd).0 object (suc object) k (omega arith)
      (rw e (is_known s object fd))
known_one s object fd k fds rest (inr m) =
    let (c, e, f, n) = rest.known k m in (c, e, f, omega arith)

serve_server-Serves :
    (fds : List ℕ) (s : TcpServer) (object : ℕ)
    → Serves fds s object (serve_server (s, object) fds).0
unfolding on_new_connection serve_server requests_for
serve_server-Serves [] s object = record {
  known = λ fd m. absurd (not-nil m);
  asked_each = sym (append-nil s.asked);
}
serve_server-Serves (fd ∷ fds) s object =
    let rest = serve_server-Serves fds (new_connection s object fd).0 (suc object) in
    record {
      known = λ k m. known_one s object fd k fds rest (cases_cons m);
      asked_each = rest.asked_each ∙ asks_one s object fd fds;
    }

-- `handlerRead` with the server's `newConnection`, in as many rounds as connections wait and one
-- more: it ends, having served in their order the connections that waited first, which are all of
-- them unless an error other than EAGAIN has come; the server's map has a new connection of its
-- descriptor for each of them, and the server has asked, in this order and by nothing else, for
-- `Established` of one new connection each, of the loops of the pool in turn.
pub handler_read-Serves :
    (l : Listener) (s : l.S) (server : TcpServer) (object : ℕ) (cs : List ℕ)
    → let start : Served (TcpServer × ℕ) = record { state = (server, object); closed = cs } in
      (h : Handled
        (some on_new_connection)
        l
        s
        start
        (handler_read (some on_new_connection) l (suc (length (l.pending s))) s start))
      × Serves h.now server object (serve_all (some on_new_connection) h.now start).state.0
handler_read-Serves l s server object cs =
    let start : Served (TcpServer × ℕ) = record { state = (server, object); closed = cs } in
    let h =
      handler_read-Handled (some on_new_connection) l (suc (length (l.pending s))) s start
        (omega arith) in
    (h, rw (serve_all-server h.now start) (serve_server-Serves h.now server object))
