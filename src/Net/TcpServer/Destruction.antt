-- ===== src/Net/TcpServer/Destruction.antt =====
-- net/TcpServer.cpp: the destructor, and what it asks of connections that are left.
use mathlib.Core.List.{append_assoc, append-nil}
use knpnl.Prelude.{ℕ, ◌≡◌, refl, sym, ap, ◌∙◌, true, Option, none, some, List, [], ◌∷◌, ◌++◌, map}
use knpnl.Event.Poller.{add}
use knpnl.Net.Connection.{Connection}
use knpnl.Net.Connection
use knpnl.Net.TcpServer.{TcpServer, TcpConnPtr, Request, established, destroy_all, ask}

-- The connections are in the map under their descriptors.
abbrev pub InMap : (ℕ → Option TcpConnPtr) → List TcpConnPtr → Type 0
InMap conn_map [] = Unit
InMap conn_map (c ∷ cs) = (conn_map c.fd ≡ some c) × InMap conn_map cs

abbrev pub setup : TcpConnPtr → Request
setup c = record { loop = c.io_loop; duty = established; connection = c.object }

destroy_all-next :
    (s : TcpServer) (c : TcpConnPtr) (fds : List ℕ)
    → s.conn_map c.fd ≡ some c
    → destroy_all (c.fd ∷ fds) s ≡ destroy_all fds (ask s established c)
unfolding destroy_all
destroy_all-next s c fds h = rw (destroy_all, h) refl

-- A connection that the poller has cannot be established again.
pub established_again :
    {R W : Type 0} (c : Connection R W)
    → c.poller.has c.channel.fd ≡ true
    → Connection.established c ≡ none
unfolding Connection.established add
established_again c h = rw (Connection.established, add, h) refl

-- The destructor asks the loop of each connection that is left for `Established`.
pub destroy_all_asks :
    (s : TcpServer) (cs : List TcpConnPtr)
    → InMap s.conn_map cs
    → (destroy_all (map (λ (c : TcpConnPtr). c.fd) cs) s).asked ≡ s.asked ++ map setup cs
unfolding destroy_all
destroy_all_asks s [] h = sym (append-nil s.asked)
destroy_all_asks s (c ∷ cs) (h, hs) =
    ap (λ (t : TcpServer). t.asked) (destroy_all-next s c (map (λ (c : TcpConnPtr). c.fd) cs) h)
    ∙ (destroy_all_asks (ask s established c) cs hs
        ∙ append_assoc s.asked (setup c ∷ []) (map setup cs))
