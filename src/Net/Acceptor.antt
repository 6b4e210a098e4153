-- ===== src/Net/Acceptor.antt =====
-- net/Acceptor.h and Acceptor.cpp, with net/Socket.cpp: the listening socket, and the loop that
-- accepts. `none` is a failed assertion, or fuel that has run out.
pub mod Accepting
pub mod Setup
mod Tests
use knpnl.Prelude.{
  ℕ, zero, suc, Bool, true, false, Option, none, some, List, [], ◌∷◌, ◌++◌, if◌then◌else◌, length,
}
use knpnl.Kernel.{Listener, AcceptResult, connection, no_more, accept_error}
use knpnl.Event.Poller.{Events, Channel, Poller, add}
use knpnl.Event.Channel
use knpnl.Net.TcpServer.{TcpServer, new_connection}

-- `mListening`, the channel, and the `mBinded` of `mListenSocket`.
pub record Acceptor : Type 0 where
  pub is_listening : Bool
  pub is_binded : Bool
  pub channel : Channel

-- The constructor, for what `socket` and `bind` give (`bound`: 0) and for what the memory of the
-- channel holds.
unfoldable pub new : Poller → ℕ → Bool → Events → Events → Option (Acceptor × Poller)
new p fd bound garbage garbage' =
    let ch = Channel.new fd garbage garbage' in
    if bound
    then (elim (add p ch) [
      | none ↦ none
      | some p' ↦ some (record { is_listening = false; is_binded = true; channel = ch }, p')
    ])
    else none

-- A call on the channel.
abbrev on_channel :
    (Channel → Poller → Option (Channel × Poller)) → Acceptor → Poller → Option (Acceptor × Poller)
on_channel f a p = elim (f a.channel p) [
  | none ↦ none
  | some (ch, p') ↦ some (record a { channel = ch }, p')
]

-- `Listen()`; `listening` is whether `listen` gives 0.
unfoldable pub listen : Bool → Acceptor → Poller → Option (Acceptor × Poller)
listen listening a p =
    if a.is_binded
    then (if listening
        then on_channel Channel.enable_read (record a { is_listening = true }) p
        else none)
    else none

-- The destructor, up to the `close`.
unfoldable pub destruct : Acceptor → Poller → Option (Acceptor × Poller)
destruct a p = elim (on_channel Channel.disable_all a p) [
  | none ↦ none
  | some (a', p') ↦ on_channel Channel.remove a' p'
]

-- What `handlerRead` works on: what the callback is for, and the descriptors it has closed.
pub record Served (X : Type 0) : Type 0 where
  pub state : X
  pub closed : List ℕ

module _ {X : Type 0} (callback : Option (X → ℕ → X)) where
  -- What becomes of a new descriptor: `newConnCallback`, if it is set, or `close`.
  unfoldable pub serve : Served X → ℕ → Served X
  serve v fd = elim callback [
    | none ↦ record v { closed = v.closed ++ (fd ∷ []) }
    | some f ↦ record v { state = f v.state fd }
  ]

  module _ (l : Listener) where
    open l use {S, accept4}

    -- `handlerRead()`: whether it ends with an error other than EAGAIN, what was served, and the
    -- socket.
    unfoldable pub handler_read : ℕ → S → Served X → Option (Bool × Served X × S)
    handler_read zero s v = none
    handler_read (suc n) s v = elim (accept4 s).0 [
      | connection fd ↦ handler_read n (accept4 s).1 (serve v fd)
      | no_more ↦ some (false, v, (accept4 s).1)
      | accept_error ↦ some (true, v, (accept4 s).1)
    ]

-- `std::bind(&TcpServer::newConnection, this, _1, _2)`, with the number of the next object.
unfoldable pub on_new_connection : TcpServer × ℕ → ℕ → TcpServer × ℕ
on_new_connection (s, object) fd = ((new_connection s object fd).0, suc object)
