-- ===== src/Net/Connection.antt =====
-- net/TcpConnection.h and TcpConnection.cpp: the states of a connection, in the thread of its loop.
-- `none` is a failed assertion of the channel or of the poller.
pub mod Calls
pub mod Closing
pub mod Lifetime
pub mod Once
mod Tests
use knpnl.Prelude.{
  ℕ, zero, suc, ◌+◌, ◌-◌, ◌%◌, ◌^◌, Bool, true, false, Option, none, some, List, [], ◌∷◌, ◌++◌,
  if◌then◌else◌, ltb, ℤ, pos, negsuc,
}
use knpnl.Kernel.{Receiver, Sender}
use knpnl.Buffer.{FixedBuffer, init, used, read_ptr_move}
use knpnl.Buffer.ReadFd.{read_fd}
use knpnl.Event.Poller.{Channel, Poller, Events, is_none, add}
use knpnl.Event.Channel.{
  enable_read, enable_write, disable_write, disable_all, remove, handle_event, Callback, close,
  error, read, write, destroy as destroy_channel, new as new_channel,
}
use knpnl.Net.TcpConnection.{Outgoing, send_message}

-- `CONNECTION_STATE`
pub data ConnectionState : Type 0 where
  connecting connected closing closed : ConnectionState

-- `mState==CONNECTING||mState==CONNECTED`, the test of `handleClose`.
abbrev pub can_close : ConnectionState → Bool
can_close connecting = true
can_close connected = true
can_close closing = false
can_close closed = false

-- The sockets' states are of the types `R`, to read from, and `W`, to write to. `poller` is the
-- loop's, `completes` counts the write-complete callbacks that the loop has queued, `closes` the
-- calls of the close callback.
pub record Connection (R W : Type 0) : Type 0 where
  pub state : ConnectionState
  pub channel : Channel
  pub poller : Poller
  pub read_buffer : FixedBuffer
  pub outgoing : Outgoing
  pub input : R
  pub output : W
  pub completes : ℕ
  pub closes : ℕ

-- `DefaultOnMessageCallback`, which does not call `Send()`.
unfoldable pub default_on_message_callback :
    FixedBuffer → Outgoing → (FixedBuffer × Outgoing) × Bool
unfolding used read_ptr_move
default_on_message_callback b o = (((read_ptr_move b (used b)).0, o), false)

-- `int ret = sendMessage()`
unfoldable pub to_int : ℤ → ℤ
to_int (negsuc n) =
    if ltb (n % 2 ^ 32) (2 ^ 31) then negsuc (n % 2 ^ 32) else pos (2 ^ 32 - 1 - n % 2 ^ 32)
to_int (pos n) =
    if ltb (n % 2 ^ 32) (2 ^ 31) then pos (n % 2 ^ 32) else negsuc (2 ^ 32 - 1 - n % 2 ^ 32)

module _ {R W : Type 0} where
  -- The constructor, with the loop's poller, what is in memory (the state and two masks), the blocks
  -- of the two buffers, and the socket.
  unfoldable pub new :
      Poller → ConnectionState → Events → Events → List ℕ → List ℕ → ℕ → R → W → Connection R W
  unfolding new_channel init
  new p garbage e e' block block' fd i o = record {
    state = garbage;
    channel = new_channel fd e e';
    poller = p;
    read_buffer = init block;
    outgoing = record { buffer = init block'; file = [] };
    input = i;
    output = o;
    completes = 0;
    closes = 0;
  }

  -- A call on the channel.
  unfoldable pub on_channel :
      (Channel → Poller → Option (Channel × Poller)) → Connection R W → Option (Connection R W)
  on_channel f c = elim (f c.channel c.poller) [
    | none ↦ none
    | some (ch, p) ↦ some (record c { channel = ch; poller = p })
  ]

  -- `handleClose()`: the close callback tells the server.
  unfoldable pub close_open : Connection R W → Option (Connection R W)
  unfolding on_channel
  close_open c = elim (on_channel disable_all (record c { state = closing })) [
    | none ↦ none
    | some c' ↦ some (record c' { closes = suc c'.closes })
  ]

  unfoldable pub handle_close : Connection R W → Option (Connection R W)
  unfolding close_open
  handle_close c = if can_close c.state then close_open c else some c

  -- `mLoop->QueueInLoop(std::bind(writeCompleteCallback, …))`
  abbrev pub complete : Connection R W → Connection R W
  complete c = record c { completes = suc c.completes }

  -- What `sendInLoop` and `handleWrite` do with the result of `sendMessage`; `set` is whether
  -- there is a write-complete callback.
  unfoldable pub sent_in_loop : Bool → Connection R W → ℤ → Option (Connection R W)
  unfolding on_channel handle_close
  sent_in_loop set c (negsuc zero) = handle_close c
  sent_in_loop set c (negsuc (suc n)) = some c
  sent_in_loop set c (pos zero) = some (if set then complete c else c)
  sent_in_loop set c (pos (suc n)) = on_channel enable_write c

  unfoldable pub written : Bool → Connection R W → ℤ → Option (Connection R W)
  unfolding on_channel handle_close
  written set c (negsuc zero) = handle_close c
  written set c (negsuc (suc n)) = some c
  written set c (pos zero) = on_channel disable_write (if set then complete c else c)
  written set c (pos (suc n)) = some c

  -- `Established()`; the connect callback leaves what is modelled here alone.
  unfoldable pub established : Connection R W → Option (Connection R W)
  unfolding on_channel
  established c = elim (add c.poller c.channel) [
    | none ↦ none
    | some p ↦ elim (on_channel enable_read (record c { poller = p })) [
      | none ↦ none
      | some c' ↦ some (record c' { state = connected })
    ]
  ]

  -- `Destroy()`
  unfoldable pub destroy : Connection R W → Option (Connection R W)
  unfolding on_channel
  destroy c =
      if is_none c.channel.events
      then (elim (on_channel remove c) [
        | none ↦ none
        | some c' ↦ some (record c' { state = closed })
      ])
      else none

  -- `~TcpConnection()`, with the channel, which nothing else owns.
  unfoldable pub destruct : Connection R W → Option (Unit {0})
  unfolding destroy_channel
  destruct c = destroy_channel c.channel

-- The sockets, whether a write-complete callback is set, and the message callback: what it makes
-- of the two buffers, and whether it calls `Send()`.
module _ (r : Receiver) (k : Sender) (set : Bool)
    (on_message : FixedBuffer → Outgoing → (FixedBuffer × Outgoing) × Bool) where
  open r use {S as R}
  open k use {S as W}

  -- `sendInLoop()`
  unfoldable pub send_in_loop : Connection R W → Option (Connection R W)
  unfolding sent_in_loop
  send_in_loop c = elim (send_message k c.outgoing c.output) [
    | none ↦ none
    | some (ret, o, s) ↦ sent_in_loop set (record c { outgoing = o; output = s }) (to_int ret)
  ]

  -- `handleWrite()`
  unfoldable pub handle_write : Connection R W → Option (Connection R W)
  unfolding written
  handle_write c = elim (send_message k c.outgoing c.output) [
    | none ↦ none
    | some (ret, o, s) ↦ written set (record c { outgoing = o; output = s }) ret
  ]

  -- The message callback.
  unfoldable pub message : Connection R W → Option (Connection R W)
  unfolding send_in_loop
  message c =
      let out = on_message c.read_buffer c.outgoing in
      let c' = record c { read_buffer = out.0.0; outgoing = out.0.1 } in
      elim out.1 [ true ↦ send_in_loop c' | false ↦ some c' ]

  -- What `handleRead` does with the result of `recvMessage`: close on nothing and on an error.
  unfoldable pub received : Connection R W → ℤ → Option (Connection R W)
  unfolding handle_close message
  received c (negsuc n) = handle_close c
  received c (pos zero) = handle_close c
  received c (pos (suc n)) = message c

  -- `handleRead()`
  unfoldable pub handle_read : Connection R W → Option (Connection R W)
  unfolding received
  handle_read c = elim (read_fd r c.read_buffer c.input) [
    | none ↦ none
    | some (ret, b, s) ↦ received (record c { read_buffer = b; input = s }) ret
  ]

  -- The callbacks that the constructor sets in the channel; there is none for errors.
  unfoldable pub call : Option Callback → Connection R W → Option (Connection R W)
  unfolding handle_read handle_write handle_close
  call (some close) c = handle_close c
  call (some error) c = some c
  call (some read) c = handle_read c
  call (some write) c = handle_write c
  call none c = some c

  abbrev handling : Bool → Connection R W → Connection R W
  handling h c = record c { channel = record c.channel { is_handling = h } }

  -- The channel's event.
  unfoldable pub on_event : Events → Connection R W → Option (Connection R W)
  unfolding call
  on_event e c = elim (call (handle_event e) (handling true c)) [
    | none ↦ none
    | some c' ↦ some (handling false c')
  ]

  -- What may happen to a connection in its loop: an event, a `Send()`, and the close and the
  -- destruction that the server queues.
  pub data Happening : Type 0 where
    event : Events → Happening
    send close_queued destroy_queued : Happening

  unfoldable pub happen : Happening → Connection R W → Option (Connection R W)
  unfolding on_event send_in_loop handle_close destroy
  happen (event e) c = on_event e c
  happen send c = send_in_loop c
  happen close_queued c = handle_close c
  happen destroy_queued c = destroy c

  unfoldable pub happen_all : List Happening → Connection R W → Option (Connection R W)
  unfolding happen
  happen_all [] c = some c
  happen_all (h ∷ hs) c = elim (happen h c) [ none ↦ none | some c' ↦ happen_all hs c' ]
