-- ===== src/Event/Channel.antt =====
-- event/Channel.h and Channel.cpp: what a channel asks of the poller and whom an event is given to.
pub mod Interest
use knpnl.Prelude.{ℕ, Bool, true, false, not, ◌&&◌, ◌||◌, Option, none, some, if◌then◌else◌}
use knpnl.Event.Poller.{Events, none_event, is_none, Channel, Poller, mod_events, delete}

-- The constructor; `mEvent` and `rEvent` are what was in memory.
unfoldable pub new : ℕ → Events → Events → Channel
new fd garbage garbage' = record {
  fd = fd;
  events = garbage;
  received = garbage';
  is_handling = false;
  is_in_loop = true;
}

-- `kReadEvent | kEPollET` and `kWriteEvent | kEPollET`
abbrev pub read_event : Events
read_event = record none_event { readable = true; priority = true; edge = true }

abbrev pub write_event : Events
write_event = record none_event { writable = true; edge = true }

-- A change of `mEvent`, and `ModChannel`.
abbrev ask : Channel → Poller → Events → Option (Channel × Poller)
ask c p e = elim (mod_events p (record c { events = e }) e) [
  | none ↦ none
  | some p' ↦ some (record c { events = e }, p')
]

unfoldable pub enable_read : Channel → Poller → Option (Channel × Poller)
unfolding mod_events
enable_read c p = ask c p read_event

unfoldable pub disable_read : Channel → Poller → Option (Channel × Poller)
unfolding mod_events
disable_read c p = ask c p (record c.events { readable = false; priority = false })

unfoldable pub enable_write : Channel → Poller → Option (Channel × Poller)
unfolding mod_events
enable_write c p = ask c p write_event

unfoldable pub disable_write : Channel → Poller → Option (Channel × Poller)
unfolding mod_events
disable_write c p = ask c p (record c.events { writable = false })

unfoldable pub disable_all : Channel → Poller → Option (Channel × Poller)
unfolding mod_events
disable_all c p = ask c p none_event

-- `Remove`
unfoldable pub remove : Channel → Poller → Option (Channel × Poller)
unfolding delete
remove c p =
    if c.is_handling
    then none
    else (elim (delete p c) [ none ↦ none | some p' ↦ some (record c { is_in_loop = false }, p') ])

-- `~Channel()`: `none` is a failed assertion.
unfoldable pub destroy : Channel → Option (Unit {0})
destroy c = if c.is_handling then none else if c.is_in_loop then none else some tt

pub data Callback : Type 0 where
  close error read write : Callback

-- The callback that `HandleEventWithGuard` calls for the received events, if it is set.
unfoldable pub handle_event : Events → Option Callback
handle_event e =
    if e.hang_up && not e.readable
    then some close
    else if e.error
    then some error
    else if e.peer_closed || (e.priority || e.readable)
    then some read
    else if e.writable
    then some write
    else none

-- `isGuarded` and `mGuardPtr`: no guard, or one whose object is there or gone.
pub data Guard : Type 0 where
  unguarded : Guard
  guarded : (alive : Bool) → Guard

-- `Guard(sp)`, `UnGuard()`, and the end of the object that is guarded.
unfoldable pub guard : Guard → Guard
guard g = guarded true

unfoldable pub unguard : Guard → Guard
unguard g = unguarded

unfoldable pub object_ends : Guard → Guard
object_ends unguarded = unguarded
object_ends (guarded alive) = guarded false

-- `HandleEvent()`
unfoldable pub handle_guarded : Guard → Events → Option Callback
unfolding handle_event
handle_guarded unguarded e = handle_event e
handle_guarded (guarded true) e = handle_event e
handle_guarded (guarded false) e = none
