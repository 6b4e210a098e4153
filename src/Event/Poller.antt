-- ===== src/Event/Poller.antt =====
-- event/Poller.h and Poller.cpp, with what `epoll` keeps for each descriptor. `none` is a failed
-- assertion.
use knpnl.Prelude.{
  ℕ, ◌*◌, Bool, true, false, not, ◌&&◌, ◌||◌, Option, none, some, List, [], ◌∷◌, if◌then◌else◌,
  ◌==◌, length,
}

-- A mask of <sys/epoll.h>, by the bits that the program names.
pub record Events : Type 0 where
  pub readable : Bool
  pub priority : Bool
  pub writable : Bool
  pub error : Bool
  pub hang_up : Bool
  pub peer_closed : Bool
  pub edge : Bool

-- The mask 0, `Channel::kNoneEvent`.
abbrev pub none_event : Events
none_event = record {
  readable = false;
  priority = false;
  writable = false;
  error = false;
  hang_up = false;
  peer_closed = false;
  edge = false;
}

-- `mEvent==kNoneEvent`
abbrev pub is_none : Events → Bool
is_none e = not (
    e.readable
    || (e.priority || (e.writable || (e.error || (e.hang_up || (e.peer_closed || e.edge))))))

-- What the poller reads and writes of a channel.
pub record Channel : Type 0 where
  pub fd : ℕ
  -- `mEvent`, the events that are asked for, and `rEvent`, those that happened.
  pub events : Events
  pub received : Events
  pub is_handling : Bool
  pub is_in_loop : Bool

-- `channelMap` (that it has the descriptor is what is asked of it), the masks that `epoll_ctl`
-- has set, and `eventList.size()`.
pub record Poller : Type 0 where
  pub has : ℕ → Bool
  pub interest : ℕ → Option Events
  pub list_size : ℕ

-- `MAX_EVENT_NUM`
abbrev pub max_event_num : ℕ
max_event_num = 1000

unfoldable pub new : Poller
new = record { has = λ fd. false; interest = λ fd. none; list_size = max_event_num }

abbrev pub update {ℓ} : {A : Type ℓ} → (ℕ → A) → ℕ → A → ℕ → A
update f k v j = if k == j then v else f j

unfoldable pub add : Poller → Channel → Option Poller
add p c =
    if p.has c.fd
    then none
    else some (record p {
      has = update p.has c.fd true;
      interest = update p.interest c.fd (some none_event);
    })

unfoldable pub mod_events : Poller → Channel → Events → Option Poller
mod_events p c op =
    if p.has c.fd then some (record p { interest = update p.interest c.fd (some op) }) else none

unfoldable pub delete : Poller → Channel → Option Poller
delete p c =
    if p.has c.fd && is_none c.events
    then some (record p { has = update p.has c.fd false; interest = update p.interest c.fd none })
    else none

-- `Find` for a channel that is in the map; for another one the function ends without a `return`.
unfoldable pub find : Poller → Channel → Option Bool
find p c = if p.has c.fd then some true else none

abbrev received_of : List (Channel × Events) → List Channel
received_of [] = []
received_of ((c, e) ∷ r) = record c { received = e } ∷ received_of r

-- `poll`, from what `epoll_wait` has reported: the active channels, and an event list that is
-- doubled when it was full.
unfoldable pub poll : Poller → List (Channel × Events) → Poller × List Channel
poll p reported = (
  (if length reported == p.list_size then record p { list_size = p.list_size * 2 } else p),
  received_of reported,
)
