-- ===== src/Dhcp/Machine.antt =====
-- The state of the DHCP client, the exceptions of its handlers and its sender: the attributes of
-- `AsyncDHCPClient` in pyroute2/dhcp/client.py, `_send_message` and `_send_forever`. `hooks` lists the
-- triggers whose hooks were run, `sent` what the socket was given.
use pyroute.Prelude.{
  ℕ, ◌-◌, Bool, true, false, not, ◌&&◌, Option, some, none, List, [], ◌∷◌, ◌++◌, min, if◌then◌else◌,
}
use pyroute.Dhcp.Fsm.{State, off, same_state}
use pyroute.Dhcp.Xids.{for_state}
use pyroute.Dhcp.Leases.{Lease, LeaseTimers, no_timers}
use pyroute.Dhcp.Messages.{MessageType, SentDhcpMessage, release_type}

pub data Trigger : Type 0 where
  bound_trigger unbound renewed rebound expired_trigger : Trigger

-- `done` is no exception.
pub data Exit : Type 0 where
  done value_error assertion_error attribute_error key_error missing_option : Exit

pub record Client : Type 0 where
  pub state : State
  pub lease : Option Lease
  pub sendq : List (Option SentDhcpMessage)
  -- `msg_to_send` of `_send_forever`.
  pub msg_to_send : Option SentDhcpMessage
  pub lease_timers : LeaseTimers
  -- The delay of the task that will call `reset`.
  pub state_watchdog : Option ℕ
  -- Which events of `_states` are set.
  pub states : State → Bool
  pub last_state_change : ℕ
  pub xid : Option ℕ
  pub clock : ℕ
  pub hooks : List Trigger
  -- What `_send_message` gave to the socket.
  pub sent : List SentDhcpMessage
  -- The exception that ended the sender, if any.
  pub sender : Exit

-- `__init__`.
unfoldable pub new_client : ℕ → Client
new_client now = record {
  state = off;
  lease = none;
  sendq = [];
  msg_to_send = none;
  lease_timers = no_timers;
  state_watchdog = none;
  states = λ s. false;
  last_state_change = now;
  xid = none;
  clock = now;
  hooks = [];
  sent = [];
  sender = done;
}

infixl 5 ◌>>=◌
unfoldable pub ◌>>=◌ : Client × Exit → (Client → Client × Exit) → Client × Exit
(c, done) >>= k = k c
(c, value_error) >>= k = (c, value_error)
(c, assertion_error) >>= k = (c, assertion_error)
(c, attribute_error) >>= k = (c, attribute_error)
(c, key_error) >>= k = (c, key_error)
(c, missing_option) >>= k = (c, missing_option)

abbrev pub is_done : Exit → Bool
is_done done = true
is_done e = false

-- What comes of a message: it is held back, it goes out, or an exception ends the sender.
pub data Emission : Type 0 where
  nothing : Emission
  gone : SentDhcpMessage → Emission
  failed : Exit → Emission

abbrev pub stamp : Client → ℕ → SentDhcpMessage → SentDhcpMessage
stamp c x m = record m { secs = min (c.clock - c.last_state_change) 0xffff; xid = x }

-- `_send_message`, with the id that carries the state.
unfoldable pub stamped : Client → SentDhcpMessage → Option ℕ → Emission
stamped c m none = failed assertion_error
stamped c m (some x) = gone (stamp c x m)

unfoldable pub send_with : Client → SentDhcpMessage → Option ℕ → Emission
send_with c m none = failed attribute_error
send_with c m (some x) = stamped c m (for_state x c.state)

unfoldable pub send_message : Client → SentDhcpMessage → Emission
send_message c m = send_with c m c.xid

-- `wait_for_msg_to_send`, or the end of the interval on an empty queue.
unfoldable pub next_to_send : Client → List (Option SentDhcpMessage) → Client
next_to_send c [] = c
next_to_send c (m ∷ ms) = record c { sendq = ms; msg_to_send = m }

abbrev pub is_release : MessageType → Bool
is_release release_type = true
is_release t = false

unfoldable pub emit : Client → Option SentDhcpMessage → Emission
emit c none = nothing
emit c (some m) =
    if not (is_release m.message_type) && same_state c.state off then nothing else send_message c m

unfoldable pub record_sent : Client → Emission → Client
record_sent c nothing = c
record_sent c (gone m) = record c { sent = c.sent ++ m ∷ [] }
record_sent c (failed e) = record c { sender = e }

unfoldable pub round : Client → List (Option SentDhcpMessage) → Client
round c q = let next = next_to_send c q in record_sent next (emit next next.msg_to_send)

-- A round of `_send_forever`, which an exception ends.
unfoldable pub send_round : Client → Client
send_round c = if is_done c.sender then round c c.sendq else c

-- The rounds that are left when the client is off: one for each message of the queue.
unfoldable pub drain : Client → List (Option SentDhcpMessage) → Client
drain c [] = c
drain c (m ∷ ms) = let rest = drain (round c (m ∷ ms)) ms in if is_done c.sender then rest else c
