-- ===== src/Dhcp/Client/Exiting.antt =====
-- `__aexit__`: what is left of the client, and what it sends.
use pyroute.Prelude.{
  ℕ, ◌<◌, ◌≡◌, Bool, true, false, Option, some, none, List, [], ◌∷◌, ◌++◌, if◌then◌else◌,
}
use pyroute.Dhcp.Fsm.{off}
use pyroute.Dhcp.Xids.{for_state, request_state}
use pyroute.Dhcp.Leases.{Lease, no_timers, expired}
use pyroute.Dhcp.Messages.{SentDhcpMessage, release}
use pyroute.Dhcp.Machine.{
  Client, Exit, done, value_error, assertion_error, attribute_error, key_error, missing_option,
  is_release, stamp,
}

-- A message goes out while the client is off only if it is a RELEASE.
abbrev pub released :
    (SentDhcpMessage → SentDhcpMessage) → Option SentDhcpMessage → List SentDhcpMessage
released stamp none = []
released stamp (some m) = if is_release m.message_type then stamp m ∷ [] else []

abbrev pub releases :
    (SentDhcpMessage → SentDhcpMessage) → List (Option SentDhcpMessage) → List SentDhcpMessage
releases stamp [] = []
releases stamp (m ∷ ms) = released stamp m ++ releases stamp ms

-- The client is off, its sender runs, and its id carries this state.
abbrev IsLeaving : ℕ → Client → Type 0
IsLeaving x c =
    (c.state ≡ off)
    × (c.sender ≡ done)
    × ((own : ℕ) × (c.xid ≡ some own) × (for_state own off ≡ some x))

abbrev after_round : ℕ → Client → Option SentDhcpMessage → List (Option SentDhcpMessage) → Client
after_round x c m ms = record c {
  sendq = ms;
  msg_to_send = m;
  sent = c.sent ++ released (stamp c x) m;
}

with_sent : Client → List SentDhcpMessage → Client
with_sent c l = record c { sent = l }

-- The client as it leaves: OFF from now on.
abbrev pub turned_off : Client → Client
turned_off c = record c { state = off; last_state_change = c.clock }

-- The RELEASE that an exit adds to the queue: where the configuration asks for it, and the lease
-- is there and has not expired.
abbrev pub goodbye : Bool → ℕ → Option Lease → List (Option SentDhcpMessage)
goodbye false now l = []
goodbye true now none = []
goodbye true now (some lease) = if expired lease now then [] else release lease ∷ []

abbrev pub NamesServer : Option Lease → Type 0
NamesServer none = Unit
NamesServer (some lease) = (s : ℕ) × (lease.server_id ≡ some s)

-- The client that exited: off, with no timers and no id, and of the queue only the RELEASE
-- messages went out, each with an id that carries OFF.
abbrev pub Closed : Client → List (Option SentDhcpMessage) → Client × Exit → Type 0
Closed c q (d, done) =
    (d.state ≡ off)
    × (d.lease_timers ≡ no_timers)
    × (d.xid ≡ none)
    × ((x : ℕ) × (request_state x ≡ some off)
        × (d.sent ≡ c.sent ++ releases (stamp (turned_off c) x) q))
Closed c q (d, value_error) = ⊥
Closed c q (d, assertion_error) = ⊥
Closed c q (d, attribute_error) = ⊥
Closed c q (d, key_error) = ⊥
Closed c q (d, missing_option) = ⊥

-- The sender has not failed, and the id fits.
abbrev pub CanSend : Client → Type 0
CanSend c = (c.sender ≡ done) × ((x : ℕ) × (c.xid ≡ some x) × (x < 0xffff_ffff))
