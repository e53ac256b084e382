-- ===== src/Dhcp/Messages.antt =====
-- The messages of the client: pyroute2/dhcp/messages.py. Options that no handler reads are left
-- out, with the list of requested parameters.
use pyroute.Prelude.{ℕ, Bool, true, false, Option, some, none, if◌then◌else◌}
use pyroute.Dhcp.Fsm.{State, rebooting, renewing, same_state}
use pyroute.Dhcp.Leases.{Lease, ℤ}

pub data MessageType : Type 0 where
  discover_type offer_type request_type decline_type ack_type nak_type release_type inform_type :
      MessageType

-- `none` for an address that is left at its default: broadcast, and 0.0.0.0 for the source.
pub record SentDhcpMessage : Type 0 where
  pub message_type : MessageType
  pub broadcast : Bool
  pub ciaddr : Option ℕ
  pub requested_ip : Option ℕ
  pub server_id : Option ℕ
  pub eth_dst : Option ℕ
  pub ip_dst : Option ℕ
  pub ip_src : Option ℕ
  -- Set when it is sent.
  pub secs : ℕ
  pub xid : ℕ

-- `message_type`, `server_id` and the times are options, which a server may leave out.
pub record ReceivedDhcpMessage : Type 0 where
  pub xid : ℕ
  pub message_type : Option MessageType
  pub yiaddr : ℕ
  pub eth_src : ℕ
  pub server_id : Option ℕ
  pub lease_time : Option ℤ
  pub renewal_time : Option ℤ
  pub rebinding_time : Option ℤ

-- A broadcast of a type, and no more.
abbrev pub plain : MessageType → SentDhcpMessage
plain t = record {
  message_type = t;
  broadcast = true;
  ciaddr = none;
  requested_ip = none;
  server_id = none;
  eth_dst = none;
  ip_dst = none;
  ip_src = none;
  secs = 0;
  xid = 0;
}

unfoldable pub discover : SentDhcpMessage
discover = plain discover_type

unfoldable pub offer_request : ReceivedDhcpMessage → Option ℕ → Option SentDhcpMessage
offer_request offer none = none
offer_request offer (some server) =
    some (record (plain request_type) { requested_ip = some offer.yiaddr; server_id = some server })

-- `none` is the KeyError of an offer with no server id.
unfoldable pub request_for_offer : ReceivedDhcpMessage → Option SentDhcpMessage
request_for_offer offer = offer_request offer offer.server_id

-- `lease.server_id` raises MissingOptionError, here `none`, when the ack did not set it.
unfoldable pub renewal_request : Lease → Option ℕ → Option SentDhcpMessage
renewal_request lease none = none
renewal_request lease (some server) = some (record (plain request_type) {
  broadcast = false;
  ciaddr = some lease.ip;
  eth_dst = some lease.server_mac;
  ip_dst = some server;
  ip_src = some lease.ip;
})

unfoldable pub request_for_lease : Lease → State → Option SentDhcpMessage
request_for_lease lease s =
    if same_state s rebooting
    then some (record (plain request_type) { requested_ip = some lease.ip })
    else if same_state s renewing
    then renewal_request lease lease.server_id
    else some (record (plain request_type) { ciaddr = some lease.ip })

unfoldable pub release_to : Lease → Option ℕ → Option SentDhcpMessage
release_to lease none = none
release_to lease (some server) = some (record (plain release_type) {
  broadcast = false;
  ciaddr = some lease.ip;
  server_id = some server;
  eth_dst = some lease.server_mac;
  ip_dst = some server;
  ip_src = some lease.ip;
})

unfoldable pub release : Lease → Option SentDhcpMessage
release lease = release_to lease lease.server_id
