-- ===== src/Dhcp/Client/Tests.antt =====
-- A client with a lease of 100 from the server 9, and one that requests an offer.
use pyroute.Prelude.{
  ℕ, ◌<◌, ◌≡◌, refl, subst, true, false, Option, some, none, [], ◌∷◌, if◌then◌else◌, arith,
}
use pyroute.Dhcp.Fsm.{
  State, rebooting, requesting, selecting, bound, renewing, rebinding, same_state,
}
use pyroute.Dhcp.Xids.{
  make_xid, request_state, for_state, matches, random_part, request_state-for_state,
}
use pyroute.Dhcp.Leases.{ℤ, pos, Lease, no_timers}
use pyroute.Dhcp.Messages.{ReceivedDhcpMessage, ack_type, offer_type, nak_type}
use pyroute.Dhcp.Client.{
  aenter, bootstrap, process_typed, check_xid, handle, ack_received, acked, bind_lease, set_lease,
  trigger_of, process_msg, nak_received, renew, rebind, expire_lease, is_requesting,
}
use pyroute.Dhcp.Machine.{Client, done, missing_option, assertion_error, new_client}
use pyroute.Dhcp.Client.Invariant.{IsSound, Sound}
use pyroute.Dhcp.Client.Answers.{IsAnswer, after, grants_lease, process_msg-Sound}
use pyroute.Dhcp.Client.Reachable.{enters, steps, bootstraps, receives, reachable-IsSound}
use pyroute.Dhcp.Client.Due.{renewal_due, rebinding_due, expiration_due}
use pyroute.Dhcp.Client.Raising.{nak_received_unleased}

abbrev timeouts : State → Option ℕ
timeouts s =
    if same_state s rebooting then some 10 else if same_state s requesting then some 30 else none

abbrev as_is : ℤ → ℤ
as_is z = z

abbrev lease : Lease
lease = record {
  ip = 5;
  server_mac = 7;
  obtained = 0;
  server_id = some 9;
  lease_time = pos 100;
  renewal_time = none;
  rebinding_time = none;
}

abbrev leased : Client
leased = record {
  state = bound;
  lease = some lease;
  sendq = none ∷ [];
  msg_to_send = none;
  lease_timers = record { renewal = some 50; rebinding = some 80; expiration = some 100 };
  state_watchdog = none;
  states = λ s. same_state s bound;
  last_state_change = 0;
  xid = some 0x1230;
  clock = 10;
  hooks = [];
  sent = [];
  sender = done;
}

abbrev asking : Client
asking = record {
  state = requesting;
  lease = none;
  sendq = [];
  msg_to_send = none;
  lease_timers = no_timers;
  state_watchdog = some 30;
  states = λ s. same_state s requesting;
  last_state_change = 0;
  xid = some 0x1230;
  clock = 10;
  hooks = [];
  sent = [];
  sender = done;
}

leased-IsSound : IsSound timeouts leased
leased-IsSound = record {
  lease_kept = (lease, refl);
  timers_kept = tt;
  watched = refl;
  marked = λ s. refl;
  known = (0x1230, refl, omega arith);
}

asking-IsSound : IsSound timeouts asking
asking-IsSound = record {
  lease_kept = refl;
  timers_kept = refl;
  watched = refl;
  marked = λ s. refl;
  known = (0x1230, refl, omega arith);
}

request_state-for_state_example :
    (x : ℕ) × (for_state 0x1235 renewing ≡ some x)
    × (request_state x ≡ some renewing)
    × (matches 0x1235 x ≡ true)
    × (x < 0xffff_ffff)
request_state-for_state_example = request_state-for_state 0x1235 renewing (omega arith)

abbrev ack : ReceivedDhcpMessage
ack = record {
  xid = 0x1234;
  message_type = some ack_type;
  yiaddr = 5;
  eth_src = 7;
  server_id = some 9;
  lease_time = some (pos 100);
  renewal_time = none;
  rebinding_time = none;
}

ack-IsAnswer : IsAnswer asking ack ack_type
unfolding matches random_part request_state
ack-IsAnswer = record {
  typed = refl;
  server = (9, refl);
  small = omega arith;
  matching = λ x e. let own : 0x1230 ≡ x = cc in subst (λ x. matches x 0x1234 ≡ true) own refl;
  refused = λ t s. refl;
}

process_msg-Sound_example :
    Sound timeouts
      (after
        (grants_lease (trigger_of (request_state 0x1234)) (some (pos 100)))
        requesting
        ack_type)
      (process_msg timeouts true as_is as_is 0x20 ack asking)
process_msg-Sound_example =
    process_msg-Sound timeouts true as_is as_is 0x20 ack asking ack_type (omega arith)
      asking-IsSound ack-IsAnswer

ack_binds :
    after (grants_lease (trigger_of (request_state 0x1234)) (some (pos 100))) requesting ack_type
    ≡ bound
unfolding request_state trigger_of
ack_binds = refl

-- A client that enters, asks, takes an offer and an ack, each with its id.
abbrev entered : Client
entered = (aenter timeouts true as_is as_is 0x1230 none (new_client 3)).0

abbrev started : Client
started = (bootstrap timeouts true as_is as_is entered).0

abbrev offer : ReceivedDhcpMessage
offer = record ack { xid = 0x1235; message_type = some offer_type }

abbrev offered : Client
offered = (process_msg timeouts true as_is as_is 0x20 offer started).0

reachable-IsSound_example :
    IsSound timeouts (process_msg timeouts true as_is as_is 0x20 ack offered).0
reachable-IsSound_example =
    reachable-IsSound timeouts true as_is as_is
      (process_msg timeouts true as_is as_is 0x20 ack offered).0
      (steps offered _
        (steps started _ (steps entered _ (enters 0x1230 3 none (omega arith)) (bootstraps entered))
          (receives started 0x20 offer (omega arith) (λ e. (9, refl))))
        (receives offered 0x20 ack (omega arith) (λ e. (9, refl))))

-- An ack that names no server raises, with its lease set in REQUESTING.
unnamed_ack_raises :
    (process_msg timeouts true as_is as_is 0x20 (record ack { server_id = none }) asking).1
    ≡ missing_option
unfolding process_msg process_typed check_xid make_xid matches random_part handle ack_received acked
    bind_lease request_state trigger_of set_lease
unnamed_ack_raises = refl

renewal_due_example : Sound timeouts renewing (renew timeouts true as_is as_is leased)
renewal_due_example = renewal_due timeouts true as_is as_is leased 50 leased-IsSound (9, refl) refl

rebinding_due_example : Sound timeouts rebinding (rebind timeouts true as_is as_is leased)
rebinding_due_example =
    rebinding_due timeouts true as_is as_is leased 80 leased-IsSound (9, refl) refl

expiration_due_example :
    Sound timeouts selecting (expire_lease timeouts true as_is as_is 0x20 leased)
expiration_due_example =
    expiration_due timeouts true as_is as_is 0x20 leased 100 (omega arith) leased-IsSound refl

abbrev ones : ReceivedDhcpMessage
ones = record ack { xid = 0xffff_ffff }

-- The id of the discover, in the state SELECTING.
abbrev late_nak : ReceivedDhcpMessage
late_nak = record ack { xid = 0x1235; message_type = some nak_type }

late : is_requesting (request_state 0x1235) ≡ false
unfolding request_state
late = refl

late_nak_raises :
    nak_received timeouts true as_is as_is 0x20 late_nak asking ≡ (asking, assertion_error)
late_nak_raises =
    nak_received_unleased timeouts true as_is as_is 0x20 late_nak asking asking-IsSound refl late
