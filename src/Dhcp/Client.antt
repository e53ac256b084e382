-- ===== src/Dhcp/Client.antt =====
-- `AsyncDHCPClient` of pyroute2/dhcp/client.py. A handler is a function on the client, with the
-- exception that it raises, if any. Handlers run one at a time, as they do while no hook suspends.
-- The configuration and the random numbers are parameters.
pub mod Invariant
pub mod Keeps
pub mod Reachable
pub mod Answers
pub mod Receiving
pub mod Due
pub mod Exiting
pub mod Raising
pub mod Tests
use pyroute.Prelude.{
  ℕ, zero, suc, ◌+◌, ◌-◌, Bool, true, false, not, ◌&&◌, Option, some, none, List, [], ◌∷◌, ◌++◌,
  min, if◌then◌else◌,
}
use pyroute.Dhcp.Fsm.{
  State, off, init, init_reboot, rebooting, requesting, selecting, bound, renewing, rebinding,
  same_state, among, transitions, state_guard,
}
use pyroute.Dhcp.Xids.{make_xid, request_state, for_state, matches}
use pyroute.Dhcp.Leases.{ℤ, Lease, LeaseTimers, no_timers, cancel, arm, expired}
use pyroute.Dhcp.Messages.{
  MessageType, SentDhcpMessage, ReceivedDhcpMessage, ack_type, nak_type, offer_type, release_type,
  discover, request_for_offer, request_for_lease, release, discover_type, request_type,
  decline_type, inform_type,
}
use pyroute.Dhcp.Machine.{
  Trigger, bound_trigger, unbound, renewed, rebound, expired_trigger, Exit, done, value_error,
  assertion_error, attribute_error, key_error, missing_option, Client, new_client, ◌>>=◌, stamped,
  send_message, next_to_send, is_release, emit, record_sent, round, send_round, drain,
}

-- A timeout of 0 is none.
abbrev pub timeout_of : Option ℕ → Option ℕ
timeout_of none = none
timeout_of (some zero) = none
timeout_of (some (suc n)) = some (suc n)

-- `run_hooks`, which no failure of a hook leaves.
unfoldable pub run_hooks : Trigger → Client → Option Lease → Client × Exit
run_hooks trigger c none = (c, assertion_error)
run_hooks trigger c (some lease) = (record c { hooks = c.hooks ++ trigger ∷ [] }, done)

unfoldable pub trigger_of : Option State → Option Trigger
trigger_of none = none
trigger_of (some off) = none
trigger_of (some init) = none
trigger_of (some init_reboot) = none
trigger_of (some rebooting) = some bound_trigger
trigger_of (some requesting) = some bound_trigger
trigger_of (some selecting) = none
trigger_of (some bound) = none
trigger_of (some renewing) = some renewed
trigger_of (some rebinding) = some rebound

abbrev pub is_requesting : Option State → Bool
is_requesting none = false
is_requesting (some s) = same_state s requesting

unfoldable pub set_xid : Client → Option ℕ → Client × Exit
set_xid c none = (c, assertion_error)
set_xid c (some x) = (record c { xid = some x }, done)

-- The lease that an ack grants, when it states a lease time.
abbrev pub granted : ReceivedDhcpMessage → ℕ → ℤ → Lease
granted m now t = record {
  ip = m.yiaddr;
  server_mac = m.eth_src;
  obtained = now;
  server_id = m.server_id;
  lease_time = t;
  renewal_time = m.renewal_time;
  rebinding_time = m.rebinding_time;
}

-- `timeouts` and `release` of the configuration, and `random.uniform`.
module _ (timeouts : State → Option ℕ) (release_on_exit : Bool)
    (fuzzy_half fuzzy_most : ℤ → ℤ) where
  -- The setter of `state`.
  unfoldable pub set_state : State → Client → Client × Exit
  set_state value c =
      if not (same_state value off) && not (among value (transitions c.state))
      then (c, value_error)
      else (
        record c {
          state = value;
          state_watchdog = timeout_of (timeouts value);
          states = λ s.
              if same_state s value
              then true
              else if same_state s c.state
              then false
              else c.states s;
          last_state_change = c.clock;
        },
        done,
      )

  unfoldable pub put : Option SentDhcpMessage → Client → Client × Exit
  put send c = (record c { sendq = c.sendq ++ send ∷ [] }, done)

  unfoldable pub transition : State → Option SentDhcpMessage → Client → Client × Exit
  transition to send c = do c ← set_state to c; put send c

  -- `transition` with a message whose making may raise.
  unfoldable pub transition_sending : Exit → State → Client → Option SentDhcpMessage → Client × Exit
  transition_sending failure to c none = (c, failure)
  transition_sending failure to c (some m) = transition to (some m) c

  -- `assert self.lease`, and a request for it.
  unfoldable pub ask_for_lease : State → Client → Option Lease → Client × Exit
  ask_for_lease to c none = (c, assertion_error)
  ask_for_lease to c (some lease) =
      transition_sending missing_option to c (request_for_lease lease to)

  unfoldable pub bootstrap : Client → Client × Exit
  bootstrap c =
      state_guard (init ∷ init_reboot ∷ []) c.state (c, done)
        (if same_state c.state init
          then transition selecting (some discover) c
          else ask_for_lease rebooting c c.lease)

  -- The setter of `lease`.
  unfoldable pub set_lease : Lease → Client → Client
  set_lease lease c = record c {
    lease = some lease;
    lease_timers = arm fuzzy_half fuzzy_most lease c.clock c.lease_timers;
  }

  -- The part of `_renew` and `_rebind` behind the assertion, on the timers that are left.
  unfoldable pub ask_again : State → LeaseTimers → Client → Option Lease → Client × Exit
  ask_again to timers c none = (c, assertion_error)
  ask_again to timers c (some lease) =
      ask_for_lease to (record c { lease_timers = timers }) (some lease)

  unfoldable pub renew : Client → Client × Exit
  renew c =
      state_guard (bound ∷ []) c.state (c, done)
        (ask_again renewing (record c.lease_timers { renewal = none }) c c.lease)

  unfoldable pub rebind : Client → Client × Exit
  rebind c =
      state_guard (renewing ∷ bound ∷ []) c.state (c, done)
        (ask_again rebinding (record c.lease_timers { renewal = none; rebinding = none }) c c.lease)

  -- `Xid()` draws `fresh`.
  unfoldable pub reset : ℕ → Client → Client × Exit
  reset fresh c = do
    c ← transition init none c
    c ← set_xid (record c { lease = none; lease_timers = cancel c.lease_timers }) (make_xid fresh)
    bootstrap c

  unfoldable pub expire_lease : ℕ → Client → Client × Exit
  expire_lease fresh c = do
    c ←
        run_hooks expired_trigger
          (record c { lease_timers = record c.lease_timers { expiration = none } }) c.lease
    reset fresh c

  -- From the new lease on; the log reads its `server_id`.
  unfoldable pub bind_lease : Trigger → Client → Option ℕ → Client × Exit
  bind_lease trigger c none = (c, missing_option)
  bind_lease trigger c (some server) = do c ← transition bound none c; run_hooks trigger c c.lease

  unfoldable pub acked : ReceivedDhcpMessage → Client → Option Trigger → Option ℤ → Client × Exit
  acked m c none t = (c, done)
  acked m c (some trigger) none = (c, done)
  acked m c (some trigger) (some t) =
      bind_lease trigger (set_lease (granted m c.clock t) c) m.server_id

  unfoldable pub ack_received : ReceivedDhcpMessage → Client → Client × Exit
  ack_received m c =
      state_guard (requesting ∷ rebooting ∷ rebinding ∷ renewing ∷ []) c.state (c, done)
        (acked m c (trigger_of (request_state m.xid)) m.lease_time)

  unfoldable pub nak_received : ℕ → ReceivedDhcpMessage → Client → Client × Exit
  nak_received fresh m c =
      state_guard (requesting ∷ rebooting ∷ renewing ∷ rebinding ∷ []) c.state (c, done)
        (if is_requesting (request_state m.xid)
          then reset fresh c
          else (do c ← run_hooks unbound c c.lease; reset fresh c))

  unfoldable pub offer_received : ReceivedDhcpMessage → Client → Client × Exit
  offer_received m c =
      state_guard (selecting ∷ []) c.state (c, done)
        (transition_sending key_error requesting c (request_for_offer m))

  -- `getattr(self, handler_name, None)`, and the call.
  unfoldable pub handle : ℕ → ReceivedDhcpMessage → Client → MessageType → Client × Exit
  handle fresh m c ack_type = ack_received m c
  handle fresh m c nak_type = nak_received fresh m c
  handle fresh m c offer_type = offer_received m c
  handle fresh m c discover_type = (c, done)
  handle fresh m c request_type = (c, done)
  handle fresh m c decline_type = (c, done)
  handle fresh m c release_type = (c, done)
  handle fresh m c inform_type = (c, done)

  -- From the type of the message on: the client's id, and the message's.
  unfoldable pub check_xid :
      ℕ → ReceivedDhcpMessage → Client → MessageType → Option ℕ → Option ℕ → Client × Exit
  check_xid fresh m c t none received = (c, attribute_error)
  check_xid fresh m c t (some x) none = (c, assertion_error)
  check_xid fresh m c t (some x) (some r) = if matches x r then handle fresh m c t else (c, done)

  unfoldable pub process_typed :
      ℕ → ReceivedDhcpMessage → Client → Option MessageType → Client × Exit
  process_typed fresh m c none = (c, key_error)
  process_typed fresh m c (some t) = check_xid fresh m c t c.xid (make_xid m.xid)

  unfoldable pub process_msg : ℕ → ReceivedDhcpMessage → Client → Client × Exit
  process_msg fresh m c = process_typed fresh m c m.message_type

  -- `__aenter__`, with the lease that `load` returns.
  unfoldable pub enter_with : Client → Option Lease → Client × Exit
  enter_with c none = set_state init c
  enter_with c (some lease) = set_state init_reboot (record c { lease = some lease })

  unfoldable pub aenter : ℕ → Option Lease → Client → Client × Exit
  aenter fresh loaded c = do c ← set_xid c (make_xid fresh); enter_with c loaded

  -- The last part of `__aexit__`, where the sender ends; what ended it before is raised again.
  unfoldable pub shut_down : Client → Client × Exit
  shut_down c = do
    c ← set_state off c
    c ← (let d = drain c c.sendq in (d, d.sender))
    (record c { xid = none }, done)

  unfoldable pub put_release : Client → Option SentDhcpMessage → Client × Exit
  put_release c none = (c, missing_option)
  put_release c (some m) = put (some m) c

  unfoldable pub release_lease : Client → Option Lease → Client × Exit
  release_lease c none = (c, done)
  release_lease c (some lease) = do
    c ← run_hooks unbound c (some lease)
    if expired lease c.clock then (c, done) else put_release c (release lease)

  unfoldable pub aexit : Client → Client × Exit
  aexit c = do
    c ←
        (let stopped = record c { lease_timers = cancel c.lease_timers } in
          if release_on_exit then release_lease stopped c.lease else (stopped, done))
    shut_down c
