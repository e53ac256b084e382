-- ===== src/Dhcp/Client/Receiving.antt =====
-- Whatever message comes, a client stays sound, if an ack names its server.
use pyroute.Prelude.{
  ℕ, ◌<◌, ◌≡◌, refl, ap, subst, Bool, Option, some, none, [], ◌∷◌, ◌++◌, inl, inr, Bool-cases,
}
use pyroute.Dhcp.Fsm.{
  State, requesting, selecting, rebooting, renewing, rebinding, same_state, same_state-eq, among,
  transitions,
}
use pyroute.Dhcp.Xids.{make_xid, matches, request_state}
use pyroute.Dhcp.Leases.{ℤ, Lease}
use pyroute.Dhcp.Messages.{
  ReceivedDhcpMessage, MessageType, discover_type, offer_type, request_type, decline_type, ack_type,
  nak_type, release_type, inform_type, request_for_offer,
}
use pyroute.Dhcp.Client.{
  run_hooks, is_requesting, nak_received, offer_received, handle, check_xid, process_typed,
  process_msg, reset,
}
use pyroute.Dhcp.Machine.{Client, unbound, key_error, ◌>>=◌}
use pyroute.Dhcp.Client.Invariant.{IsSound, HoldsLease, Timed}
use pyroute.Dhcp.Client.Answers.{ack_received-Sound}
use pyroute.Dhcp.Client.Keeps.{Sound-left, reset-IsSound, sending-IsSound}

-- A DHCPACK names its server.
abbrev pub AckNamesServer : ReceivedDhcpMessage → Type 0
AckNamesServer m = m.message_type ≡ some ack_type → (s : ℕ) × (m.server_id ≡ some s)

module _ (timeouts : State → Option ℕ) (release_on_exit : Bool)
    (fuzzy_half fuzzy_most : ℤ → ℤ) where
  unbound-IsSound :
      (fresh : ℕ) (c : Client) (l : Option Lease)
      → fresh < 0xffff_ffff
      → IsSound timeouts c
      → IsSound timeouts
          (run_hooks unbound c l
            >>= (λ c. reset timeouts release_on_exit fuzzy_half fuzzy_most fresh c)).0
  unfolding run_hooks ◌>>=◌
  unbound-IsSound fresh c none small v = v
  unbound-IsSound fresh c (some lease) small v =
      reset-IsSound timeouts release_on_exit fuzzy_half fuzzy_most fresh
        (record c { hooks = c.hooks ++ unbound ∷ [] }) small
        (record {
          lease_kept = v.lease_kept;
          timers_kept = v.timers_kept;
          watched = v.watched;
          marked = v.marked;
          known = v.known;
        })

  nak_received-IsSound :
      (fresh : ℕ) (m : ReceivedDhcpMessage) (c : Client)
      → fresh < 0xffff_ffff
      → IsSound timeouts c
      → IsSound timeouts (nak_received timeouts release_on_exit fuzzy_half fuzzy_most fresh m c).0
  unfolding nak_received
  nak_received-IsSound fresh m c small v =
      elim (Bool-cases (among c.state (requesting ∷ rebooting ∷ renewing ∷ rebinding ∷ []))) [
        | inr n ↦ rw n v
        | inl h ↦ elim (Bool-cases (is_requesting (request_state m.xid))) [
          | inl y ↦
              rw (h, y)
                (reset-IsSound timeouts release_on_exit fuzzy_half fuzzy_most fresh c small v)
          | inr n ↦ rw (h, n) (unbound-IsSound fresh c c.lease small v)
        ]
      ]

  offer_received-IsSound :
      (m : ReceivedDhcpMessage) (c : Client)
      → IsSound timeouts c
      → IsSound timeouts (offer_received timeouts release_on_exit fuzzy_half fuzzy_most m c).0
  unfolding offer_received
  offer_received-IsSound m c v = elim (Bool-cases (same_state c.state selecting)) [
    | inr n ↦ rw n v
    | inl y ↦
        let h : c.state ≡ selecting = same_state-eq c.state selecting y in
        rw y (
          sending-IsSound timeouts release_on_exit fuzzy_half fuzzy_most key_error requesting c
            (request_for_offer m) v (ap (λ s. among requesting (transitions s)) h)
            (subst (λ s. HoldsLease s c.lease) h v.lease_kept)
            (subst (λ s. Timed s c.lease_timers) h v.timers_kept))
  ]

  handle-IsSound :
      (fresh : ℕ) (m : ReceivedDhcpMessage) (c : Client) (t : MessageType)
      → fresh < 0xffff_ffff
      → IsSound timeouts c
      → (t ≡ ack_type → (s : ℕ) × (m.server_id ≡ some s))
      → IsSound timeouts (handle timeouts release_on_exit fuzzy_half fuzzy_most fresh m c t).0
  unfolding handle
  handle-IsSound fresh m c ack_type small v named =
      Sound-left timeouts release_on_exit fuzzy_half fuzzy_most _ _
        (ack_received-Sound timeouts release_on_exit fuzzy_half fuzzy_most m c (named refl) v)
  handle-IsSound fresh m c nak_type small v named = nak_received-IsSound fresh m c small v
  handle-IsSound fresh m c offer_type small v named = offer_received-IsSound m c v
  handle-IsSound fresh m c discover_type small v named = v
  handle-IsSound fresh m c request_type small v named = v
  handle-IsSound fresh m c decline_type small v named = v
  handle-IsSound fresh m c release_type small v named = v
  handle-IsSound fresh m c inform_type small v named = v

  check_xid-IsSound :
      (fresh : ℕ) (m : ReceivedDhcpMessage) (c : Client) (t : MessageType) (own received : Option ℕ)
      → IsSound timeouts c
      → IsSound timeouts (handle timeouts release_on_exit fuzzy_half fuzzy_most fresh m c t).0
      → IsSound timeouts
          (check_xid timeouts release_on_exit fuzzy_half fuzzy_most fresh m c t own received).0
  unfolding check_xid
  check_xid-IsSound fresh m c t none received v h = v
  check_xid-IsSound fresh m c t (some x) none v h = v
  check_xid-IsSound fresh m c t (some x) (some r) v h = elim (Bool-cases (matches x r)) [
    | inl y ↦ rw y h
    | inr n ↦ rw n v
  ]

  process_typed-IsSound :
      (fresh : ℕ) (m : ReceivedDhcpMessage) (c : Client) (t : Option MessageType)
      → fresh < 0xffff_ffff
      → IsSound timeouts c
      → (t ≡ some ack_type → (s : ℕ) × (m.server_id ≡ some s))
      → IsSound timeouts
          (process_typed timeouts release_on_exit fuzzy_half fuzzy_most fresh m c t).0
  unfolding process_typed
  process_typed-IsSound fresh m c none small v named = v
  process_typed-IsSound fresh m c (some t) small v named =
      check_xid-IsSound fresh m c t c.xid (make_xid m.xid) v
        (handle-IsSound fresh m c t small v (λ e. named (ap some e)))

  pub process_msg-IsSound :
      (fresh : ℕ) (m : ReceivedDhcpMessage) (c : Client)
      → fresh < 0xffff_ffff
      → IsSound timeouts c
      → AckNamesServer m
      → IsSound timeouts (process_msg timeouts release_on_exit fuzzy_half fuzzy_most fresh m c).0
  unfolding process_msg
  process_msg-IsSound fresh m c small v named =
      process_typed-IsSound fresh m c m.message_type small v named
