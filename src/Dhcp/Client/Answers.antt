-- ===== src/Dhcp/Client/Answers.antt =====
-- What the client does with the messages of a server.
use pyroute.Prelude.{
  ℕ, ◌<◌, ◌≡◌, refl, sym, ap, subst, Bool, true, false, ◌&&◌, Option, some, none, List, [], ◌∷◌,
  ◌++◌, inl, inr, ◌⊎◌, Bool-cases, if◌then◌else◌, lt→ltb,
}
use pyroute.Dhcp.Fsm.{
  State, off, init, init_reboot, rebooting, requesting, selecting, bound, renewing, rebinding,
  same_state, same_state-eq, among, transitions,
}
use pyroute.Dhcp.Xids.{make_xid, matches, request_state}
use pyroute.Dhcp.Leases.{ℤ, Lease}
use pyroute.Dhcp.Messages.{
  SentDhcpMessage, ReceivedDhcpMessage, MessageType, discover_type, offer_type, request_type,
  decline_type, ack_type, nak_type, release_type, inform_type, request_for_offer, offer_request,
}
use pyroute.Dhcp.Client.{
  set_state, put, transition, transition_sending, run_hooks, trigger_of, is_requesting, set_lease,
  granted, bind_lease, acked, ack_received, nak_received, offer_received, handle, check_xid,
  process_typed, process_msg,
}
use pyroute.Dhcp.Machine.{Client, Trigger, unbound, done, key_error, ◌>>=◌}
use pyroute.Dhcp.Client.Invariant.{
  IsSound, Sound, HoldsLease, Timed, marks_one, may_go, transition-Sound, reset-Sound,
}

-- The states in which a request is out.
abbrev pub awaiting : List State
awaiting = requesting ∷ rebooting ∷ rebinding ∷ renewing ∷ []

awaiting_nak :
    (s : State) → among s (requesting ∷ rebooting ∷ renewing ∷ rebinding ∷ []) ≡ among s awaiting
awaiting_nak off = refl
awaiting_nak init = refl
awaiting_nak init_reboot = refl
awaiting_nak rebooting = refl
awaiting_nak requesting = refl
awaiting_nak selecting = refl
awaiting_nak bound = refl
awaiting_nak renewing = refl
awaiting_nak rebinding = refl

binds : (s : State) → among s awaiting ≡ true → among bound (transitions s) ≡ true
binds off h = cc
binds init h = cc
binds init_reboot h = cc
binds rebooting h = refl
binds requesting h = refl
binds selecting h = cc
binds bound h = cc
binds renewing h = refl
binds rebinding h = refl

restarts : (s : State) → among s awaiting ≡ true → among init (transitions s) ≡ true
restarts off h = cc
restarts init h = cc
restarts init_reboot h = cc
restarts rebooting h = refl
restarts requesting h = refl
restarts selecting h = cc
restarts bound h = cc
restarts renewing h = refl
restarts rebinding h = refl

-- With a request out, there is a lease, or it is the request for an offer.
awaited_lease :
    (s : State) (l : Option Lease)
    → among s awaiting ≡ true
    → HoldsLease s l
    → (s ≡ requesting) ⊎ ((lease : Lease) × (l ≡ some lease))
awaited_lease off l h k = cc
awaited_lease init l h k = cc
awaited_lease init_reboot l h k = cc
awaited_lease rebooting l h k = inr k
awaited_lease requesting l h k = inl refl
awaited_lease selecting l h k = cc
awaited_lease bound l h k = cc
awaited_lease renewing l h k = inr k
awaited_lease rebinding l h k = inr k

pub run_hooks_held :
    (t : Trigger) (c : Client) (l : Option Lease)
    → ((lease : Lease) × (l ≡ some lease))
    → run_hooks t c l ≡ (record c { hooks = c.hooks ++ t ∷ [] }, done)
unfolding run_hooks
run_hooks_held t c none (lease, e) = cc
run_hooks_held t c (some lease) e = refl

-- The state that follows a message of a type; `grants` tells whether the state in the xid is one
-- that a request goes out in, and a lease time is given.
abbrev pub after : Bool → State → MessageType → State
after grants s offer_type = if same_state s selecting then requesting else s
after grants s ack_type = if among s awaiting && grants then bound else s
after grants s nak_type = if among s awaiting then selecting else s
after grants s discover_type = s
after grants s request_type = s
after grants s decline_type = s
after grants s release_type = s
after grants s inform_type = s

abbrev pub grants_lease : Option Trigger → Option ℤ → Bool
grants_lease none l = false
grants_lease (some t) none = false
grants_lease (some t) (some l) = true

-- An answer to the client's request as a server should send it.
pub record IsAnswer (c : Client) (m : ReceivedDhcpMessage) (t : MessageType) : Type 0 where
  pub typed : m.message_type ≡ some t
  pub server : (s : ℕ) × (m.server_id ≡ some s)
  pub small : m.xid < 0xffff_ffff
  pub matching : (x : ℕ) → c.xid ≡ some x → matches x m.xid ≡ true
  pub refused : t ≡ nak_type → c.state ≡ requesting → is_requesting (request_state m.xid) ≡ true

module _ (timeouts : State → Option ℕ) (release_on_exit : Bool)
    (fuzzy_half fuzzy_most : ℤ → ℤ) where
  bind_lease-Sound :
      (t : Trigger) (c : Client) (l : Option ℕ)
      → ((server : ℕ) × (l ≡ some server))
      → among bound (transitions c.state) ≡ true
      → ((s : State) → c.states s ≡ same_state s c.state)
      → ((x : ℕ) × (c.xid ≡ some x) × (x < 0xffff_ffff))
      → ((lease : Lease) × (c.lease ≡ some lease))
      → Sound timeouts bound (bind_lease timeouts release_on_exit fuzzy_half fuzzy_most t c l)
  unfolding bind_lease transition set_state put ◌>>=◌
  bind_lease-Sound t c none (server, e) b marked known held = cc
  bind_lease-Sound t c (some server) e b marked known held =
      rw (may_go bound c.state b, run_hooks_held t _ c.lease held)
        (
          refl,
          record {
            lease_kept = held;
            timers_kept = tt;
            watched = refl;
            marked = marks_one bound c.state c.states marked;
            known = known;
          },
        )

  acked-Sound :
      (m : ReceivedDhcpMessage) (c : Client) (t : Option Trigger) (l : Option ℤ)
      → ((server : ℕ) × (m.server_id ≡ some server))
      → IsSound timeouts c
      → among c.state awaiting ≡ true
      → Sound timeouts
          (if grants_lease t l then bound else c.state)
          (acked timeouts release_on_exit fuzzy_half fuzzy_most m c t l)
  unfolding acked set_lease
  acked-Sound m c none l server v h = (refl, v)
  acked-Sound m c (some t) none server v h = (refl, v)
  acked-Sound m c (some t) (some l) server v h =
      bind_lease-Sound t
        (set_lease timeouts release_on_exit fuzzy_half fuzzy_most (granted m c.clock l) c)
        m.server_id server (binds c.state h) v.marked v.known (granted m c.clock l, refl)

  pub ack_received-Sound :
      (m : ReceivedDhcpMessage) (c : Client)
      → ((server : ℕ) × (m.server_id ≡ some server))
      → IsSound timeouts c
      → Sound timeouts
          (after (grants_lease (trigger_of (request_state m.xid)) m.lease_time) c.state ack_type)
          (ack_received timeouts release_on_exit fuzzy_half fuzzy_most m c)
  unfolding ack_received
  ack_received-Sound m c server v = elim (Bool-cases (among c.state awaiting)) [
    | inl h ↦ rw h (acked-Sound m c (trigger_of (request_state m.xid)) m.lease_time server v h)
    | inr h ↦ rw h (refl, v)
  ]

  nak_received-Sound :
      (fresh : ℕ) (m : ReceivedDhcpMessage) (c : Client)
      → fresh < 0xffff_ffff
      → IsSound timeouts c
      → (c.state ≡ requesting → is_requesting (request_state m.xid) ≡ true)
      → Sound timeouts
          (after true c.state nak_type)
          (nak_received timeouts release_on_exit fuzzy_half fuzzy_most fresh m c)
  unfolding nak_received run_hooks ◌>>=◌
  nak_received-Sound fresh m c small v req = elim (Bool-cases (among c.state awaiting)) [
    | inr h ↦ rw (awaiting_nak c.state, h) (refl, v)
    | inl h ↦
        rw (awaiting_nak c.state, h)
          (elim (Bool-cases (is_requesting (request_state m.xid))) [
            | inl r ↦ rw r (
                reset-Sound timeouts release_on_exit fuzzy_half fuzzy_most fresh c small
                  (restarts c.state h) v.marked)
            | inr n ↦ elim (awaited_lease c.state c.lease h v.lease_kept) [
              | inl r ↦ cc (req r, n)
              | inr held ↦
                  rw (n, run_hooks_held unbound c c.lease held)
                    (reset-Sound timeouts release_on_exit fuzzy_half fuzzy_most fresh
                      (record c { hooks = c.hooks ++ unbound ∷ [] }) small (restarts c.state h)
                      v.marked)
            ]
          ])
  ]

  sending_offer :
      (m : ReceivedDhcpMessage) (c : Client) (l : Option ℕ)
      → ((server : ℕ) × (l ≡ some server))
      → ((send : Option SentDhcpMessage)
          → Sound timeouts requesting
              (transition timeouts release_on_exit fuzzy_half fuzzy_most requesting send c))
      → Sound timeouts requesting (
          transition_sending timeouts release_on_exit fuzzy_half fuzzy_most key_error requesting c
            (offer_request m l))
  unfolding transition_sending offer_request
  sending_offer m c none (server, e) h = cc
  sending_offer m c (some server) e h = h _

  offer_received-Sound :
      (m : ReceivedDhcpMessage) (c : Client)
      → ((server : ℕ) × (m.server_id ≡ some server))
      → IsSound timeouts c
      → Sound timeouts
          (after true c.state offer_type)
          (offer_received timeouts release_on_exit fuzzy_half fuzzy_most m c)
  unfolding offer_received transition_sending request_for_offer offer_request
  offer_received-Sound m c server v = elim (Bool-cases (same_state c.state selecting)) [
    | inr n ↦ rw n (refl, v)
    | inl y ↦
        let h : c.state ≡ selecting = same_state-eq c.state selecting y in
        rw y (
          sending_offer m c m.server_id server (λ send.
            transition-Sound timeouts release_on_exit fuzzy_half fuzzy_most requesting send c
              (ap (λ s. among requesting (transitions s)) h) v.marked v.known
              (subst (λ s. HoldsLease s c.lease) h v.lease_kept)
              (subst (λ s. Timed s c.lease_timers) h v.timers_kept)))
  ]

  handle-Sound :
      (fresh : ℕ) (m : ReceivedDhcpMessage) (c : Client) (t : MessageType)
      → fresh < 0xffff_ffff
      → IsSound timeouts c
      → IsAnswer c m t
      → Sound timeouts
          (after (grants_lease (trigger_of (request_state m.xid)) m.lease_time) c.state t)
          (handle timeouts release_on_exit fuzzy_half fuzzy_most fresh m c t)
  unfolding handle
  handle-Sound fresh m c ack_type small v a = ack_received-Sound m c a.server v
  handle-Sound fresh m c nak_type small v a = nak_received-Sound fresh m c small v (a.refused refl)
  handle-Sound fresh m c offer_type small v a = offer_received-Sound m c a.server v
  handle-Sound fresh m c discover_type small v a = (refl, v)
  handle-Sound fresh m c request_type small v a = (refl, v)
  handle-Sound fresh m c decline_type small v a = (refl, v)
  handle-Sound fresh m c release_type small v a = (refl, v)
  handle-Sound fresh m c inform_type small v a = (refl, v)

  checked :
      (fresh : ℕ) (m : ReceivedDhcpMessage) (c : Client) (t : MessageType) (s : State)
      (own : Option ℕ)
      → ((x : ℕ) × (own ≡ some x))
      → ((x : ℕ) → own ≡ some x → matches x m.xid ≡ true)
      → Sound timeouts s (handle timeouts release_on_exit fuzzy_half fuzzy_most fresh m c t)
      → Sound timeouts s
          (check_xid timeouts release_on_exit fuzzy_half fuzzy_most fresh m c t own (some m.xid))
  unfolding check_xid
  checked fresh m c t s none (x, e) match h = cc
  checked fresh m c t s (some x) e match h = rw (match x refl) h

  -- On an answer to its request, a sound client raises nothing and stays sound: an offer moves it
  -- from SELECTING to REQUESTING; an ack that grants a lease, from any state with a request out to
  -- BOUND; a nak, from any of those to SELECTING, with no lease and no timers; anything else leaves
  -- its state. That its server id is given, its id fits, and a nak of a request for an offer
  -- carries that state is what makes it an answer.
  pub process_msg-Sound :
      (fresh : ℕ) (m : ReceivedDhcpMessage) (c : Client) (t : MessageType)
      → fresh < 0xffff_ffff
      → IsSound timeouts c
      → IsAnswer c m t
      → Sound timeouts
          (after (grants_lease (trigger_of (request_state m.xid)) m.lease_time) c.state t)
          (process_msg timeouts release_on_exit fuzzy_half fuzzy_most fresh m c)
  unfolding process_msg process_typed make_xid
  process_msg-Sound fresh m c t small v a =
      subst
        (λ o.
          Sound timeouts
            (after (grants_lease (trigger_of (request_state m.xid)) m.lease_time) c.state t)
            (process_typed timeouts release_on_exit fuzzy_half fuzzy_most fresh m c o))
        (sym a.typed)
        (rw (lt→ltb _ _ a.small) (
          checked fresh m c t _ c.xid (v.known.0, v.known.1) a.matching
            (handle-Sound fresh m c t small v a)))
