-- ===== src/Dhcp/Client/Keeps.antt =====
-- Every handler leaves a sound client sound.
use pyroute.Prelude.{
  ℕ, ◌<◌, ◌≡◌, refl, sym, ap, ◌∙◌, subst, Bool, true, false, Option, some, none, List, [], ◌∷◌,
  ◌++◌, inl, inr, ◌⊎◌, Bool-cases, if◌then◌else◌, lt→ltb,
}
use pyroute.Dhcp.Fsm.{
  State, off, init, init_reboot, rebooting, requesting, selecting, bound, renewing, rebinding,
  same_state, same_state-eq, among, transitions,
}
use pyroute.Dhcp.Xids.{make_xid}
use pyroute.Dhcp.Leases.{ℤ, Lease, LeaseTimers, no_timers}
use pyroute.Dhcp.Messages.{SentDhcpMessage, discover, request_for_lease}
use pyroute.Dhcp.Client.{
  set_state, transition, transition_sending, ask_for_lease, ask_again, bootstrap, set_xid, reset,
  run_hooks, renew, rebind, expire_lease, aenter, enter_with,
}
use pyroute.Dhcp.Machine.{
  Emission, nothing, gone, failed, is_done, Client, Exit, done, value_error, assertion_error,
  attribute_error, key_error, missing_option, ◌>>=◌, new_client, expired_trigger, send_round, round,
  next_to_send, record_sent,
}
use pyroute.Dhcp.Client.Invariant.{IsSound, Sound, HoldsLease, Timed, transition-Sound, reset-Sound}

no_expiration : (t : LeaseTimers) → t ≡ no_timers → record t { expiration = none } ≡ no_timers
no_expiration t h = λ i. record (h i) { expiration = none }

marks_first :
    (to s : State)
    → (if same_state s to then true else if same_state s off then false else false)
      ≡ same_state s to
marks_first to s = elim (Bool-cases (same_state s to)) [
  | inl e ↦ rw e
  | inr e ↦ rw e (elim (Bool-cases (same_state s off)) [ inl o ↦ rw o | inr o ↦ rw o ])
]

Timed-expiration :
    (s : State) (t : LeaseTimers) → Timed s t → Timed s (record t { expiration = none })
Timed-expiration off t h = no_expiration t h
Timed-expiration init t h = no_expiration t h
Timed-expiration init_reboot t h = no_expiration t h
Timed-expiration rebooting t h = no_expiration t h
Timed-expiration requesting t h = no_expiration t h
Timed-expiration selecting t h = no_expiration t h
Timed-expiration bound t h = tt
Timed-expiration renewing t h = h
Timed-expiration rebinding t h = h

may_rebind : (s : State) → among s (renewing ∷ bound ∷ []) ≡ true → (s ≡ renewing) ⊎ (s ≡ bound)
may_rebind off h = cc
may_rebind init h = cc
may_rebind init_reboot h = cc
may_rebind rebooting h = cc
may_rebind requesting h = cc
may_rebind selecting h = cc
may_rebind bound h = inr refl
may_rebind renewing h = inl refl
may_rebind rebinding h = cc

module _ (timeouts : State → Option ℕ) (release_on_exit : Bool)
    (fuzzy_half fuzzy_most : ℤ → ℤ) where
  pub Sound-left : (s : State) (r : Client × Exit) → Sound timeouts s r → IsSound timeouts r.0
  Sound-left s (c, done) h = h.1
  Sound-left s (c, value_error) h = absurd h
  Sound-left s (c, assertion_error) h = absurd h
  Sound-left s (c, attribute_error) h = absurd h
  Sound-left s (c, key_error) h = absurd h
  Sound-left s (c, missing_option) h = absurd h

  pub sending-IsSound :
      (failure : Exit) (to : State) (c : Client) (m : Option SentDhcpMessage)
      → IsSound timeouts c
      → among to (transitions c.state) ≡ true
      → HoldsLease to c.lease
      → Timed to c.lease_timers
      → IsSound timeouts
          (transition_sending timeouts release_on_exit fuzzy_half fuzzy_most failure to c m).0
  unfolding transition_sending
  sending-IsSound failure to c none v g l t = v
  sending-IsSound failure to c (some m) v g l t = Sound-left to _ (
      transition-Sound timeouts release_on_exit fuzzy_half fuzzy_most to (some m) c g v.marked
        v.known l t)

  asking-IsSound :
      (to : State) (c : Client) (l : Option Lease)
      → IsSound timeouts c
      → among to (transitions c.state) ≡ true
      → HoldsLease to c.lease
      → Timed to c.lease_timers
      → IsSound timeouts (ask_for_lease timeouts release_on_exit fuzzy_half fuzzy_most to c l).0
  unfolding ask_for_lease
  asking-IsSound to c none v g l t = v
  asking-IsSound to c (some lease) v g l t =
      sending-IsSound missing_option to c (request_for_lease lease to) v g l t

  asking_again-IsSound :
      (to : State) (timers : LeaseTimers) (c : Client) (l : Option Lease)
      → IsSound timeouts c
      → Timed c.state timers
      → among to (transitions c.state) ≡ true
      → HoldsLease to c.lease
      → Timed to timers
      → IsSound timeouts (ask_again timeouts release_on_exit fuzzy_half fuzzy_most to timers c l).0
  unfolding ask_again
  asking_again-IsSound to timers c none v k g l t = v
  asking_again-IsSound to timers c (some lease) v k g l t =
      asking-IsSound to (record c { lease_timers = timers }) (some lease)
        (record {
          lease_kept = v.lease_kept;
          timers_kept = k;
          watched = v.watched;
          marked = v.marked;
          known = v.known;
        })
        g l t

  pub renew-IsSound :
      (c : Client)
      → IsSound timeouts c
      → IsSound timeouts (renew timeouts release_on_exit fuzzy_half fuzzy_most c).0
  unfolding renew
  renew-IsSound c v = elim (Bool-cases (same_state c.state bound)) [
    | inr n ↦ rw n v
    | inl y ↦
        let h : c.state ≡ bound = same_state-eq c.state bound y in
        rw y (
          asking_again-IsSound renewing _ c c.lease v
            (subst (λ s. Timed s (record c.lease_timers { renewal = none })) (sym h) tt)
            (ap (λ s. among renewing (transitions s)) h)
            (subst (λ s. HoldsLease s c.lease) h v.lease_kept) refl)
  ]

  pub reset-IsSound :
      (fresh : ℕ) (c : Client)
      → fresh < 0xffff_ffff
      → IsSound timeouts c
      → IsSound timeouts (reset timeouts release_on_exit fuzzy_half fuzzy_most fresh c).0
  unfolding reset transition set_state ◌>>=◌
  reset-IsSound fresh c small v = elim (Bool-cases (among init (transitions c.state))) [
    | inl y ↦
        Sound-left selecting _
          (reset-Sound timeouts release_on_exit fuzzy_half fuzzy_most fresh c small y v.marked)
    | inr n ↦ rw n v
  ]

  rebind_from :
      (c : Client) (s : State)
      → IsSound timeouts c
      → c.state ≡ s
      → among rebinding (transitions s) ≡ true
      → ((l : Option Lease) → HoldsLease s l → HoldsLease rebinding l)
      → Timed s (record c.lease_timers { renewal = none; rebinding = none })
      → IsSound timeouts
          (ask_again timeouts release_on_exit fuzzy_half fuzzy_most rebinding
            (record c.lease_timers { renewal = none; rebinding = none })
            c
            c.lease).0
  rebind_from c s v h g l k =
      asking_again-IsSound rebinding _ c c.lease v
        (subst (λ s. Timed s (record c.lease_timers { renewal = none; rebinding = none })) (sym h)
          k)
        (ap (λ s. among rebinding (transitions s)) h ∙ g)
        (l c.lease (subst (λ s. HoldsLease s c.lease) h v.lease_kept)) (refl, refl)

  pub rebind-IsSound :
      (c : Client)
      → IsSound timeouts c
      → IsSound timeouts (rebind timeouts release_on_exit fuzzy_half fuzzy_most c).0
  unfolding rebind
  rebind-IsSound c v = elim (Bool-cases (among c.state (renewing ∷ bound ∷ []))) [
    | inr n ↦ rw n v
    | inl y ↦ rw y (elim (may_rebind c.state y) [
      | inl h ↦ rebind_from c renewing v h refl (λ l k. k) refl
      | inr h ↦ rebind_from c bound v h refl (λ l k. k) tt
    ])
  ]

  hooks-IsSound :
      (fresh : ℕ) (c : Client) (l : Option Lease)
      → fresh < 0xffff_ffff
      → IsSound timeouts c
      → IsSound timeouts
          (run_hooks expired_trigger c l
            >>= (λ c. reset timeouts release_on_exit fuzzy_half fuzzy_most fresh c)).0
  unfolding run_hooks ◌>>=◌
  hooks-IsSound fresh c none small v = v
  hooks-IsSound fresh c (some l) small v =
      reset-IsSound fresh (record c { hooks = c.hooks ++ expired_trigger ∷ [] }) small
        (record {
          lease_kept = v.lease_kept;
          timers_kept = v.timers_kept;
          watched = v.watched;
          marked = v.marked;
          known = v.known;
        })

  pub expire_lease-IsSound :
      (fresh : ℕ) (c : Client)
      → fresh < 0xffff_ffff
      → IsSound timeouts c
      → IsSound timeouts (expire_lease timeouts release_on_exit fuzzy_half fuzzy_most fresh c).0
  unfolding expire_lease
  expire_lease-IsSound fresh c small v =
      hooks-IsSound fresh (record c { lease_timers = record c.lease_timers { expiration = none } })
        c.lease small
        (record {
          lease_kept = v.lease_kept;
          timers_kept = Timed-expiration c.state c.lease_timers v.timers_kept;
          watched = v.watched;
          marked = v.marked;
          known = v.known;
        })

  pub bootstrap-IsSound :
      (c : Client)
      → IsSound timeouts c
      → IsSound timeouts (bootstrap timeouts release_on_exit fuzzy_half fuzzy_most c).0
  unfolding bootstrap
  bootstrap-IsSound c v = elim (Bool-cases (same_state c.state init)) [
    | inl y ↦
        let h : c.state ≡ init = same_state-eq c.state init y in
        rw y (
          Sound-left selecting _ (
            transition-Sound timeouts release_on_exit fuzzy_half fuzzy_most selecting
              (some discover) c (ap (λ s. among selecting (transitions s)) h) v.marked v.known
              (subst (λ s. HoldsLease s c.lease) h v.lease_kept)
              (subst (λ s. Timed s c.lease_timers) h v.timers_kept)))
    | inr n ↦ rw n (elim (Bool-cases (same_state c.state init_reboot)) [
      | inr k ↦ rw k v
      | inl y ↦
          let h : c.state ≡ init_reboot = same_state-eq c.state init_reboot y in
          rw y (
            asking-IsSound rebooting c c.lease v (ap (λ s. among rebooting (transitions s)) h)
              (subst (λ s. HoldsLease s c.lease) h v.lease_kept)
              (subst (λ s. Timed s c.lease_timers) h v.timers_kept))
    ])
  ]

  -- The sender changes nothing that the other handlers read.
  pub Same-IsSound :
      (c d : Client)
      → IsSound timeouts c
      → d ≡ record c {
        sendq = d.sendq;
        msg_to_send = d.msg_to_send;
        sent = d.sent;
        sender = d.sender;
        clock = d.clock;
      }
      → IsSound timeouts d
  Same-IsSound c d v e = subst (IsSound timeouts) (sym e) (record {
    lease_kept = v.lease_kept;
    timers_kept = v.timers_kept;
    watched = v.watched;
    marked = v.marked;
    known = v.known;
  })

  recorded : (c : Client) (m : Emission) → IsSound timeouts c → IsSound timeouts (record_sent c m)
  unfolding record_sent
  recorded c nothing v = v
  recorded c (gone m) v = Same-IsSound c _ v refl
  recorded c (failed e) v = Same-IsSound c _ v refl

  picked :
      (c : Client) (q : List (Option SentDhcpMessage))
      → IsSound timeouts c
      → IsSound timeouts (next_to_send c q)
  unfolding next_to_send
  picked c [] v = v
  picked c (m ∷ ms) v = Same-IsSound c _ v refl

  pub send_round-IsSound : (c : Client) → IsSound timeouts c → IsSound timeouts (send_round c)
  unfolding send_round round
  send_round-IsSound c v = elim (Bool-cases (is_done c.sender)) [
    | inl y ↦ rw y (recorded (next_to_send c c.sendq) _ (picked c c.sendq v))
    | inr n ↦ rw n v
  ]

  pub aenter-IsSound :
      (fresh now : ℕ) (loaded : Option Lease)
      → fresh < 0xffff_ffff
      → IsSound timeouts
          (aenter timeouts release_on_exit fuzzy_half fuzzy_most fresh loaded (new_client now)).0
  unfolding aenter enter_with set_state ◌>>=◌ set_xid make_xid new_client
  aenter-IsSound fresh now none small = rw (lt→ltb _ _ small) (record {
    lease_kept = refl;
    timers_kept = refl;
    watched = refl;
    marked = marks_first init;
    known = (fresh, refl, small);
  })
  aenter-IsSound fresh now (some l) small = rw (lt→ltb _ _ small) (record {
    lease_kept = (l, refl);
    timers_kept = refl;
    watched = refl;
    marked = marks_first init_reboot;
    known = (fresh, refl, small);
  })
