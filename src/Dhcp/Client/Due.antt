-- ===== src/Dhcp/Client/Due.antt =====
-- The callbacks of the timers, when they are due.
use pyroute.Prelude.{
  ℕ, ◌<◌, ◌≡◌, refl, sym, ap, Bool, true, Option, some, none, [], ◌∷◌, inl, inr, ◌⊎◌,
}
use pyroute.Dhcp.Fsm.{
  State, off, init, init_reboot, rebooting, requesting, selecting, bound, renewing, rebinding,
  same_state, among, transitions,
}
use pyroute.Dhcp.Leases.{ℤ, Lease, LeaseTimers}
use pyroute.Dhcp.Messages.{request_for_lease, renewal_request}
use pyroute.Dhcp.Client.{
  transition, transition_sending, ask_for_lease, ask_again, renew, rebind, expire_lease,
}
use pyroute.Dhcp.Machine.{Client, missing_option, ◌>>=◌, expired_trigger}
use pyroute.Dhcp.Client.Invariant.{IsSound, Sound, HoldsLease, Timed, transition-Sound, reset-Sound}
use pyroute.Dhcp.Client.Answers.{run_hooks_held}

-- A lease whose server is known.
abbrev pub FromServer : Option Lease → Type 0
FromServer none = ⊥
FromServer (some lease) = (s : ℕ) × (lease.server_id ≡ some s)

when_renewal : (s : State) (t : LeaseTimers) (d : ℕ) → Timed s t → t.renewal ≡ some d → s ≡ bound
when_renewal off t d h e = cc (ap (λ (t : LeaseTimers). t.renewal) h, e)
when_renewal init t d h e = cc (ap (λ (t : LeaseTimers). t.renewal) h, e)
when_renewal init_reboot t d h e = cc (ap (λ (t : LeaseTimers). t.renewal) h, e)
when_renewal rebooting t d h e = cc (ap (λ (t : LeaseTimers). t.renewal) h, e)
when_renewal requesting t d h e = cc (ap (λ (t : LeaseTimers). t.renewal) h, e)
when_renewal selecting t d h e = cc (ap (λ (t : LeaseTimers). t.renewal) h, e)
when_renewal bound t d h e = refl
when_renewal renewing t d h e = cc (h, e)
when_renewal rebinding t d h e = cc (h.0, e)

when_rebinding :
    (s : State) (t : LeaseTimers) (d : ℕ)
    → Timed s t
    → t.rebinding ≡ some d
    → (s ≡ renewing) ⊎ (s ≡ bound)
when_rebinding off t d h e = cc (ap (λ (t : LeaseTimers). t.rebinding) h, e)
when_rebinding init t d h e = cc (ap (λ (t : LeaseTimers). t.rebinding) h, e)
when_rebinding init_reboot t d h e = cc (ap (λ (t : LeaseTimers). t.rebinding) h, e)
when_rebinding rebooting t d h e = cc (ap (λ (t : LeaseTimers). t.rebinding) h, e)
when_rebinding requesting t d h e = cc (ap (λ (t : LeaseTimers). t.rebinding) h, e)
when_rebinding selecting t d h e = cc (ap (λ (t : LeaseTimers). t.rebinding) h, e)
when_rebinding bound t d h e = inr refl
when_rebinding renewing t d h e = inl refl
when_rebinding rebinding t d h e = cc (h.1, e)

-- An armed expiration means a lease, in a state that may go back to INIT.
when_expiration :
    (s : State) (l : Option Lease) (t : LeaseTimers) (d : ℕ)
    → HoldsLease s l
    → Timed s t
    → t.expiration ≡ some d
    → ((lease : Lease) × (l ≡ some lease)) × (among init (transitions s) ≡ true)
when_expiration off l t d k h e = cc (ap (λ (t : LeaseTimers). t.expiration) h, e)
when_expiration init l t d k h e = cc (ap (λ (t : LeaseTimers). t.expiration) h, e)
when_expiration init_reboot l t d k h e = cc (ap (λ (t : LeaseTimers). t.expiration) h, e)
when_expiration rebooting l t d k h e = cc (ap (λ (t : LeaseTimers). t.expiration) h, e)
when_expiration requesting l t d k h e = cc (ap (λ (t : LeaseTimers). t.expiration) h, e)
when_expiration selecting l t d k h e = cc (ap (λ (t : LeaseTimers). t.expiration) h, e)
when_expiration bound l t d k h e = (k, refl)
when_expiration renewing l t d k h e = (k, refl)
when_expiration rebinding l t d k h e = (k, refl)

module _ (timeouts : State → Option ℕ) (release_on_exit : Bool)
    (fuzzy_half fuzzy_most : ℤ → ℤ) where
  renewal_sent :
      (c : Client) (lease : Lease) (server : Option ℕ)
      → ((s : ℕ) × (server ≡ some s))
      → Sound timeouts renewing (
          transition timeouts release_on_exit fuzzy_half fuzzy_most renewing
            (renewal_request lease server)
            c)
      → Sound timeouts renewing (
          transition_sending timeouts release_on_exit fuzzy_half fuzzy_most missing_option renewing
            c
            (renewal_request lease server))
  unfolding renewal_request transition_sending
  renewal_sent c lease none (s, e) h = cc
  renewal_sent c lease (some server) e h = h

  renewal_asked :
      (c : Client) (timers : LeaseTimers) (l : Option Lease)
      → IsSound timeouts c
      → c.state ≡ bound
      → timers.renewal ≡ none
      → l ≡ c.lease
      → FromServer l
      → Sound timeouts renewing
          (ask_again timeouts release_on_exit fuzzy_half fuzzy_most renewing timers c l)
  unfolding ask_again ask_for_lease request_for_lease
  renewal_asked c timers none v h k e f = absurd f
  renewal_asked c timers (some lease) v h k e f =
      renewal_sent (record c { lease_timers = timers }) lease lease.server_id f
        (transition-Sound timeouts release_on_exit fuzzy_half fuzzy_most renewing _
          (record c { lease_timers = timers }) (ap (λ s. among renewing (transitions s)) h) v.marked
          v.known (lease, sym e) k)

  rebinding_asked :
      (c : Client) (timers : LeaseTimers) (l : Option Lease)
      → IsSound timeouts c
      → among rebinding (transitions c.state) ≡ true
      → (timers.renewal ≡ none) × (timers.rebinding ≡ none)
      → l ≡ c.lease
      → FromServer l
      → Sound timeouts rebinding
          (ask_again timeouts release_on_exit fuzzy_half fuzzy_most rebinding timers c l)
  unfolding ask_again ask_for_lease request_for_lease transition_sending
  rebinding_asked c timers none v g k e f = absurd f
  rebinding_asked c timers (some lease) v g k e f =
      transition-Sound timeouts release_on_exit fuzzy_half fuzzy_most rebinding _
        (record c { lease_timers = timers }) g v.marked v.known (lease, sym e) k

  -- For a sound client whose lease names its server, the renewal timer, when it is armed and due,
  -- moves the client to RENEWING; nothing is raised, and the client stays sound.
  pub renewal_due :
      (c : Client) (d : ℕ)
      → IsSound timeouts c
      → FromServer c.lease
      → c.lease_timers.renewal ≡ some d
      → Sound timeouts renewing (renew timeouts release_on_exit fuzzy_half fuzzy_most c)
  unfolding renew
  renewal_due c d v f e =
      let h : c.state ≡ bound = when_renewal c.state c.lease_timers d v.timers_kept e in
      let guarded : same_state c.state bound ≡ true = ap (λ s. same_state s bound) h in
      rw guarded (renewal_asked c _ c.lease v h refl refl f)

  -- For a sound client whose lease names its server, the rebinding timer, when it is armed and due,
  -- moves the client to REBINDING; nothing is raised, and the client stays sound.
  pub rebinding_due :
      (c : Client) (d : ℕ)
      → IsSound timeouts c
      → FromServer c.lease
      → c.lease_timers.rebinding ≡ some d
      → Sound timeouts rebinding (rebind timeouts release_on_exit fuzzy_half fuzzy_most c)
  unfolding rebind
  rebinding_due c d v f e = elim (when_rebinding c.state c.lease_timers d v.timers_kept e) [
    | inl h ↦
        let guarded : among c.state (renewing ∷ bound ∷ []) ≡ true =
          ap (λ s. among s (renewing ∷ bound ∷ [])) h in
        rw guarded (
          rebinding_asked c _ c.lease v (ap (λ s. among rebinding (transitions s)) h) (refl, refl)
            refl f)
    | inr h ↦
        let guarded : among c.state (renewing ∷ bound ∷ []) ≡ true =
          ap (λ s. among s (renewing ∷ bound ∷ [])) h in
        rw guarded (
          rebinding_asked c _ c.lease v (ap (λ s. among rebinding (transitions s)) h) (refl, refl)
            refl f)
  ]

  -- For a sound client, the expiration timer, when it is armed and due, makes the client start again
  -- in SELECTING, with no lease and no timers; nothing is raised, and the client stays sound.
  pub expiration_due :
      (fresh : ℕ) (c : Client) (d : ℕ)
      → fresh < 0xffff_ffff
      → IsSound timeouts c
      → c.lease_timers.expiration ≡ some d
      → Sound timeouts selecting
          (expire_lease timeouts release_on_exit fuzzy_half fuzzy_most fresh c)
  unfolding expire_lease ◌>>=◌
  expiration_due fresh c d small v e =
      let (held, g) =
        when_expiration c.state c.lease c.lease_timers d v.lease_kept v.timers_kept e in
      rw
        (run_hooks_held expired_trigger
          (record c { lease_timers = record c.lease_timers { expiration = none } }) c.lease held)
        (reset-Sound timeouts release_on_exit fuzzy_half fuzzy_most fresh _ small g v.marked)
