-- ===== src/Dhcp/Client/Invariant.antt =====
-- What holds of a client between two handlers, and how a change of state keeps it.
use pyroute.Prelude.{
  ℕ, ◌<◌, ◌≡◌, refl, ◌∙◌, Bool, true, false, not, ◌&&◌, Option, some, none, inl, inr, Bool-cases,
  if◌then◌else◌, lt→ltb,
}
use pyroute.Dhcp.Fsm.{
  State, off, init, init_reboot, rebooting, requesting, selecting, bound, renewing, rebinding,
  same_state, among, transitions,
}
use pyroute.Dhcp.Xids.{make_xid}
use pyroute.Dhcp.Leases.{ℤ, Lease, LeaseTimers, no_timers, cancel}
use pyroute.Dhcp.Messages.{SentDhcpMessage}
use pyroute.Dhcp.Client.{timeout_of, set_state, put, transition, bootstrap, set_xid, reset}
use pyroute.Dhcp.Machine.{
  Client, Exit, done, value_error, assertion_error, attribute_error, key_error, missing_option,
  ◌>>=◌,
}

-- There is a lease from the ack, or the load, to the end of the lease, and at no other time.
abbrev pub HoldsLease : State → Option Lease → Type 0
HoldsLease off l = Unit
HoldsLease init l = l ≡ none
HoldsLease selecting l = l ≡ none
HoldsLease requesting l = l ≡ none
HoldsLease init_reboot l = (lease : Lease) × (l ≡ some lease)
HoldsLease rebooting l = (lease : Lease) × (l ≡ some lease)
HoldsLease bound l = (lease : Lease) × (l ≡ some lease)
HoldsLease renewing l = (lease : Lease) × (l ≡ some lease)
HoldsLease rebinding l = (lease : Lease) × (l ≡ some lease)

-- A timer is armed only where its handler would run.
abbrev pub Timed : State → LeaseTimers → Type 0
Timed off t = t ≡ no_timers
Timed init t = t ≡ no_timers
Timed selecting t = t ≡ no_timers
Timed requesting t = t ≡ no_timers
Timed init_reboot t = t ≡ no_timers
Timed rebooting t = t ≡ no_timers
Timed bound t = Unit
Timed renewing t = t.renewal ≡ none
Timed rebinding t = (t.renewal ≡ none) × (t.rebinding ≡ none)

pub record IsSound (timeouts : State → Option ℕ) (c : Client) : Type 0 where
  pub lease_kept : HoldsLease c.state c.lease
  pub timers_kept : Timed c.state c.lease_timers
  pub watched : c.state_watchdog ≡ timeout_of (timeouts c.state)
  pub marked : (s : State) → c.states s ≡ same_state s c.state
  pub known : (x : ℕ) × (c.xid ≡ some x) × (x < 0xffff_ffff)

-- A handler that raises nothing and leaves the client sound, in a state.
abbrev pub Sound : (State → Option ℕ) → State → Client × Exit → Type 0
Sound timeouts s (c, done) = (c.state ≡ s) × IsSound timeouts c
Sound timeouts s (c, value_error) = ⊥
Sound timeouts s (c, assertion_error) = ⊥
Sound timeouts s (c, attribute_error) = ⊥
Sound timeouts s (c, key_error) = ⊥
Sound timeouts s (c, missing_option) = ⊥

pub marks_one :
    (to old : State) (f : State → Bool)
    → ((s : State) → f s ≡ same_state s old)
    → (s : State)
    → (if same_state s to then true else if same_state s old then false else f s) ≡ same_state s to
marks_one to old f h s = elim (Bool-cases (same_state s to)) [
  | inl e ↦ rw e
  | inr e ↦ rw e (elim (Bool-cases (same_state s old)) [ inl o ↦ rw o | inr o ↦ rw o (h s ∙ o) ])
]

pub may_go :
    (to old : State)
    → among to (transitions old) ≡ true
    → (not (same_state to off) && not (among to (transitions old))) ≡ false
may_go to old h = elim (Bool-cases (same_state to off)) [ inl e ↦ rw e | inr e ↦ rw (e, h) refl ]

module _ (timeouts : State → Option ℕ) (release_on_exit : Bool)
    (fuzzy_half fuzzy_most : ℤ → ℤ) where
  -- A move along TRANSITIONS to a state that the lease and the timers fit.
  pub transition-Sound :
      (to : State) (send : Option SentDhcpMessage) (c : Client)
      → among to (transitions c.state) ≡ true
      → ((s : State) → c.states s ≡ same_state s c.state)
      → (x : ℕ) × (c.xid ≡ some x) × (x < 0xffff_ffff)
      → HoldsLease to c.lease
      → Timed to c.lease_timers
      → Sound timeouts to (transition timeouts release_on_exit fuzzy_half fuzzy_most to send c)
  unfolding transition set_state put ◌>>=◌
  transition-Sound to send c allowed marked known lease timers = rw (may_go to c.state allowed) (
    refl,
    record {
      lease_kept = lease;
      timers_kept = timers;
      watched = refl;
      marked = marks_one to c.state c.states marked;
      known = known;
    },
  )

  -- From a state that may go to INIT, `reset` ends in SELECTING with no lease and no timers.
  pub reset-Sound :
      (fresh : ℕ) (c : Client)
      → fresh < 0xffff_ffff
      → among init (transitions c.state) ≡ true
      → ((s : State) → c.states s ≡ same_state s c.state)
      → Sound timeouts selecting (reset timeouts release_on_exit fuzzy_half fuzzy_most fresh c)
  unfolding reset transition set_state put ◌>>=◌ set_xid make_xid cancel bootstrap
  reset-Sound fresh c small allowed marked =
      rw (may_go init c.state allowed, lt→ltb _ _ small)
        (
          refl,
          record {
            lease_kept = refl;
            timers_kept = refl;
            watched = refl;
            marked = marks_one selecting init _ (marks_one init c.state c.states marked);
            known = (fresh, refl, small);
          },
        )
