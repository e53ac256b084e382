-- ===== src/Dhcp/Client/Raising.antt =====
-- What makes the client raise.
use pyroute.Prelude.{ℕ, ◌≡◌, refl, ap, subst, Bool, true, false, Option, some, none, [], ◌∷◌}
use pyroute.Dhcp.Fsm.{State, rebooting, requesting, renewing, rebinding, among}
use pyroute.Dhcp.Xids.{request_state}
use pyroute.Dhcp.Leases.{ℤ, Lease}
use pyroute.Dhcp.Messages.{ReceivedDhcpMessage}
use pyroute.Dhcp.Client.{run_hooks, is_requesting, nak_received}
use pyroute.Dhcp.Machine.{Client, assertion_error, ◌>>=◌, unbound, Trigger}
use pyroute.Dhcp.Client.Invariant.{IsSound, HoldsLease}

run_hooks_unleased :
    (t : Trigger) (c : Client) (l : Option Lease)
    → l ≡ none
    → run_hooks t c l ≡ (c, assertion_error)
unfolding run_hooks
run_hooks_unleased t c none e = refl
run_hooks_unleased t c (some lease) e = cc

module _ (timeouts : State → Option ℕ) (release_on_exit : Bool)
    (fuzzy_half fuzzy_most : ℤ → ℤ) where
  -- In a sound client that requests an offer, a nak whose id carries another state than REQUESTING
  -- raises AssertionError, and the client is as it was.
  pub nak_received_unleased :
      (fresh : ℕ) (m : ReceivedDhcpMessage) (c : Client)
      → IsSound timeouts c
      → c.state ≡ requesting
      → is_requesting (request_state m.xid) ≡ false
      → nak_received timeouts release_on_exit fuzzy_half fuzzy_most fresh m c ≡ (c, assertion_error)
  unfolding nak_received ◌>>=◌
  nak_received_unleased fresh m c v h n =
      let guarded : among c.state (requesting ∷ rebooting ∷ renewing ∷ rebinding ∷ []) ≡ true =
        ap (λ s. among s (requesting ∷ rebooting ∷ renewing ∷ rebinding ∷ [])) h in
      rw
        (
          guarded,
          n,
          run_hooks_unleased unbound c c.lease (subst (λ s. HoldsLease s c.lease) h v.lease_kept),
        )
        refl
