-- ===== src/Dhcp/Client/Reachable.antt =====
-- What holds of a client at every moment between `__aenter__` and `__aexit__`.
use pyroute.Prelude.{ℕ, ◌<◌, refl, Bool, Option}
use pyroute.Dhcp.Fsm.{State}
use pyroute.Dhcp.Leases.{ℤ, Lease}
use pyroute.Dhcp.Messages.{ReceivedDhcpMessage}
use pyroute.Dhcp.Client.{bootstrap, reset, renew, rebind, expire_lease, process_msg, aenter}
use pyroute.Dhcp.Machine.{Client, new_client, send_round}
use pyroute.Dhcp.Client.Invariant.{IsSound}
use pyroute.Dhcp.Client.Receiving.{AckNamesServer, process_msg-IsSound}
use pyroute.Dhcp.Client.Keeps.{
  renew-IsSound, rebind-IsSound, expire_lease-IsSound, bootstrap-IsSound, Same-IsSound,
  send_round-IsSound, aenter-IsSound, reset-IsSound,
}

module _ (timeouts : State → Option ℕ) (release_on_exit : Bool)
    (fuzzy_half fuzzy_most : ℤ → ℤ) where
  -- What may happen to a running client: the program calls `bootstrap`; a timer or a signal calls a
  -- handler, late or not; the watchdog or SIGHUP resets it; a message comes, of any kind, but an ack names
  -- its server; the sender does a round; time passes. Handlers may raise, too: the client goes on.
  pub data Step : Client → Client → Type 0 where
    bootstraps :
        (c : Client) → Step c (bootstrap timeouts release_on_exit fuzzy_half fuzzy_most c).0
    renews : (c : Client) → Step c (renew timeouts release_on_exit fuzzy_half fuzzy_most c).0
    rebinds : (c : Client) → Step c (rebind timeouts release_on_exit fuzzy_half fuzzy_most c).0
    expires :
        (c : Client) (fresh : ℕ)
        → fresh < 0xffff_ffff
        → Step c (expire_lease timeouts release_on_exit fuzzy_half fuzzy_most fresh c).0
    resets :
        (c : Client) (fresh : ℕ)
        → fresh < 0xffff_ffff
        → Step c (reset timeouts release_on_exit fuzzy_half fuzzy_most fresh c).0
    receives :
        (c : Client) (fresh : ℕ) (m : ReceivedDhcpMessage)
        → fresh < 0xffff_ffff
        → AckNamesServer m
        → Step c (process_msg timeouts release_on_exit fuzzy_half fuzzy_most fresh m c).0
    sends : (c : Client) → Step c (send_round c)
    ticks : (c : Client) (now : ℕ) → Step c (record c { clock = now })

  pub data IsReachable : Client → Type 0 where
    enters :
        (fresh now : ℕ) (loaded : Option Lease)
        → fresh < 0xffff_ffff
        → IsReachable
            (aenter timeouts release_on_exit fuzzy_half fuzzy_most fresh loaded (new_client now)).0
    steps : (c d : Client) → IsReachable c → Step c d → IsReachable d

  Step-IsSound : (c d : Client) → IsSound timeouts c → Step c d → IsSound timeouts d
  Step-IsSound c d v (bootstraps _) =
      bootstrap-IsSound timeouts release_on_exit fuzzy_half fuzzy_most c v
  Step-IsSound c d v (renews _) = renew-IsSound timeouts release_on_exit fuzzy_half fuzzy_most c v
  Step-IsSound c d v (rebinds _) = rebind-IsSound timeouts release_on_exit fuzzy_half fuzzy_most c v
  Step-IsSound c d v (expires _ fresh small) =
      expire_lease-IsSound timeouts release_on_exit fuzzy_half fuzzy_most fresh c small v
  Step-IsSound c d v (resets _ fresh small) =
      reset-IsSound timeouts release_on_exit fuzzy_half fuzzy_most fresh c small v
  Step-IsSound c d v (receives _ fresh m small named) =
      process_msg-IsSound timeouts release_on_exit fuzzy_half fuzzy_most fresh m c small v named
  Step-IsSound c d v (sends _) =
      send_round-IsSound timeouts release_on_exit fuzzy_half fuzzy_most c v
  Step-IsSound c d v (ticks _ now) =
      Same-IsSound timeouts release_on_exit fuzzy_half fuzzy_most c _ v refl

  -- Every client that is reachable while each ack that comes names its server is sound, whatever else comes,
  -- and also after a handler raised: there is a lease in INIT_REBOOT, REBOOTING, BOUND, RENEWING and
  -- REBINDING and none in INIT, SELECTING and REQUESTING; a timer is armed only where its handler would
  -- run; the watchdog has the timeout of the state; of the events exactly that of the state is set; and
  -- the id is known and below 2^32 - 1.
  pub reachable-IsSound : (c : Client) → IsReachable c → IsSound timeouts c
  reachable-IsSound c (enters fresh now loaded small) =
      aenter-IsSound timeouts release_on_exit fuzzy_half fuzzy_most fresh now loaded small
  reachable-IsSound c (steps b _ r s) = Step-IsSound b c (reachable-IsSound b r) s
