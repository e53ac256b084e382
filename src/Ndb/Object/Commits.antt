-- ===== src/Ndb/Object/Commits.antt =====
-- `apply` and `commit` of an object that is not in the system, in pyroute2/ndb/objects/__init__.py, for an
-- object that replaces no other, has no chain, no script of further operations and no fields to resolve
-- (`resolve_fields` is empty by default). How the outside answers may depend on the method and the request.
-- What is kept for a later rollback is left out.
pub mod Outcomes
pub mod Returns
pub mod Tests
use Prim.Native.String.{String}
use pyroute.Prelude.{
  ℕ, Bool, true, false, not, ◌&&◌, Option, none, some, List, [], ◌∷◌, if◌then◌else◌,
}
use pyroute.Ndb.Events.{invalid, system, is}
use pyroute.Ndb.Events.{get as get_state}
use pyroute.Ndb.Object.{Object, Class, no_changes}
use pyroute.Ndb.Object.Rounds.{
  no_source, Method, method_of, Round, Outcome, checked, unchecked, raised, apply_rounds,
}
use pyroute.Ndb.Object.Requests.{Request, start_state, prime_of, make_req, request_for}

-- The exceptions: KeyError of a field, or of a target without a source, a state without a method, an error of netlink, and TypeError, which
-- stands where an exception tells that the changes could not be applied.
pub data Failure : Type 0 where
  key_error unsupported not_applied : Failure
  netlink_error : ℕ → Failure

module _ {V : Type 0} where
  unfoldable pub finish : Outcome × Object V → Option Failure × Object V
  finish (checked, o) = (none, o)
  finish (unchecked, o) = (some not_applied, o)
  finish (no_source, o) = (some key_error, o)
  finish (raised e, o) = (some (netlink_error e), o)

  unfoldable pub clean : Object V → Bool
  clean o = is o.state system && no_changes o.changed

  -- `commit` drops all fields and puts back those that it saved.
  abbrev pub restore : Object V → Option Failure × Object V → Option Failure × Object V
  restore o (none, after) = (none, after)
  restore o (some f, after) = (some f, record after { fields = o.fields })

module _ {V : Type 0} (eq : V → V → Bool) (c : Class V) (complete : Bool)
    (world : Method → Request V → ℕ → Round V) where
  abbrev pub send : Method → Object V → Option (Request V) → Option Failure × Object V
  send m o none = (some key_error, o)
  send m o (some req) = finish (apply_rounds eq c m complete (world m req) o)

  abbrev pub apply_method :
      Object V → Request V → Option (Request V) → Option Method → Option Failure × Object V
  apply_method o prime none m = (some key_error, o)
  apply_method o prime (some req) none = (some unsupported, o)
  apply_method o prime (some req) (some m) = send m o (request_for m prime o (some req))

  -- `apply`, from the object with its state of the start on.
  unfoldable pub apply_from : Object V → Option Failure × Object V
  apply_from o =
      apply_method o (prime_of c.knorm o []) (make_req (prime_of c.knorm o []) o)
        (method_of (get_state o.state))

  unfoldable pub apply : ℕ → Object V → Option Failure × Object V
  apply count o = apply_from (start_state count o)

  -- `commit`; what it does with an object of the system is an argument.
  unfoldable pub commit :
      (Object V → Option Failure × Object V) → ℕ → Object V → Option Failure × Object V
  commit existing count o =
      if clean o
      then (none, o)
      else if is o.state invalid
      then restore o (apply count o)
      else existing o
