-- ===== src/Ndb/Object/Requests.antt =====
-- The request that `apply` of pyroute2/ndb/objects/__init__.py makes of an object. What a master and the
-- filter of the caller make of it is left out.
pub mod Carries
use Prim.Native.String.{String}
use text.Mathlib.Text.{◌==◌ as str_eq}
use pyroute.Prelude.{
  ℕ, Bool, true, false, not, ◌&&◌, ◌||◌, Option, none, some, List, [], ◌∷◌, ◌==◌, if◌then◌else◌,
}
use pyroute.Requests.Processor.{lookup, assign, member}
use pyroute.Ndb.Events.{State, Status, invalid, system, is}
use pyroute.Ndb.Events.{set as set_state, get as get_state}
use pyroute.Ndb.Object.{Object, Class, get, is_there}
use pyroute.Ndb.Object.Rounds.{Method, add, set, del, method_of}

abbrev pub Request : Type 0 → Type 0
Request V = List (String × Option V)

abbrev pub is_del : Method → Bool
is_del add = false
is_del set = false
is_del del = true

module _ {V : Type 0} where
  -- A system object that the database does not know is invalid.
  unfoldable pub start_state : ℕ → Object V → Object V
  start_state count o =
      if is o.state system && count == 0 then record o { state = set_state o.state invalid } else o

  abbrev pub add_value : String → Option V → Request V → Request V
  add_value k none req = req
  add_value k (some v) req = assign str_eq k (some v) req

  -- The columns of the key that have a value.
  unfoldable pub prime_of : List String → Object V → Request V → Request V
  prime_of [] o req = req
  prime_of (k ∷ ks) o req = prime_of ks o (add_value k (get o k) req)

  -- The values of the changed fields; a field that is not there is KeyError.
  unfoldable pub put_changed : List String → Object V → Request V → Option (Request V)
  put_changed [] o req = some req
  put_changed (k ∷ ks) o req = elim (lookup str_eq k o.fields) [
    | none ↦ none
    | some v ↦ put_changed ks o (assign str_eq k v req)
  ]

  abbrev pub make_req : Request V → Object V → Option (Request V)
  make_req prime o = put_changed o.changed o prime

  -- The fields with a value that the request has not.
  unfoldable pub fill : List (String × Option V) → Request V → Request V
  fill [] req = req
  fill ((k, v) ∷ items) req =
      fill items (if is_there (lookup str_eq k req) then req else add_value k v req)

  abbrev pub filled : Object V → Option (Request V) → Option (Request V)
  filled o none = none
  filled o (some req) = some (fill o.fields req)

  -- The request for a method: of the key and the changes, with all fields for `add`, the key for `del`.
  -- The request of the changes is made in any case.
  unfoldable pub request_for :
      Method → Request V → Object V → Option (Request V) → Option (Request V)
  request_for add prime o req = filled o req
  request_for set prime o req = req
  request_for del prime o none = none
  request_for del prime o (some req) = some prime

  abbrev pub request : Class V → Method → Object V → Option (Request V)
  request c m o = request_for m (prime_of c.knorm o []) o (make_req (prime_of c.knorm o []) o)
