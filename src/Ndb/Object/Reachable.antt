-- ===== src/Ndb/Object/Reachable.antt =====
-- The objects that there can be: one is created, its fields are assigned, it is loaded, events arrive, it
-- is to be removed, and its changes are applied.
use Prim.Native.String.{String}
use pyroute.Prelude.{
  ℕ, ◌≡◌, Bool, false, ◌&&◌, Option, some, [], ◌∷◌, ◌==◌, Bool-cases, inl, inr, arith,
}
use pyroute.Requests.Processor.{member}
use pyroute.Ndb.Events.{invalid, system, is}
use pyroute.Ndb.Object.{Object, Class, Fetched, load_sql, set_item, remove_object}
use pyroute.Ndb.Object.Assigns.{IsTracked, set_all-Carries}
use pyroute.Ndb.Object.Tracked.{load_sql-IsTracked, load_event-IsTracked, run-IsTracked}
use pyroute.Ndb.Object.Rounds.{Method, Event, Round, load_event, apply_rounds}
use pyroute.Ndb.Object.Requests.{Request, start_state, make_req}
use pyroute.Ndb.Object.Requests.Carries.{put_changed-IsRequest}

-- `__init__`.
unfoldable pub new_object : {V : Type 0} → Object V
new_object = record { fields = []; changed = []; state = invalid ∷ []; replacing = false }

module _ {V : Type 0} (eq : V → V → Bool) (c : Class V) where
  pub data Step (o : Object V) : Object V → Type 0 where
    assigned : (key : String) (v : Option V) → Step o (set_item eq c o key v).1
    loaded : (f : Fetched V) → Step o (load_sql eq c o f)
    notified : (e : Event V) → Step o (load_event eq c e o)
    removed : Step o (remove_object o)
    counted : (count : ℕ) → Step o (start_state count o)
    applied :
        (m : Method) (complete : Bool) (rounds : ℕ → Round V)
        → Step o (apply_rounds eq c m complete rounds o).1

  pub data Reachable : Object V → Type 0 where
    created : Reachable new_object
    step : {o o' : Object V} → Reachable o → Step o o' → Reachable o'

  start_state-IsTracked : (count : ℕ) (o : Object V) → IsTracked o → IsTracked (start_state count o)
  unfolding start_state
  start_state-IsTracked count o h = elim (Bool-cases (is o.state system && count == 0)) [
    | inl y ↦ rw y h
    | inr m ↦ rw m h
  ]

  step-IsTracked : (o o' : Object V) → Step o o' → IsTracked o → IsTracked o'
  unfolding set_item
  step-IsTracked o o' (assigned key v) h = (set_all-Carries eq c o key _ h).0
  step-IsTracked o o' (loaded f) h = load_sql-IsTracked eq c o f h
  step-IsTracked o o' (notified e) h = load_event-IsTracked eq c e o h
  step-IsTracked o o' removed h = h
  step-IsTracked o o' (counted count) h = start_state-IsTracked count o h
  step-IsTracked o o' (applied m complete rounds) h =
      run-IsTracked eq c m complete rounds 10 0 false o h

  Reachable-IsTracked_all : (o : Object V) → Reachable o → IsTracked o
  unfolding new_object member
  Reachable-IsTracked_all o created = λ n pending. absurd (ground arith)
  Reachable-IsTracked_all o (step {o = before} r s) =
      step-IsTracked before o s (Reachable-IsTracked_all before r)

  -- In each object that there can be, a field with a pending change has a value to send, so that `make_req`
  -- never raises KeyError.
  pub Reachable-IsTracked :
      (o : Object V) (prime : Request V)
      → Reachable o
      → IsTracked o × ((req : Request V) × (make_req prime o ≡ some req))
  Reachable-IsTracked o prime r =
      let h = Reachable-IsTracked_all o r in
      let (req, made, f) = put_changed-IsRequest o.changed o prime h in (h, (req, made))
