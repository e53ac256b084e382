-- ===== src/Ndb/Object/Rounds.antt =====
-- The calls of the API in `apply` of pyroute2/ndb/objects/__init__.py: up to ten rounds of a call, the
-- errors that are passed over, the wait for events and the check. A round is what the outside gives in
-- it: the codes of the errors of netlink, the records that are found, and the events that arrive.
pub mod Ends
use pyroute.Prelude.{
  ℕ, zero, suc, Bool, true, false, not, ◌&&◌, ◌||◌, Option, none, some, List, [], ◌∷◌, ◌==◌,
  if◌then◌else◌,
}
use Prim.Native.String.{String}
use text.Mathlib.Text.{◌==◌ as str_eq}
use pyroute.Requests.Processor.{lookup}
use pyroute.Ndb.Events.{Status, invalid, system, change, replace, setns, remove}
use pyroute.Ndb.Events.{set as set_state}
use pyroute.Ndb.Object.{Object, Class, Fetched, load_sql, check}

pub data Method : Type 0 where
  add set del : Method

-- None is ignored; the function `fallback_add` loads the object again. No class has the name of a call.
pub data Fallback : Type 0 where
  ignored reload : Fallback

-- The method of a state; none is the exception of a transition that is not supported.
unfoldable pub method_of : Option Status → Option Method
method_of none = none
method_of (some invalid) = some add
method_of (some replace) = some add
method_of (some change) = some set
method_of (some system) = some set
method_of (some setns) = some set
method_of (some remove) = some del

-- EEXIST, EAGAIN; ENODEV; ENODEV, ENOENT, ESRCH, EADDRNOTAVAIL.
unfoldable pub fallback_for : Method → ℕ → Option Fallback
fallback_for add e = if e == 17 then some reload else if e == 11 then some ignored else none
fallback_for set e = if e == 19 then some ignored else none
fallback_for del e = if e == 19 || (e == 2 || (e == 3 || e == 99)) then some ignored else none

-- An event that matches the object: it is deleted, or the database has a record of it.
pub data Event (V : Type 0) : Type 0 where
  deleted : Event V
  updated : Fetched V → Event V

pub record Round (V : Type 0) : Type 0 where
  pub api : Option ℕ
  pub hook : Option ℕ
  pub reloaded : Fetched V
  pub events : List (Event V)
  pub fetched : Fetched V

pub data Outcome : Type 0 where
  checked unchecked no_source : Outcome
  raised : ℕ → Outcome

abbrev pub returned : Option ℕ → Bool
returned none = true
returned (some e) = false

-- The call of the API, then the hook.
abbrev pub error_of : Option ℕ → Option ℕ → Option ℕ
error_of none hook = hook
error_of (some e) hook = some e

abbrev pub call_error : {V : Type 0} → Round V → Option ℕ
call_error r = error_of r.api r.hook

module _ {V : Type 0} (eq : V → V → Bool) (c : Class V) where
  unfoldable pub load_event : Event V → Object V → Object V
  load_event deleted o = record o { state = set_state o.state invalid; changed = [] }
  load_event (updated f) o = load_sql eq c o f

  unfoldable pub load_events : List (Event V) → Object V → Object V
  load_events [] o = o
  load_events (e ∷ events) o = load_events events (load_event e o)

  -- `fallback_add`: its calls of the API are coroutines that are not awaited, so only the load is left.
  unfoldable pub fallback_add : Bool → Fetched V → Object V → Object V
  fallback_add complete f o = if complete then load_sql eq c o f else o

  abbrev pub run_fallback : Bool → Fetched V → Object V → Fallback → Object V
  run_fallback complete f o ignored = o
  run_fallback complete f o reload = fallback_add complete f o

  abbrev pub handle_with : Bool → Fetched V → Object V → ℕ → Option Fallback → Option ℕ × Object V
  handle_with complete f o e none = (some e, o)
  handle_with complete f o e (some fallback) = (none, run_fallback complete f o fallback)

  abbrev pub handle_error :
      Method → Bool → Bool → Fetched V → Object V → Option ℕ → Option ℕ × Object V
  handle_error m complete first f o none = (none, o)
  handle_error m complete first f o (some e) =
      if not first then (some e, o) else handle_with complete f o e (fallback_for m e)

  abbrev pub after_call : Method → Bool → Bool → Round V → Object V → Option ℕ × Object V
  after_call m complete first r o =
      handle_error m complete (first || returned r.api) r.reloaded o (call_error r)

  abbrev pub settle : Round V → Object V → Bool × Object V
  settle r o = check eq c (load_events r.events o) r.fetched

  -- `self.sources[self['target']]` is there.
  abbrev pub is_source : Option (Option V) → Bool
  is_source none = false
  is_source (some v) = c.sources v

  abbrev pub has_source : Object V → Bool
  has_source o = is_source (lookup str_eq "target" o.fields)

  abbrev pub after_check : (Object V → Outcome × Object V) → Bool × Object V → Outcome × Object V
  after_check rest (true, o) = (checked, o)
  after_check rest (false, o) = rest o

  abbrev pub after_error :
      Round V → (Object V → Outcome × Object V) → Option ℕ × Object V → Outcome × Object V
  after_error r rest (some e, o) = (raised e, o)
  after_error r rest (none, o) = after_check rest (settle r o)

  -- The rounds that are left, from the round `itn` on. Behind the last one `use_db_resync` runs the check
  -- once more, whose result it cannot iterate over.
  unfoldable pub run : Method → Bool → (ℕ → Round V) → ℕ → ℕ → Bool → Object V → Outcome × Object V
  run m complete rounds zero itn first o = (unchecked, (check eq c o (rounds itn).fetched).1)
  run m complete rounds (suc n) itn first o =
      let rest = run m complete rounds n (suc itn) (first || returned (rounds itn).api) in
      if has_source o
      then after_error (rounds itn) rest (after_call m complete first (rounds itn) o)
      else (no_source, o)

  abbrev pub apply_rounds : Method → Bool → (ℕ → Round V) → Object V → Outcome × Object V
  apply_rounds m complete rounds o = run m complete rounds 10 0 false o
