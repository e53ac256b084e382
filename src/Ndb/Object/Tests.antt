-- ===== src/Ndb/Object/Tests.antt =====
-- An object with numbers for values: a link whose index is its key, with a change of the mtu pending.

use pyroute.Prelude.{
  Option, ℕ, ◌≡◌, refl, Bool, true, false, none, some, [], ◌∷◌, ◌==◌, if◌then◌else◌,
}
use pyroute.Requests.Processor.{lookup, assign, member}
use pyroute.Ndb.Events.{system, change, is, transition}
use pyroute.Ndb.Events.{set as set_state}
use pyroute.Ndb.Object.{
  Object, Class, found, missing, check, load_sql, update_from_sql, load_columns, load_value, get,
  put, discard, count,
}
use Prim.Native.String.{String}
use text.Mathlib.Text.{◌==◌ as str_eq}
use text.Mathlib.TextEquality.{eq_iff}
use pyroute.Prelude.{subst, arith}
use pyroute.Ndb.Object.{set_item}
use pyroute.Ndb.Object.Assigns.{IsTracked, known}
use pyroute.Ndb.Object.Requests.{Request, request, make_req}
use pyroute.Ndb.Object.Requests.Carries.{IsCarried, set_item-request}
use pyroute.Ndb.Object.Reachable.{new_object, assigned, created, step, Reachable-IsTracked}
use pyroute.Ndb.Object.Loads.{IsLoaded, IsConfirmed, load_sql-IsLoaded, check-IsConfirmed}
use pyroute.Ndb.Object.Rounds.{set, Round, checked, run, load_events, fallback_for, apply_rounds}
use pyroute.Ndb.Object.Rounds.Ends.{IsRun, apply_rounds-IsEnd}

abbrev pub eq_num : ℕ → ℕ → Bool
eq_num a b = a == b

abbrev is_source_name : Option ℕ → Bool
is_source_name none = false
is_source_name (some v) = v == 7

abbrev pub link_class : Class ℕ
link_class = record {
  names = "index" ∷ "mtu" ∷ [];
  knorm = "index" ∷ [];
  key_extra_fields = [];
  add_remove = false;
  change_key = false;
  load_transform = λ k. none;
  fields_cmp = λ k. none;
  sources = λ v. is_source_name v;
  object_data = record { data' = []; field_filters = []; mark = []; context = λ k. none };
}

abbrev link : Object ℕ
link = record {
  fields = ("target", some 7) ∷ ("index", some 2) ∷ ("mtu", some 1400) ∷ [];
  changed = "mtu" ∷ [];
  state = system ∷ change ∷ [];
  replacing = false;
}

load_sql-IsLoaded_example :
    IsLoaded eq_num link_class link
      (found (some 2 ∷ some 1500 ∷ []))
      (load_sql eq_num link_class link (found (some 2 ∷ some 1500 ∷ [])))
unfolding member count
load_sql-IsLoaded_example =
    load_sql-IsLoaded eq_num link_class link (found (some 2 ∷ some 1500 ∷ []))
      (refl, refl, (refl, refl, tt))

check-IsConfirmed_example : IsConfirmed eq_num link_class link (some 2 ∷ some 1400 ∷ []) "mtu"
unfolding is member count check transition load_sql set_state update_from_sql load_columns
    load_value put get lookup assign discard
check-IsConfirmed_example =
    check-IsConfirmed eq_num link_class link (some 2 ∷ some 1400 ∷ [])
      (refl, refl, (refl, refl, tt)) refl refl refl "mtu" refl

-- The first round is too early, and a hook fails in the second one.
abbrev rounds : ℕ → Round ℕ
rounds itn = record {
  api = none;
  hook = if itn == 1 then some 19 else none;
  reloaded = missing;
  events = [];
  fetched = found (some 2 ∷ some (if itn == 0 then 1500 else 1400) ∷ []);
}

apply_rounds-IsEnd_example :
    IsRun eq_num link_class set true rounds 10 true none link
      (apply_rounds eq_num link_class set true rounds link)
unfolding lookup
apply_rounds-IsEnd_example = apply_rounds-IsEnd eq_num link_class set true rounds link

apply_rounds_checks : (apply_rounds eq_num link_class set true rounds link).0 ≡ checked
unfolding run load_events load_sql update_from_sql load_columns load_value check member count get
    put assign lookup discard is set_state transition fallback_for
apply_rounds_checks = refl

link-IsTracked : IsTracked link
unfolding member lookup
link-IsTracked n pending =
    let here : "mtu" ≡ n = (eq_iff "mtu" n).0 (ground (arith, pending)) in
    subst (λ x. known x link ≡ true) here refl

set_item-request_example :
    IsTracked (set_item eq_num link_class link "mtu" (some 1600)).1
    × ((req : Request ℕ) × (request link_class set
            (set_item eq_num link_class link "mtu" (some 1600)).1
          ≡ some req)
        × ((n : String)
            → str_eq n "target" ≡ false
            → IsCarried link (set_item eq_num link_class link "mtu" (some 1600)).1 req n))
set_item-request_example =
    set_item-request eq_num link_class link "mtu" (some 1600) set link-IsTracked refl

Reachable-IsTracked_example :
    IsTracked (set_item eq_num link_class new_object "mtu" (some 1400)).1
    × ((req : Request ℕ) × (make_req
            (("index", some 2) ∷ [])
            (set_item eq_num link_class new_object "mtu" (some 1400)).1
          ≡ some req))
Reachable-IsTracked_example =
    Reachable-IsTracked eq_num link_class
      (set_item eq_num link_class new_object "mtu" (some 1400)).1 (("index", some 2) ∷ [])
      (step created (assigned "mtu" (some 1400)))
