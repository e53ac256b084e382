-- ===== src/Ndb/Object/Commits/Tests.antt =====
-- A link that is not in the system yet: its record is there in the second round.
use Prim.Native.String.{String}
use text.Mathlib.Text.{◌==◌ as str_eq}
use text.Mathlib.TextEquality.{eq_iff}
use pyroute.Prelude.{
  ℕ, ◌≡◌, refl, subst, true, false, Option, none, some, [], ◌∷◌, ◌==◌, if◌then◌else◌, arith,
}
use pyroute.Requests.Processor.{lookup, member}
use pyroute.Ndb.Events.{invalid, remove, is}
use pyroute.Ndb.Object.{Object, found, missing, count}
use pyroute.Ndb.Object.{get, check, load_sql}
use pyroute.Ndb.Object.Loads.{IsConfirmed}
use pyroute.Ndb.Events.{transition}
use pyroute.Ndb.Object.Rounds.{add, run, load_events, apply_rounds, checked}
use pyroute.Ndb.Object.Assigns.{IsTracked, known}
use pyroute.Ndb.Object.Merge.{column}
use pyroute.Ndb.Object.Rounds.{Method, Round}
use pyroute.Ndb.Object.Requests.{Request, request}
use pyroute.Ndb.Object.Commits.{Failure, commit}
use pyroute.Ndb.Object.Commits.Outcomes.{IsCommitted, commit-IsCommitted}
use pyroute.Ndb.Object.Commits.Returns.{AllConfirmed, now, later, commit-returns}
use pyroute.Ndb.Object.Tests.{eq_num, link_class}

abbrev new_link : Object ℕ
new_link = record {
  fields = ("target", some 7) ∷ ("index", some 2) ∷ ("mtu", some 1400) ∷ [];
  changed = "mtu" ∷ [];
  state = invalid ∷ [];
  replacing = false;
}

abbrev slow_system : Method → Request ℕ → ℕ → Round ℕ
slow_system m req itn = record {
  api = none;
  hook = none;
  reloaded = missing;
  events = [];
  fetched = if itn == 0 then missing else found (some 2 ∷ some 1400 ∷ []);
}

abbrev leave : Object ℕ → Option Failure × Object ℕ
leave o = (none, o)

is_mtu : (n : String) → member str_eq n ("mtu" ∷ []) ≡ true → "mtu" ≡ n
unfolding member
is_mtu n pending = (eq_iff "mtu" n).0 (ground (arith, pending))

new_link-IsTracked : IsTracked new_link
unfolding lookup
new_link-IsTracked n pending = subst (λ x. known x new_link ≡ true) (is_mtu n pending) refl

commit-IsCommitted_example :
    (req : Request ℕ) × (request link_class add new_link ≡ some req)
    × IsCommitted eq_num link_class true slow_system true none new_link
        (commit eq_num link_class true slow_system leave 0 new_link)
unfolding is lookup
commit-IsCommitted_example =
    commit-IsCommitted eq_num link_class true slow_system leave 0 new_link refl new_link-IsTracked

confirmed : AllConfirmed eq_num link_class (some 2 ∷ some 1400 ∷ []) new_link
unfolding column lookup get
confirmed n pending =
    subst (IsConfirmed eq_num link_class new_link (some 2 ∷ some 1400 ∷ [])) (is_mtu n pending)
      (some 1400, refl, refl)

commit-returns_example : (commit eq_num link_class true slow_system leave 0 new_link).0 ≡ none
unfolding is member count lookup
commit-returns_example =
    commit-returns eq_num link_class (some 2 ∷ some 1400 ∷ []) true slow_system leave 0 new_link
      refl new_link-IsTracked (refl, refl, (refl, refl, tt)) confirmed refl
      (λ req. later refl refl refl refl (now refl refl refl refl))

-- A link that was removed is added again: the check passes by its removal, before there is a record.
abbrev gone_link : Object ℕ
gone_link = record {
  fields = ("target", some 7) ∷ ("index", some 2) ∷ [];
  changed = [];
  state = invalid ∷ remove ∷ [];
  replacing = false;
}

abbrev empty_system : ℕ → Round ℕ
empty_system itn = record {
  api = none;
  hook = none;
  reloaded = missing;
  events = [];
  fetched = missing;
}

check_by_removal :
    apply_rounds eq_num link_class add true empty_system gone_link ≡ (checked, gone_link)
unfolding run load_events check load_sql is transition lookup
check_by_removal = refl
