-- ===== src/Ndb/Object/Loads.antt =====
-- `load_sql` and `check` of an object, over all that the database can give.
use Prim.Native.String.{String}
use pyroute.Prelude.{
  ◌≡◌, refl, sym, ◌∙◌, Bool, true, false, ◌||◌, Option, none, some, List, [], ◌∷◌, if◌then◌else◌,
  Bool-cases, inl, inr, arith,
}
use pyroute.Requests.Processor.{member}
use pyroute.Ndb.Events.{invalid, system, remove, setns, State, Status, is, set}
use pyroute.Ndb.Object.{
  Object, Class, Fetched, found, missing, no_key, has, transformed, expected, update_from_sql,
  load_sql, no_changes, check,
}
use pyroute.Ndb.Object.Merge.{column, IsMerge, Distinct, load_columns-IsMerge, still_pending}

-- The state that is set is the last one.
is-set : (state : State) (status : Status) → is (set state status) status ≡ true
unfolding is set
is-set [] status = ground arith
is-set (s ∷ events) status = ground arith

no_changes-has :
    (n : String) (changed : List String) → no_changes changed ≡ true → has n changed ≡ false
unfolding member
no_changes-has n [] h = refl
no_changes-has n (k ∷ ks) h = absurd (ground arith)

module _ {V : Type 0} (eq : V → V → Bool) (c : Class V) where
  -- What a load gives when a record is found; an object that is leaving is left alone.
  abbrev IsFound : Bool → Object V → List (Option V) → Object V → Type 0
  IsFound true o row after = after ≡ o
  IsFound false o row after = IsMerge eq c o after c.names row × (is after.state system ≡ true)

  -- What a load gives: nothing without a key; an object that is gone is invalid, with its fields, and what
  -- was pending is dropped when it was not known to be gone; else the record is merged.
  abbrev pub IsLoaded : Object V → Fetched V → Object V → Type 0
  IsLoaded o no_key after = after ≡ o
  IsLoaded o missing after =
      (after.fields ≡ o.fields)
      × (is after.state invalid ≡ true)
      × (after.changed ≡ (if is o.state invalid then o.changed else []))
  IsLoaded o (found row) after = IsFound (is o.state remove || is o.state setns) o row after

  -- When the names of the columns are distinct, a load is without effect on an object that has no key or is
  -- leaving, makes an object that is gone invalid and drops what was pending, and else merges the record: a
  -- pending change is not overwritten, but where a comparison gives another value for it, and it is pending
  -- no more exactly when the record confirms it.
  pub load_sql-IsLoaded :
      (o : Object V) (fetched : Fetched V)
      → Distinct eq c c.names
      → IsLoaded o fetched (load_sql eq c o fetched)
  unfolding load_sql update_from_sql
  load_sql-IsLoaded o no_key d = refl
  load_sql-IsLoaded o missing d = elim (Bool-cases (is o.state invalid)) [
    | inl y ↦ rw y (refl, y, refl)
    | inr m ↦ rw m (refl, is-set o.state invalid, refl)
  ]
  load_sql-IsLoaded o (found row) d = elim (Bool-cases (is o.state remove || is o.state setns)) [
    | inl y ↦ rw y refl
    | inr m ↦ rw m (load_columns-IsMerge eq c c.names row o d, is-set o.state system)
  ]

  -- The record has a value for the name that the pending change expects.
  abbrev pub IsConfirmed : Object V → List (Option V) → String → Type 0
  IsConfirmed o row n =
      (v : Option V) × (column eq c n c.names row ≡ some v)
      × (expected eq c o n (transformed (c.load_transform n) v) ≡ true)

  still_pending-IsConfirmed :
      (o : Object V) (row : List (Option V)) (n : String) (new : Option (Option V))
      → column eq c n c.names row ≡ new
      → has n o.changed ≡ true
      → still_pending eq c o n new ≡ false
      → IsConfirmed o row n
  still_pending-IsConfirmed o row n none at pending h = absurd (ground arith)
  still_pending-IsConfirmed o row n (some v) at pending h = (v, at, ground arith)

  -- A check of an object that is not leaving, with distinct names of columns, passes only if the record
  -- that is found confirms each change that was pending.
  pub check-IsConfirmed :
      (o : Object V) (row : List (Option V))
      → Distinct eq c c.names
      → is o.state remove ≡ false
      → is o.state setns ≡ false
      → (check eq c o (found row)).0 ≡ true
      → (n : String) → has n o.changed ≡ true
      → IsConfirmed o row n
  unfolding check
  check-IsConfirmed o row d r s h n pending =
      let settled : no_changes (load_sql eq c o (found row)).changed ≡ true = ground arith in
      let loaded : IsFound false o row (load_sql eq c o (found row)) =
        rw (r, s) at (load_sql-IsLoaded o (found row) d) in
      still_pending-IsConfirmed o row n (column eq c n c.names row) refl pending
        (sym ((loaded.0 n).1) ∙ no_changes-has n _ settled)
