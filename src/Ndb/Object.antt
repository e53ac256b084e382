-- ===== src/Ndb/Object.antt =====
-- `AsyncObject` of pyroute2/ndb/objects/__init__.py, an object of the network database: its fields, the
-- changes that are pending, and its state. Values are of any type with the test `==`; None is none. What
-- the database holds and what the calls of the API return are arguments, in the order of the calls.
pub mod Keys
pub mod Merge
pub mod Loads
pub mod Rounds
pub mod Assigns
pub mod Tracked
pub mod Reachable
pub mod Requests
pub mod Commits
pub mod Tests
use Prim.Native.String.{String}
use text.Mathlib.Text.{◌==◌ as str_eq}
use pyroute.Prelude.{
  ℕ, zero, suc, ◌+◌, Bool, true, false, not, ◌&&◌, ◌||◌, Option, none, some, List, [], ◌∷◌, ◌++◌,
  ◌==◌, if◌then◌else◌,
}
use pyroute.Ndb.Events.{
  Status, invalid, system, change, replace, setns, remove, State, is, set, same, transition,
}
use pyroute.Requests.Processor.{RequestProcessor, lookup, assign, delete, member, filter}

module _ {V : Type 0} (eq : V → V → Bool) where
  abbrev pub value_eq : Option V → Option V → Bool
  value_eq none none = true
  value_eq none (some b) = false
  value_eq (some a) none = false
  value_eq (some a) (some b) = eq a b

abbrev pub has : String → List String → Bool
has k ks = member str_eq k ks

-- `set.add` and `set.remove`.
unfoldable pub add : String → List String → List String
add k ks = if has k ks then ks else ks ++ k ∷ []

unfoldable pub discard : String → List String → List String
discard k [] = []
discard k (a ∷ ks) = let rest = discard k ks in if str_eq a k then rest else a ∷ rest

unfoldable pub count : String → List String → ℕ
count k [] = 0
count k (a ∷ ks) = if str_eq a k then suc (count k ks) else count k ks

abbrev pub in_map : Option (Status × Status) → Bool
in_map none = false
in_map (some (a, b)) =
    (same b system && (same a invalid || same a setns || same a replace || same a change))
    || (same b invalid && (same a remove || same a setns))

abbrev pub no_changes : List String → Bool
no_changes [] = true
no_changes (k ∷ ks) = false

pub record Object (V : Type 0) : Type 0 where
  pub fields : List (String × Option V)
  pub changed : List String
  pub state : State
  -- There is a `_replace` object.
  pub replacing : Bool

-- What the class of an object and its table give: the columns, the columns of the key, and the flags of
-- `_replace_on_key_change`.
pub record Class (V : Type 0) : Type 0 where
  pub names : List String
  pub knorm : List String
  pub key_extra_fields : List String
  pub add_remove : Bool
  pub change_key : Bool
  pub load_transform : String → Option (Option V → Option V)
  -- A comparison of the field and the loaded value: none is that they differ, else what the field becomes.
  pub fields_cmp : String → Option (Option V → Option V → Option (Option V))
  pub object_data : RequestProcessor String (Option V)
  -- `sources` of the database has the key.
  pub sources : Option V → Bool

-- What `fetch_sql` gives: the object has no key to ask for, there is no such record, or the record.
pub data Fetched (V : Type 0) : Type 0 where
  no_key missing : Fetched V
  found : List (Option V) → Fetched V

module _ {V : Type 0} where
  abbrev pub value_of : Option (Option V) → Option V
  value_of none = none
  value_of (some v) = v

  -- `self.get(key)`.
  unfoldable pub get : Object V → String → Option V
  get o k = value_of (lookup str_eq k o.fields)

  unfoldable pub put : Object V → String → Option V → Object V
  put o k v = record o { fields = assign str_eq k v o.fields }

  abbrev pub is_none : Option V → Bool
  is_none none = true
  is_none (some v) = false

  abbrev pub transformed : Option (Option V → Option V) → Option V → Option V
  transformed none v = v
  transformed (some f) v = f v

  abbrev pub compared :
      Option (Option V → Option V → Option (Option V)) → Option V → Option V → Option (Option V)
  compared none mine v = none
  compared (some f) mine v = f mine v

  abbrev pub is_there : Option (Option V) → Bool
  is_there none = false
  is_there (some v) = true

  abbrev pub take_agreed : Object V → String → Option (Option V) → Object V
  take_agreed o k none = o
  take_agreed o k (some w) = record (put o k w) { changed = discard k o.changed }

  abbrev pub enter_setns : String → Object V → Object V
  enter_setns nkey o =
      if str_eq nkey "net_ns_fd" || str_eq nkey "net_ns_pid"
      then record o { state = set o.state setns }
      else o

  abbrev pub note_change : String → Object V → Object V
  note_change nkey o = if str_eq nkey "target" then o else record o { changed = add nkey o.changed }

  abbrev pub changed_to : String → Option V → Option (Object V) → Option (Object V)
  changed_to nkey v none = none
  changed_to nkey v (some o) = some (put (note_change nkey (enter_setns nkey o)) nkey v)

  abbrev pub remove_object : Object V → Object V
  remove_object o = record o { state = set o.state remove }

module _ {V : Type 0} (eq : V → V → Bool) (c : Class V) where
  -- The loaded value is what the pending change expects.
  abbrev pub expected : Object V → String → Option V → Bool
  expected o k v = value_eq eq (get o k) v || is_there (compared (c.fields_cmp k) (get o k) v)

  unfoldable pub load_value : Object V → String → Option V → Object V
  load_value o k raw =
      if not (has k o.changed)
      then put o k (transformed (c.load_transform k) raw)
      else if value_eq eq (get o k) (transformed (c.load_transform k) raw)
      then record o { changed = discard k o.changed }
      else take_agreed o k
          (compared (c.fields_cmp k) (get o k) (transformed (c.load_transform k) raw))

  -- The columns with their values. A name that stands for one column only is loaded in any case.
  unfoldable pub load_columns : List String → List (Option V) → Object V → Object V
  load_columns [] vs o = o
  load_columns (k ∷ ks) [] o = o
  load_columns (k ∷ ks) (v ∷ vs) o =
      load_columns ks vs (if count k c.names == 1 || not (is_none v) then load_value o k v else o)

  unfoldable pub update_from_sql : List (Option V) → Object V → Object V
  update_from_sql vs o = load_columns c.names vs o

  -- `load_sql`, with what was fetched.
  unfoldable pub load_sql : Object V → Fetched V → Object V
  load_sql o no_key = o
  load_sql o missing =
      if is o.state invalid then o else record o { state = set o.state invalid; changed = [] }
  load_sql o (found row) =
      if is o.state remove || is o.state setns
      then o
      else record (update_from_sql row o) { state = set o.state system }

  -- `check`, which loads first.
  unfoldable pub check : Object V → Fetched V → Bool × Object V
  check o f =
      (in_map (transition (load_sql o f).state) && no_changes (load_sql o f).changed, load_sql o f)

  -- `object_data.filter`: its context is the object.
  abbrev pub filtered : Object V → String → Option V → List (String × Option V)
  filtered o k v =
      filter str_eq (record c.object_data { context = λ n. lookup str_eq n o.fields }) k v

  -- A key field of an existing object: none is ValueError.
  unfoldable pub change_of_key : Object V → String → Option (Object V)
  change_of_key o key =
      if c.add_remove
      then some (record o { state = set o.state replace; replacing = true })
      else if c.change_key && has key c.key_extra_fields
      then some (record o { state = set o.state change })
      else none

  abbrev pub allowed_change : Object V → String → String → Option (Object V)
  allowed_change o key nkey =
      if (is o.state system || is o.state change) && has nkey c.knorm
      then change_of_key o key
      else some o

  -- The loop of `__setitem__`: whether it returns, and the object.
  unfoldable pub set_all : Object V → String → List (String × Option V) → Bool × Object V
  set_all o key [] = (true, o)
  set_all o key ((nkey, v) ∷ items) = elim (value_eq eq (get o nkey) v) [
    | true ↦ set_all o key items
    | false ↦ elim (changed_to nkey v (allowed_change o key nkey)) [
      | none ↦ (false, o)
      | some o' ↦ set_all o' key items
    ]
  ]

  unfoldable pub set_item : Object V → String → Option V → Bool × Object V
  set_item o key v = set_all o key (filtered o key v)
