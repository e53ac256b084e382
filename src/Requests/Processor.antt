-- ===== src/Requests/Processor.antt =====
-- `RequestProcessor` of pyroute2/requests/main.py: a dict whose items pass a list of filters. Keys and
-- values are of any type; a dict is its items in order. A filter is an object that may have each of the
-- methods `key_transform`, `policy`, `set_<key>` and `get_<key>`, and the attribute `allowed`; its methods
-- return, and change nothing but by what they return.
pub mod Lookup
pub mod Reads
pub mod Tests
use pyroute.Prelude.{
  Bool, true, false, not, ◌||◌, ◌&&◌, Option, none, some, List, [], ◌∷◌, ◌++◌, if◌then◌else◌,
}

pub record Filter (K V : Type 0) : Type 0 where
  pub key_transform : Option (K → K)
  pub allowed : Option (List K)
  pub policy : Option (K → Bool)
  -- The setter reads the data, the context and what was set so far.
  pub setter : K → Option ((K → Option V) → V → List (K × V))
  -- The getter reads the data, for the mode of the call.
  pub getter : K → Option (List (K × V) → V)

pub record RequestProcessor (K V : Type 0) : Type 0 where
  pub data' : List (K × V)
  pub field_filters : List (Filter K V)
  pub mark : List K
  pub context : K → Option V

-- The outcome of the filters: one of them refused the key, or what was set.
pub data Job (K V : Type 0) : Type 0 where
  refused : Job K V
  kept : Option (List (K × V)) → Job K V

module _ {K V : Type 0} where
  unfoldable pub next : Job K V → (Option (List (K × V)) → Job K V) → Job K V
  next refused k = refused
  next (kept r) k = k r

  abbrev pub or_empty : Option (List (K × V)) → List (K × V)
  or_empty none = []
  or_empty (some d) = d

  abbrev pub job_of : Option (List (K × V)) → List (K × V) → List (K × V)
  job_of none job = job
  job_of (some d) job = d

module _ {K : Type 0} where
  abbrev pub transformed : Option (K → K) → K → K
  transformed none k = k
  transformed (some f) k = f k

  abbrev pub permits : Option (K → Bool) → K → Bool
  permits none k = true
  permits (some f) k = f k

module _ {V : Type 0} where
  abbrev pub or_else : Option V → Option V → Option V
  or_else (some v) other = some v
  or_else none other = other

module _ {K V : Type 0} where
  -- The first filter with a getter.
  unfoldable pub find_getter : List (Filter K V) → K → Option (List (K × V) → V)
  find_getter [] k = none
  find_getter (f ∷ fs) k = or_else (f.getter k) (find_getter fs k)

module _ {K : Type 0} (eq : K → K → Bool) where
  unfoldable pub member : K → List K → Bool
  member k [] = false
  member k (a ∷ ks) = eq a k || member k ks

  abbrev pub is_allowed : Option (List K) → K → Bool
  is_allowed none k = true
  is_allowed (some ks) k = member k ks

module _ {K V : Type 0} (eq : K → K → Bool) where
  unfoldable pub lookup : K → List (K × V) → Option V
  lookup k [] = none
  lookup k ((a, v) ∷ d) = if eq a k then some v else lookup k d

  unfoldable pub delete : K → List (K × V) → List (K × V)
  delete k [] = []
  delete k ((a, v) ∷ d) = let rest = delete k d in if eq a k then rest else (a, v) ∷ rest

  -- `d[k] = v`.
  unfoldable pub assign : K → V → List (K × V) → List (K × V)
  assign k v [] = (k, v) ∷ []
  assign k v ((a, w) ∷ d) = let rest = assign k v d in if eq a k then (a, v) ∷ d else (a, w) ∷ rest

  -- `dict.update`.
  unfoldable pub update : List (K × V) → List (K × V) → List (K × V)
  update d [] = d
  update d ((k, v) ∷ e) = update (assign k v d) e

  -- `ChainMap(self.combined, ret)`.
  unfoldable pub chain_map : RequestProcessor K V → List (K × V) → K → Option V
  chain_map p ret k = or_else (lookup k p.data') (or_else (p.context k) (lookup k ret))

  unfoldable pub set_by :
      RequestProcessor K V
      → Option ((K → Option V) → V → List (K × V))
      → V
      → Option (List (K × V))
      → Option (List (K × V))
  set_by p none v ret = ret
  set_by p (some s) v ret = some (update (or_empty ret) (s (chain_map p (or_empty ret)) v))

  unfoldable pub apply_item :
      RequestProcessor K V → Filter K V → K → V → Option (List (K × V)) → Job K V
  apply_item p f k v ret =
      if not (is_allowed eq f.allowed (transformed f.key_transform k))
        || not (permits f.policy (transformed f.key_transform k))
      then refused
      else kept (set_by p (f.setter (transformed f.key_transform k)) v ret)

  -- The inner loop, over the items of the job.
  unfoldable pub apply_items :
      RequestProcessor K V → Filter K V → List (K × V) → Option (List (K × V)) → Job K V
  apply_items p f [] ret = kept ret
  apply_items p f ((k, v) ∷ job) ret = next (apply_item p f k v ret) (λ r. apply_items p f job r)

  -- The loop over the filters.
  unfoldable pub run_filters :
      RequestProcessor K V → List (Filter K V) → List (K × V) → Option (List (K × V)) → Job K V
  run_filters p [] job ret = kept ret
  run_filters p (f ∷ fs) job ret =
      next (apply_items p f job ret) (λ r. run_filters p fs (job_of r job) r)

  unfoldable pub filtered : K → V → Job K V → List (K × V)
  filtered k v refused = []
  filtered k v (kept none) = (k, v) ∷ []
  filtered k v (kept (some d)) = d

  unfoldable pub filter : RequestProcessor K V → K → V → List (K × V)
  filter p k v = filtered k v (run_filters p p.field_filters ((k, v) ∷ []) none)

  -- Each item of the new data replaces one with its key, at the end.
  unfoldable pub store_all : List (K × V) → List (K × V) → List (K × V)
  store_all d [] = d
  store_all d ((k, v) ∷ new) = store_all (delete k d ++ (k, v) ∷ []) new

  -- `__setitem__`: None sets nothing.
  unfoldable pub set_item : RequestProcessor K V → K → Option V → RequestProcessor K V
  set_item p k none = p
  set_item p k (some v) = record p { data' = store_all (delete k p.data') (filter p k v) }

  unfoldable pub update_items : RequestProcessor K V → List (K × Option V) → RequestProcessor K V
  update_items p [] = p
  update_items p ((k, v) ∷ prime) = update_items (set_item p k v) prime

  unfoldable pub read_value :
      RequestProcessor K V
      → K
      → Option V
      → Option (List (K × V) → V)
      → RequestProcessor K V × Option V
  read_value p k default (some g) = (p, some (g p.data'))
  read_value p k default none =
      (record p { mark = p.mark ++ k ∷ [] }, or_else (lookup k p.data') default)

  unfoldable pub get_value : RequestProcessor K V → K → Option V → RequestProcessor K V × Option V
  get_value p k default = read_value p k default (find_getter p.field_filters k)

  -- `items`: those that are not marked.
  unfoldable pub unmarked : List K → List (K × V) → List (K × V)
  unmarked mark [] = []
  unmarked mark ((k, v) ∷ d) =
      let rest = unmarked mark d in if member eq k mark then rest else (k, v) ∷ rest

  unfoldable pub items : RequestProcessor K V → List (K × V)
  items p = unmarked p.mark p.data'
