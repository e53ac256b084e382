-- ===== src/Ndb/Object/Merge.antt =====
-- What is loaded from the database is merged with the pending changes.
use Prim.Native.String.{String}
use text.Mathlib.Text.{◌==◌ as str_eq}
use text.Mathlib.TextEquality.{eq_iff}
use pyroute.Prelude.{
  ◌≡◌, refl, ◌∙◌, subst, Bool, true, false, not, ◌&&◌, ◌||◌, Option, none, some, List, [], ◌∷◌,
  ◌==◌, ==_iff, if◌then◌else◌, Bool-cases, inl, inr, arith,
}
use pyroute.Requests.Processor.{lookup, member}
use pyroute.Requests.Processor.Lookup.{lookup-assign}
use pyroute.Ndb.Object.{
  Object, Class, has, get, put, value_eq, transformed, compared, is_there, take_agreed, expected,
  load_value, load_columns, count, is_none,
}
use pyroute.Ndb.Object.Keys.{has-discard, str_eq_refl}

module _ {V : Type 0} (eq : V → V → Bool) (c : Class V) where
  -- The value of a column in a record.
  unfoldable pub column : String → List String → List (Option V) → Option (Option V)
  column n [] vs = none
  column n (k ∷ ks) [] = none
  column n (k ∷ ks) (v ∷ vs) = if str_eq k n then some v else column n ks vs

  -- What a pending change is after a load: it stays, but where a comparison gives another value for it.
  abbrev pub agreed : Option (Option V) → Option (Option V) → Option (Option V)
  agreed old none = old
  agreed old (some w) = some w

  abbrev pub pending_value : Object V → String → Option V → Option (Option V)
  pending_value o n v =
      if value_eq eq (get o n) v
      then lookup str_eq n o.fields
      else agreed (lookup str_eq n o.fields) (compared (c.fields_cmp n) (get o n) v)

  -- What a field is after a load: a pending change stays, else the column replaces the field.
  abbrev pub merged : Object V → String → Option (Option V) → Option (Option V)
  merged o n none = lookup str_eq n o.fields
  merged o n (some v) =
      if has n o.changed
      then pending_value o n (transformed (c.load_transform n) v)
      else some (transformed (c.load_transform n) v)

  -- Whether a change is still pending: it was, and the column is not what it expects.
  abbrev pub still_pending : Object V → String → Option (Option V) → Bool
  still_pending o n none = has n o.changed
  still_pending o n (some v) =
      has n o.changed && not (expected eq c o n (transformed (c.load_transform n) v))

  -- The fields and the pending changes of `after` are those of `before`, merged with a record.
  abbrev pub IsMerge : Object V → Object V → List String → List (Option V) → Type 0
  IsMerge before after ks vs =
      (n : String)
      → (lookup str_eq n after.fields ≡ merged before n (column n ks vs))
        × (has n after.changed ≡ still_pending before n (column n ks vs))

  take_agreed_self :
      (o : Object V) (k : String) (w : Option (Option V))
      → has k o.changed ≡ true
      → (lookup str_eq k (take_agreed o k w).fields ≡ agreed (lookup str_eq k o.fields) w)
        × (has k (take_agreed o k w).changed ≡ not (is_there w))
  unfolding put
  take_agreed_self o k none h = (refl, h)
  take_agreed_self o k (some w) h = (
    lookup-assign str_eq eq_iff k k w o.fields ∙ rw (str_eq_refl k) refl,
    has-discard k k o.changed ∙ rw (str_eq_refl k) refl,
  )

  take_agreed_ne :
      (o : Object V) (k n : String) (w : Option (Option V))
      → str_eq k n ≡ false
      → (lookup str_eq n (take_agreed o k w).fields ≡ lookup str_eq n o.fields)
        × (has n (take_agreed o k w).changed ≡ has n o.changed)
  unfolding put
  take_agreed_ne o k n none ne = (refl, refl)
  take_agreed_ne o k n (some w) ne = (
    lookup-assign str_eq eq_iff k n w o.fields ∙ rw ne refl,
    has-discard n k o.changed ∙ rw ne refl,
  )

  -- One column, at its own name and at another.
  load_value_self :
      (o : Object V) (k : String) (v : Option V)
      → (lookup str_eq k (load_value eq c o k v).fields ≡ merged o k (some v))
        × (has k (load_value eq c o k v).changed ≡ still_pending o k (some v))
  unfolding load_value put
  load_value_self o k v = elim (Bool-cases (has k o.changed)) [
    | inr m ↦
        rw
          (
            m,
            lookup-assign str_eq eq_iff k k (transformed (c.load_transform k) v) o.fields,
            str_eq_refl k,
          )
          (refl, m)
    | inl y ↦ elim (Bool-cases (value_eq eq (get o k) (transformed (c.load_transform k) v))) [
      | inl e ↦ rw (y, e) (refl, has-discard k k o.changed ∙ rw (str_eq_refl k) refl)
      | inr e ↦
          rw (y, e)
            (take_agreed_self o k
              (compared (c.fields_cmp k) (get o k) (transformed (c.load_transform k) v)) y)
    ]
  ]

  load_value_ne :
      (o : Object V) (k n : String) (v : Option V)
      → str_eq k n ≡ false
      → (lookup str_eq n (load_value eq c o k v).fields ≡ lookup str_eq n o.fields)
        × (has n (load_value eq c o k v).changed ≡ has n o.changed)
  unfolding load_value put
  load_value_ne o k n v ne = elim (Bool-cases (has k o.changed)) [
    | inr m ↦
        rw (m, lookup-assign str_eq eq_iff k n (transformed (c.load_transform k) v) o.fields, ne)
          (refl, refl)
    | inl y ↦ elim (Bool-cases (value_eq eq (get o k) (transformed (c.load_transform k) v))) [
      | inl e ↦ rw (y, e) (refl, has-discard n k o.changed ∙ rw ne refl)
      | inr e ↦
          rw (y, e)
            (take_agreed_ne o k n
              (compared (c.fields_cmp k) (get o k) (transformed (c.load_transform k) v)) ne)
    ]
  ]

  -- Each name once, and each of them a name of the class.
  abbrev pub Distinct : List String → Type 0
  Distinct [] = Unit
  Distinct (k ∷ ks) = (has k ks ≡ false) × (count k c.names ≡ 1) × Distinct ks

  Untouched : String → Object V → Object V → Type 0
  Untouched n before after =
      (lookup str_eq n after.fields ≡ lookup str_eq n before.fields)
      × (has n after.changed ≡ has n before.changed)

  -- What is pending for a name depends on what stands at the name only.
  still_pending-Untouched :
      (n : String) (before after : Object V)
      → Untouched n before after
      → (new : Option (Option V)) → still_pending after n new ≡ still_pending before n new
  unfolding get Untouched
  still_pending-Untouched n before after (f, g) none = g
  still_pending-Untouched n before after (f, g) (some v) = rw (f, g) refl

  merged-Untouched :
      (n : String) (before after : Object V)
      → Untouched n before after
      → (new : Option (Option V)) → merged after n new ≡ merged before n new
  unfolding get Untouched
  merged-Untouched n before after (f, g) none = f
  merged-Untouched n before after (f, g) (some v) = rw (f, g) refl

  has_cases :
      (n k : String) (ks : List String)
      → has n (k ∷ ks) ≡ false
      → (str_eq k n ≡ false) × (has n ks ≡ false)
  unfolding member
  has_cases n k ks h = ground arith

  load_columns-Untouched :
      (n : String) (ks : List String) (vs : List (Option V)) (o : Object V)
      → has n ks ≡ false
      → Untouched n o (load_columns eq c ks vs o)
  unfolding load_columns Untouched
  load_columns-Untouched n [] vs o h = (refl, refl)
  load_columns-Untouched n (k ∷ ks) [] o h = (refl, refl)
  load_columns-Untouched n (k ∷ ks) (v ∷ vs) o h =
      let (ne, rest) = has_cases n k ks h in
      elim (Bool-cases (count k c.names == 1 || not (is_none v))) [
        | inl y ↦
            let (f, g) = load_columns-Untouched n ks vs (load_value eq c o k v) rest in
            let (f', g') = load_value_ne o k n v ne in rw (y, load_columns) (f ∙ f', g ∙ g')
        | inr m ↦ rw (m, load_columns) (load_columns-Untouched n ks vs o rest)
      ]

  -- A column that is at its name is loaded, and no later one has the name.
  pub load_columns-IsMerge :
      (ks : List String) (vs : List (Option V)) (o : Object V)
      → Distinct ks
      → IsMerge o (load_columns eq c ks vs o) ks vs
  unfolding load_columns column Untouched
  load_columns-IsMerge [] vs o d n = (refl, refl)
  load_columns-IsMerge (k ∷ ks) [] o d n = (refl, refl)
  load_columns-IsMerge (k ∷ ks) (v ∷ vs) o (apart, one, d) n =
      let counted : (count k c.names == 1) ≡ true = (==_iff _ _).1 one in
      rw (counted, load_columns)
        (elim (Bool-cases (str_eq k n)) [
          | inl y ↦
              let here : k ≡ n = (eq_iff k n).0 y in
              let (f, g) = load_columns-Untouched k ks vs (load_value eq c o k v) apart in
              let (f', g') = load_value_self o k v in
              rw y (
                subst
                  (λ x.
                    (lookup str_eq x (load_columns eq c ks vs (load_value eq c o k v)).fields
                      ≡ merged o x (some v))
                    × (has x (load_columns eq c ks vs (load_value eq c o k v)).changed
                        ≡ still_pending o x (some v)))
                  here (f ∙ f', g ∙ g'))
          | inr m ↦
              let (f', g') = load_value_ne o k n v m in
              let (f, g) = load_columns-IsMerge ks vs (load_value eq c o k v) d n in
              rw m (
                f ∙ merged-Untouched n o (load_value eq c o k v) (f', g') (column n ks vs),
                g ∙ still_pending-Untouched n o (load_value eq c o k v) (f', g') (column n ks vs),
              )
        ])
