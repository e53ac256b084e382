-- ===== src/Ndb/Object/Assigns.antt =====
-- What an assignment to an object leaves: each field that it changed has a pending change.
use Prim.Native.String.{String}
use text.Mathlib.Text.{◌==◌ as str_eq}
use text.Mathlib.TextEquality.{eq_iff}
use pyroute.Prelude.{
  ◌≡◌, ◌⊎◌, inl, inr, refl, sym, ap, ◌∙◌, subst, Bool, true, false, not, ◌&&◌, ◌||◌, Option, none,
  some, List, [], ◌∷◌, ◌++◌, Bool-cases, Option-cases, arith,
}
use pyroute.Requests.Processor.{lookup, member}
use pyroute.Requests.Processor.Lookup.{lookup-assign}
use pyroute.Ndb.Object.{
  Object, Class, is_there, has, get, put, add, value_eq, allowed_change, change_of_key, enter_setns,
  note_change, changed_to, set_all,
}
use pyroute.Ndb.Object.Keys.{str_eq_refl}
use pyroute.Ndb.Events.{is, system, change}

has-snoc : (n k : String) (ks : List String) → has n (ks ++ k ∷ []) ≡ (str_eq k n || has n ks)
unfolding member
has-snoc n k [] = ground arith
has-snoc n k (a ∷ ks) = ground (arith, has-snoc n k ks)

pub has-add : (n k : String) (ks : List String) → has n (add k ks) ≡ (str_eq k n || has n ks)
unfolding add
has-add n k ks = elim (Bool-cases (has k ks)) [
  | inl y ↦ elim (Bool-cases (str_eq k n)) [
    | inl e ↦
        let here : has n ks ≡ true = subst (λ x. has x ks ≡ true) ((eq_iff k n).0 e) y in
        rw (y, e, here) refl
    | inr m ↦ rw (y, m) refl
  ]
  | inr m ↦ rw m (has-snoc n k ks)
]

module _ {V : Type 0} where
  abbrev pub known : String → Object V → Bool
  known n o = is_there (lookup str_eq n o.fields)

  -- Each field with a pending change is there.
  abbrev pub IsTracked : Object V → Type 0
  IsTracked o = (n : String) → has n o.changed ≡ true → known n o ≡ true

  pub known-put :
      (n k : String) (v : Option V) (o : Object V) → known n (put o k v) ≡ (str_eq k n || known n o)
  unfolding put
  known-put n k v o =
      rw (lookup-assign str_eq eq_iff k n v o.fields)
        (elim (Bool-cases (str_eq k n)) [ inl y ↦ rw y refl | inr m ↦ rw m refl ])

  -- What is pending stays pending, and a field that is not pending is as it was.
  abbrev pub Tracks : Object V → Object V → Type 0
  Tracks before after =
      (n : String)
      → str_eq n "target" ≡ false
      → (has n before.changed ≡ true → has n after.changed ≡ true)
        × ((has n after.changed ≡ true)
            ⊎ (lookup str_eq n after.fields ≡ lookup str_eq n before.fields))

  Tracks-trans : (a b c : Object V) → Tracks a b → Tracks b c → Tracks a c
  Tracks-trans a b c f g n other = elim (f n other).1 [
    | inl h ↦ (λ x. (g n other).0 ((f n other).0 x), inl ((g n other).0 h))
    | inr same ↦ (
      λ x. (g n other).0 ((f n other).0 x),
      elim (g n other).1 [ inl h ↦ inl h | inr e ↦ inr (e ∙ same) ],
    )
  ]

  -- The object has the fields and the pending changes of another.
  abbrev IsSame : Object V → Object V → Type 0
  IsSame o o' = (o'.fields ≡ o.fields) × (o'.changed ≡ o.changed)

  abbrev IsSameIn : Object V → Option (Object V) → Type 0
  IsSameIn o none = Unit
  IsSameIn o (some o') = IsSame o o'

  -- A value that is put, with its change noted.
  has-note_change :
      (n k : String) (o : Object V)
      → has n (note_change k o).changed
        ≡ ((not (str_eq k "target") && str_eq k n) || has n o.changed)
  has-note_change n k o = elim (Bool-cases (str_eq k "target")) [
    | inl y ↦ rw y refl
    | inr m ↦ rw m (has-add n k o.changed)
  ]

  fields-note_change : (k : String) (o : Object V) → (note_change k o).fields ≡ o.fields
  fields-note_change k o = elim (Bool-cases (str_eq k "target")) [
    | inl y ↦ rw y refl
    | inr m ↦ rw m refl
  ]

  put-IsTracked :
      (o o' : Object V) (k : String) (v : Option V)
      → IsSame o o'
      → IsTracked o
      → IsTracked (put (note_change k o') k v)
  unfolding put
  put-IsTracked o o' k v (f, g) h n pending =
      known-put n k v (note_change k o') ∙ elim (Bool-cases (str_eq k n)) [
        | inl y ↦ rw y refl
        | inr m ↦
            let was : has n o'.changed ≡ true = ground (arith, has-note_change n k o') in
            rw (m, fields-note_change k o', f) (h n (ap (has n) (sym g) ∙ was))
      ]

  put-Tracks :
      (o o' : Object V) (k : String) (v : Option V)
      → IsSame o o'
      → Tracks o (put (note_change k o') k v)
  unfolding put
  put-Tracks o o' k v (f, g) n other =
      let noted : has n (put (note_change k o') k v).changed
          ≡ ((not (str_eq k "target") && str_eq k n) || has n o.changed) =
        has-note_change n k o' ∙ rw g refl in
      (
        λ h. noted ∙ ground arith,
        elim (Bool-cases (str_eq k n)) [
          | inl y ↦ inl (noted ∙ rw ((eq_iff k n).0 y, other, str_eq_refl n) refl)
          | inr m ↦ inr (
              lookup-assign str_eq eq_iff k n v (note_change k o').fields
              ∙ rw m (rw (fields-note_change k o', f) refl))
        ],
      )

module _ {V : Type 0} (eq : V → V → Bool) (c : Class V) where
  change_of_key-IsSameIn : (o : Object V) (key : String) → IsSameIn o (change_of_key eq c o key)
  unfolding change_of_key
  change_of_key-IsSameIn o key = elim (Bool-cases c.add_remove) [
    | inl y ↦ rw y (refl, refl)
    | inr m ↦ elim (Bool-cases (c.change_key && has key c.key_extra_fields)) [
      | inl y ↦ rw (m, y) (refl, refl)
      | inr m' ↦ rw (m, m') tt
    ]
  ]

  allowed_change-IsSameIn :
      (o : Object V) (key nkey : String) → IsSameIn o (allowed_change eq c o key nkey)
  allowed_change-IsSameIn o key nkey =
      elim (Bool-cases ((is o.state system || is o.state change) && has nkey c.knorm)) [
        | inl y ↦ rw y (change_of_key-IsSameIn o key)
        | inr m ↦ rw m (refl, refl)
      ]

  enter_setns-IsSame :
      (nkey : String) (o o' : Object V) → IsSame o o' → IsSame o (enter_setns nkey o')
  enter_setns-IsSame nkey o o' h =
      elim (Bool-cases (str_eq nkey "net_ns_fd" || str_eq nkey "net_ns_pid")) [
        | inl y ↦ rw y h
        | inr m ↦ rw m h
      ]

  -- The object keeps its tracks, whether the assignment returns or not.
  abbrev pub Carries : Object V → Object V → Type 0
  Carries o o' = IsTracked o' × Tracks o o'

  or_same : Object V → Option (Object V) → Object V
  or_same o none = o
  or_same o (some o') = o'

  changed_to-Carries :
      (o o' : Object V) (nkey : String) (v : Option V) (allowed : Option (Object V))
      → IsTracked o
      → IsSameIn o allowed
      → changed_to nkey v allowed ≡ some o'
      → Carries o o'
  unfolding or_same
  changed_to-Carries o o' nkey v none h same e = absurd (ground (arith, e))
  changed_to-Carries o o' nkey v (some o1) h same e =
      let kept = enter_setns-IsSame nkey o o1 same in
      subst (Carries o) (ap (or_same o) e) (
        put-IsTracked o (enter_setns nkey o1) nkey v kept h,
        put-Tracks o (enter_setns nkey o1) nkey v kept,
      )

  pub set_all-Carries :
      (o : Object V) (key : String) (items : List (String × Option V))
      → IsTracked o
      → Carries o (set_all eq c o key items).1
  unfolding set_all
  set_all-Carries o key [] h = (h, λ n other. (λ x. x, inr refl))
  set_all-Carries o key ((nkey, v) ∷ items) h = elim (Bool-cases (value_eq eq (get o nkey) v)) [
    | inl y ↦ rw (y, set_all) (set_all-Carries o key items h)
    | inr m ↦ elim (Option-cases (changed_to nkey v (allowed_change eq c o key nkey))) [
      | inl e ↦ rw (m, set_all, e) (h, λ n other. (λ x. x, inr refl))
      | inr (o', e) ↦
          let (h', t) =
            changed_to-Carries o o' nkey v (allowed_change eq c o key nkey) h
              (allowed_change-IsSameIn o key nkey) e in
          let (h2, t2) = set_all-Carries o' key items h' in
          rw (m, set_all, e) (h2, Tracks-trans o o' (set_all eq c o' key items).1 t t2)
    ]
  ]
