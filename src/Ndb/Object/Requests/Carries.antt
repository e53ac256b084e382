-- ===== src/Ndb/Object/Requests/Carries.antt =====
-- No assignment to an object is lost on the way to its request.
use Prim.Native.String.{String}
use text.Mathlib.Text.{◌==◌ as str_eq}
use text.Mathlib.TextEquality.{eq_iff}
use pyroute.Prelude.{
  ◌≡◌, ◌⊎◌, inl, inr, refl, sym, ◌∙◌, Bool, true, false, ◌||◌, Option, none, some, List, [], ◌∷◌,
  if◌then◌else◌, Bool-cases, Option-cases, arith,
}
use pyroute.Requests.Processor.{lookup, assign, member}
use pyroute.Requests.Processor.Lookup.{lookup-assign}
use pyroute.Ndb.Object.{Object, Class, is_there, has, filtered, set_item}
use pyroute.Ndb.Object.Assigns.{known, IsTracked, set_all-Carries}
use pyroute.Ndb.Object.Rounds.{Method, add, set, del}
use pyroute.Ndb.Object.Requests.{
  Request, add_value, prime_of, put_changed, fill, request_for, request, is_del,
}
use pyroute.Ndb.Object.Keys.{str_eq_refl}

module _ {V : Type 0} where
  -- The request has what is pending, and else what it was given.
  abbrev pub IsRequest : Object V → List String → Request V → Request V → Type 0
  IsRequest o ks prime req =
      (n : String)
      → lookup str_eq n req ≡ (if has n ks then lookup str_eq n o.fields else lookup str_eq n prime)

  lookup_next :
      (n k : String) (v : Option V) (ks : List String) (o : Object V) (prime : Request V)
      → lookup str_eq k o.fields ≡ some v
      → (if has n ks then lookup str_eq n o.fields else lookup str_eq n (assign str_eq k v prime))
        ≡ (if str_eq k n || has n ks then lookup str_eq n o.fields else lookup str_eq n prime)
  lookup_next n k v ks o prime e = elim (Bool-cases (str_eq k n)) [
    | inl y ↦
        let here : lookup str_eq n o.fields ≡ some v = rw ((eq_iff k n).0 y) at e in
        rw (lookup-assign str_eq eq_iff k n v prime, y, here)
          (elim (Bool-cases (has n ks)) [ inl z ↦ rw z refl | inr z ↦ rw z refl ])
    | inr m ↦ rw (lookup-assign str_eq eq_iff k n v prime, m) refl
  ]

  pub put_changed-IsRequest :
      (ks : List String) (o : Object V) (prime : Request V)
      → ((n : String) → has n ks ≡ true → known n o ≡ true)
      → (req : Request V) × (put_changed ks o prime ≡ some req) × IsRequest o ks prime req
  unfolding put_changed member
  put_changed-IsRequest [] o prime h = (prime, refl, λ n. refl)
  put_changed-IsRequest (k ∷ ks) o prime h = elim (Option-cases (lookup str_eq k o.fields)) [
    | inl e ↦
        let there : is_there (lookup str_eq k o.fields) ≡ true = h k (rw (str_eq_refl k) refl) in
        absurd (ground (arith, rw e at there))
    | inr (v, e) ↦
        let (req, made, f) =
          put_changed-IsRequest ks o (assign str_eq k v prime) (λ n y. h n (ground (arith, y))) in
        (req, rw (put_changed, e) made, λ n. f n ∙ lookup_next n k v ks o prime e)
  ]

  add_value_ne :
      (k n : String) (w v : Option V) (req : Request V)
      → is_there (lookup str_eq k req) ≡ false
      → lookup str_eq n req ≡ some v
      → lookup str_eq n (add_value k w req) ≡ some v
  add_value_ne k n none v req m h = h
  add_value_ne k n (some w) v req m h = elim (Bool-cases (str_eq k n)) [
    | inl y ↦
        let there : is_there (lookup str_eq k req) ≡ true = rw ((eq_iff k n).0 y, h) refl in
        absurd (ground (arith, m, there))
    | inr d ↦ rw (lookup-assign str_eq eq_iff k n (some w) req, d) h
  ]

  -- What the request has is not overwritten by the other fields.
  fill_lem :
      (items : List (String × Option V)) (req : Request V) (n : String) (v : Option V)
      → lookup str_eq n req ≡ some v
      → lookup str_eq n (fill items req) ≡ some v
  unfolding fill
  fill_lem [] req n v h = h
  fill_lem ((k, w) ∷ items) req n v h = elim (Bool-cases (is_there (lookup str_eq k req))) [
    | inl y ↦ rw (fill, y) (fill_lem items req n v h)
    | inr m ↦ rw (fill, m) (fill_lem items (add_value k w req) n v (add_value_ne k n w v req m h))
  ]

  -- The request of a method but `del`.
  request_for_lem :
      (m : Method) (o : Object V) (prime req : Request V)
      → is_del m ≡ false
      → (req' : Request V) × (request_for m prime o (some req) ≡ some req')
        × ((n : String) (v : Option V)
            → lookup str_eq n req ≡ some v
            → lookup str_eq n req' ≡ some v)
  unfolding request_for
  request_for_lem add o prime req h =
      (fill o.fields req, refl, λ n v e. fill_lem o.fields req n v e)
  request_for_lem set o prime req h = (req, refl, λ n v e. e)
  request_for_lem del o prime req h = absurd (ground arith)

  there_cases : (old : Option (Option V)) → is_there old ≡ true → (v : Option V) × (old ≡ some v)
  there_cases none h = absurd (ground arith)
  there_cases (some v) h = (v, refl)

  -- A field is in the request, or it is as it was.
  abbrev pub IsCarried : Object V → Object V → Request V → String → Type 0
  IsCarried o o' req n =
      (lookup str_eq n req ≡ lookup str_eq n o'.fields)
      ⊎ (lookup str_eq n o'.fields ≡ lookup str_eq n o.fields)

  Carries-IsCarried :
      (o o' : Object V) (prime req req' : Request V) (n : String)
      → IsRequest o' o'.changed prime req
      → ((v : Option V) → lookup str_eq n req ≡ some v → lookup str_eq n req' ≡ some v)
      → IsTracked o'
      → (has n o'.changed ≡ true) ⊎ (lookup str_eq n o'.fields ≡ lookup str_eq n o.fields)
      → IsCarried o o' req' n
  Carries-IsCarried o o' prime req req' n made keeps h (inr same) = inr same
  Carries-IsCarried o o' prime req req' n made keeps h (inl pending) =
      let (v, e) = there_cases (lookup str_eq n o'.fields) (h n pending) in
      inl (keeps v (made n ∙ rw pending e) ∙ sym e)

module _ {V : Type 0} (eq : V → V → Bool) (c : Class V) where
  -- An assignment to an object whose pending fields are all there leaves it so, whether it returns or is
  -- refused half way. Then `apply` can make the request of it, and a request but of `del` carries the
  -- value of each field, save `target`, that the assignment changed.
  pub set_item-request :
      (o : Object V) (key : String) (v : Option V) (m : Method)
      → IsTracked o
      → is_del m ≡ false
      → IsTracked (set_item eq c o key v).1
        × ((req : Request V) × (request c m (set_item eq c o key v).1 ≡ some req)
            × ((n : String)
                → str_eq n "target" ≡ false
                → IsCarried o (set_item eq c o key v).1 req n))
  unfolding set_item
  set_item-request o key v m h other =
      let o' : Object V = (set_item eq c o key v).1 in
      let (h', t) = set_all-Carries eq c o key (filtered eq c o key v) h in
      let prime = prime_of c.knorm o' [] in
      let (req, made, f) = put_changed-IsRequest o'.changed o' prime h' in
      let (req', sent, keeps) = request_for_lem m o' prime req other in
      (
        h',
        (
          req',
          rw made sent,
          λ n apart. Carries-IsCarried o o' prime req req' n f (keeps n) h' (t n apart).1,
        ),
      )
