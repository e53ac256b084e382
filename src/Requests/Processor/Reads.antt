-- ===== src/Requests/Processor/Reads.antt =====
-- What the items of a processor are after a value is read.
use pyroute.Prelude.{
  ◌≡◌, refl, ap, ◌∙◌, ◌↔◌, Bool, true, false, ◌||◌, Option, none, some, List, [], ◌∷◌, ◌++◌,
  if◌then◌else◌, Bool-cases, inl, inr,
}
use pyroute.Requests.Processor.{
  RequestProcessor, lookup, find_getter, get_value, read_value, items, unmarked, member,
}

module _ {K : Type 0} (eq : K → K → Bool) where
  member-snoc :
      (n k : K) (mark : List K) → member eq n (mark ++ k ∷ []) ≡ (eq k n || member eq n mark)
  unfolding member
  member-snoc n k [] = refl
  member-snoc n k (a ∷ mark) = rw (member-snoc n k mark) (swap (eq a n) (eq k n) (member eq n mark))
    where
      swap : (a b c : Bool) → (a || (b || c)) ≡ (b || (a || c))
      swap true true c = refl
      swap true false c = refl
      swap false true c = refl
      swap false false c = refl

module _ {K V : Type 0} (eq : K → K → Bool) (eq_iff : (a b : K) → (eq a b ≡ true) ↔ (a ≡ b)) where
  lookup-unmarked :
      (n : K) (mark : List K) (d : List (K × V))
      → lookup eq n (unmarked eq mark d) ≡ (if member eq n mark then none else lookup eq n d)
  unfolding lookup unmarked
  lookup-unmarked n mark [] = elim (Bool-cases (member eq n mark)) [
    | inl e ↦ rw e refl
    | inr e ↦ rw e refl
  ]
  lookup-unmarked n mark ((a, v) ∷ d) = elim (Bool-cases (eq a n)) [
    | inl y ↦
        let same : member eq a mark ≡ member eq n mark =
          ap (λ x. member eq x mark) ((eq_iff a n).0 y) in
        elim (Bool-cases (member eq n mark)) [
          | inl e ↦ rw (same, e) (lookup-unmarked n mark d ∙ rw e refl)
          | inr e ↦ rw (same, e) (rw y refl)
        ]
    | inr m ↦ elim (Bool-cases (member eq a mark)) [
      | inl e ↦ rw (m, e) (lookup-unmarked n mark d)
      | inr e ↦ rw (m, e) (rw m (lookup-unmarked n mark d))
    ]
  ]

  -- Where no filter has a getter for k, `get_value` returns the value that k has, and from then on
  -- `items` shows no item of k and all of the others that it showed. The equality test of keys
  -- decides equality.
  pub items-get_value :
      (p : RequestProcessor K V) (k : K) (v : V)
      → find_getter p.field_filters k ≡ none
      → lookup eq k p.data' ≡ some v
      → (default : Option V)
      → (get_value eq p k default).1 ≡ some v
        × ((n : K)
            → lookup eq n (items eq (get_value eq p k default).0)
              ≡ (if eq k n then none else lookup eq n (items eq p)))
  unfolding get_value read_value items
  items-get_value p k v h there default =
      rw (h, there)
        (
          refl,
          λ n.
              lookup-unmarked n (p.mark ++ k ∷ []) p.data'
              ∙ rw (member-snoc eq n k p.mark, lookup-unmarked n p.mark p.data')
                  (join (eq k n) (member eq n p.mark) (lookup eq n p.data')),
        )
    where
      join :
          (a b : Bool) (x : Option V)
          → (if a || b then none else x) ≡ (if a then none else (if b then none else x))
      join true b x = refl
      join false b x = refl
