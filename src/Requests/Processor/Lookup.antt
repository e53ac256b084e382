-- ===== src/Requests/Processor/Lookup.antt =====
-- What a processor holds after an item is set.
use pyroute.Prelude.{
  ◌≡◌, refl, sym, ap, ◌∙◌, subst, ◌↔◌, Bool, true, false, Option, none, some, List, [], ◌∷◌, ◌++◌,
  if◌then◌else◌, Bool-cases, inl, inr, arith,
}
use pyroute.Requests.Processor.{
  RequestProcessor, assign, or_else, lookup, delete, store_all, filter, set_item,
}

module _ {K V : Type 0} (eq : K → K → Bool) where
  -- Of equal keys, the last.
  unfoldable pub last_of : K → List (K × V) → Option V → Option V
  last_of n [] old = old
  last_of n ((k, v) ∷ new) old = last_of n new (if eq k n then some v else old)

module _ {K : Type 0} (eq : K → K → Bool) (eq_iff : (a b : K) → (eq a b ≡ true) ↔ (a ≡ b)) where
  apart : (a k n : K) → eq a k ≡ false → eq a n ≡ true → eq k n ≡ false
  apart a k n m y = elim (Bool-cases (eq k n)) [
    | inl e ↦
        let same : eq a k ≡ true = subst (λ x. eq a x ≡ true) (sym ((eq_iff k n).0 e)) y in
        absurd (ground arith)
    | inr e ↦ e
  ]

module _ {K V : Type 0} (eq : K → K → Bool) (eq_iff : (a b : K) → (eq a b ≡ true) ↔ (a ≡ b)) where
  lookup-delete :
      (k n : K) (d : List (K × V))
      → lookup eq n (delete eq k d) ≡ (if eq k n then none else lookup eq n d)
  unfolding lookup delete
  lookup-delete k n [] = elim (Bool-cases (eq k n)) [ inl e ↦ rw e refl | inr e ↦ rw e refl ]
  lookup-delete k n ((a, v) ∷ d) = elim (Bool-cases (eq a k)) [
    | inl y ↦
        let same : a ≡ k = (eq_iff a k).0 y in
        rw y (
          lookup-delete k n d ∙ elim (Bool-cases (eq k n)) [
            | inl e ↦ rw e refl
            | inr e ↦
                let other : eq a n ≡ false = subst (λ x. eq x n ≡ false) (sym same) e in
                rw (e, other) refl
          ])
    | inr m ↦ elim (Bool-cases (eq a n)) [
      | inl y ↦ let differs : eq k n ≡ false = apart eq eq_iff a k n m y in rw (m, y, differs) refl
      | inr z ↦ rw (m, z) (lookup-delete k n d)
    ]
  ]

  lookup-snoc :
      (k n : K) (v : V) (d : List (K × V))
      → lookup eq n (d ++ (k, v) ∷ []) ≡ or_else (lookup eq n d) (if eq k n then some v else none)
  unfolding lookup
  lookup-snoc k n v [] = refl
  lookup-snoc k n v ((a, w) ∷ d) = elim (Bool-cases (eq a n)) [
    | inl y ↦ rw y refl
    | inr m ↦ rw m (lookup-snoc k n v d)
  ]

  lookup-store :
      (k n : K) (v : V) (d : List (K × V))
      → lookup eq n (delete eq k d ++ (k, v) ∷ []) ≡ (if eq k n then some v else lookup eq n d)
  lookup-store k n v d =
      lookup-snoc k n v (delete eq k d) ∙ rw (lookup-delete k n d) (settle (eq k n) (lookup eq n d))
    where
      settle :
          (b : Bool) (old : Option V)
          → or_else (if b then none else old) (if b then some v else none)
            ≡ (if b then some v else old)
      settle true old = refl
      settle false none = refl
      settle false (some w) = refl

  lookup-store_all :
      (n : K) (d new : List (K × V))
      → lookup eq n (store_all eq d new) ≡ last_of eq n new (lookup eq n d)
  unfolding last_of store_all
  lookup-store_all n d [] = refl
  lookup-store_all n d ((k, v) ∷ new) =
      lookup-store_all n (delete eq k d ++ (k, v) ∷ []) new
      ∙ ap (last_of eq n new) (lookup-store k n v d)

  -- After `p[k] = v` a key has the last value that the filters gave for it; where they gave none, the
  -- key k itself has no value, also when it had one before, and any other key has what it had. The equality
  -- test of keys decides equality.
  pub lookup-set_item :
      (p : RequestProcessor K V) (k n : K) (v : V)
      → lookup eq n (set_item eq p k (some v)).data'
        ≡ last_of eq n (filter eq p k v) (if eq k n then none else lookup eq n p.data')
  unfolding set_item
  lookup-set_item p k n v =
      lookup-store_all n (delete eq k p.data') (filter eq p k v)
      ∙ ap (last_of eq n (filter eq p k v)) (lookup-delete k n p.data')

module _ {K V : Type 0} (eq : K → K → Bool) (eq_iff : (a b : K) → (eq a b ≡ true) ↔ (a ≡ b)) where
  pub lookup-assign :
      (k n : K) (v : V) (d : List (K × V))
      → lookup eq n (assign eq k v d) ≡ (if eq k n then some v else lookup eq n d)
  unfolding lookup assign
  lookup-assign k n v [] = refl
  lookup-assign k n v ((a, w) ∷ d) = elim (Bool-cases (eq a k)) [
    | inl y ↦
        let here : a ≡ k = (eq_iff a k).0 y in
        rw (y, here) (elim (Bool-cases (eq k n)) [ inl e ↦ rw e refl | inr m ↦ rw m refl ])
    | inr m ↦ elim (Bool-cases (eq a n)) [
      | inl y ↦ rw (m, y, apart eq eq_iff a k n m y) refl
      | inr z ↦ rw (m, z) (lookup-assign k n v d)
    ]
  ]
