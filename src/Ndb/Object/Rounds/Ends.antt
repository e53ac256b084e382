-- ===== src/Ndb/Object/Rounds/Ends.antt =====
-- How the rounds of `apply` end.
use pyroute.Prelude.{
  ℕ, zero, suc, ◌+◌, ◌≡◌, inl, inr, refl, sym, ap, subst, Bool, true, false, ◌&&◌, ◌||◌, Option,
  none, some, Option-cases, Bool-cases, arith,
}
use pyroute.Ndb.Events.{transition}
use pyroute.Ndb.Object.{Object, Class, in_map, no_changes, check, load_sql}
use pyroute.Ndb.Object.Rounds.{
  Method, Fallback, Round, Outcome, checked, unchecked, raised, no_source, has_source, fallback_for,
  call_error, returned, handle_with, after_call, settle, after_check, after_error, run,
  apply_rounds,
}

-- The check passed on the object.
abbrev pub passes : {V : Type 0} → Object V → Bool
passes o = in_map (transition o.state) && no_changes o.changed

module _ {V : Type 0} (eq : V → V → Bool) (c : Class V) (m : Method) (complete : Bool)
    (rounds : ℕ → Round V) where
  -- The error of some round is not one to pass over.
  abbrev pub IsRefused : ℕ → Type 0
  IsRefused e = (itn : ℕ) × (call_error (rounds itn) ≡ some e) × (fallback_for m e ≡ none)

  -- The object behind the last round, whose check failed, and which was loaded once more.
  abbrev pub IsUnchecked : ℕ → Object V → Type 0
  IsUnchecked last after =
      (before : Object V) × (passes before ≡ false)
      × (after ≡ load_sql eq c before (rounds last).fetched)

  -- How the rounds end after a first call that returned.
  abbrev pub IsEnd : ℕ → Outcome × Object V → Type 0
  IsEnd last (checked, after) = passes after ≡ true
  IsEnd last (unchecked, after) = IsUnchecked last after
  IsEnd last (no_source, after) = has_source eq c after ≡ false
  IsEnd last (raised e, after) = IsRefused e

  -- How the rounds end, by whether there is a source, and by the first call.
  abbrev pub IsRun : ℕ → Bool → Option ℕ → Object V → Outcome × Object V → Type 0
  IsRun last false api o end = end ≡ (no_source, o)
  IsRun last true (some e) o end = end ≡ (raised e, o)
  IsRun last true none o end = IsEnd last end

  IsCalled : Option ℕ × Object V → Type 0
  IsCalled (none, o') = Unit
  IsCalled (some e, o') = IsRefused e

  handle_with-IsCalled :
      (itn e : ℕ) (o : Object V) (fallback : Option Fallback)
      → call_error (rounds itn) ≡ some e
      → fallback_for m e ≡ fallback
      → IsCalled (handle_with eq c complete (rounds itn).reloaded o e fallback)
  unfolding IsCalled
  handle_with-IsCalled itn e o none h at = (itn, h, at)
  handle_with-IsCalled itn e o (some fallback) h at = tt

  after_call-IsCalled :
      (itn : ℕ) (first : Bool) (o : Object V)
      → (first || returned (rounds itn).api) ≡ true
      → IsCalled (after_call eq c m complete first (rounds itn) o)
  unfolding IsCalled
  after_call-IsCalled itn first o y = elim (Option-cases (call_error (rounds itn))) [
    | inl h ↦ rw h tt
    | inr (e, h) ↦ rw (h, y) (handle_with-IsCalled itn e o (fallback_for m e) h refl)
  ]

  after_check-IsEnd :
      (last : ℕ) (rest : Object V → Outcome × Object V) (ok : Bool) (o' : Object V)
      → ok ≡ passes o'
      → (ok ≡ false → IsEnd last (rest o'))
      → IsEnd last (after_check eq c rest (ok, o'))
  after_check-IsEnd last rest true o' h next = sym h
  after_check-IsEnd last rest false o' h next = next refl

  after_error-IsEnd :
      (last itn : ℕ) (rest : Object V → Outcome × Object V) (called : Option ℕ × Object V)
      → IsCalled called
      → ((o' : Object V) → passes o' ≡ false → IsEnd last (rest o'))
      → IsEnd last (after_error eq c (rounds itn) rest called)
  unfolding IsCalled check
  after_error-IsEnd last itn rest (some e, o') h next = h
  after_error-IsEnd last itn rest (none, o') h next =
      after_check-IsEnd last rest (settle eq c (rounds itn) o').0 (settle eq c (rounds itn) o').1
        refl (λ failed. next (settle eq c (rounds itn) o').1 failed)

  run-IsEnd :
      (last n itn : ℕ) (o : Object V)
      → n + itn ≡ last
      → passes o ≡ false
      → IsEnd last (run eq c m complete rounds n itn true o)
  unfolding run check
  run-IsEnd last zero itn o s h =
      (o, h, ap (λ i. load_sql eq c o (rounds i).fetched) (omega (arith, s)))
  run-IsEnd last (suc n) itn o s h = elim (Bool-cases (has_source eq c o)) [
    | inr no_target ↦ rw no_target no_target
    | inl y ↦ rw y (
        after_error-IsEnd last itn (run eq c m complete rounds n (suc itn) true) _
          (after_call-IsCalled itn true o refl)
          (λ o' failed. run-IsEnd last n (suc itn) o' (omega (arith, s)) failed))
  ]

  first_round :
      (last n : ℕ) (has : Bool) (api : Option ℕ) (o : Object V)
      → n + 1 ≡ last
      → has_source eq c o ≡ has
      → (rounds 0).api ≡ api
      → IsRun last has api o (run eq c m complete rounds (suc n) 0 false o)
  unfolding run
  first_round last n false api o s y h = rw y refl
  first_round last n true (some e) o s y h = rw (y, h) refl
  first_round last n true none o s y h =
      let called = after_call-IsCalled 0 false o (ap returned h) in
      let flag : (false || returned (rounds 0).api) ≡ true = ap returned h in
      rw y (
        after_error-IsEnd last 0 (run eq c m complete rounds n 1 (false || returned (rounds 0).api))
          (after_call eq c m complete false (rounds 0) o) called
          (λ o' failed.
            subst (λ b. IsEnd last (run eq c m complete rounds n 1 b o')) (sym flag)
              (run-IsEnd last n 1 o' s failed)))

  -- Without a source for its target an object raises KeyError, and an error of the first call of the API is
  -- raised whatever its code; both leave the object as it was. After a first call that returned, the ten
  -- rounds end when a check passes, and then the state went to one of those that are meant and no change is
  -- pending; behind the tenth, whose check failed too, with another load; in KeyError, when the target has
  -- no source any more; or with an error of netlink that the method does not pass over.
  pub apply_rounds-IsEnd :
      (o : Object V)
      → IsRun 10 (has_source eq c o) (rounds 0).api o (apply_rounds eq c m complete rounds o)
  apply_rounds-IsEnd o = first_round 10 9 (has_source eq c o) (rounds 0).api o refl refl refl
