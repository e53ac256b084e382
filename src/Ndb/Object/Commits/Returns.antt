-- ===== src/Ndb/Object/Commits/Returns.antt =====
-- `commit` of a new object returns when the system makes it.
use Prim.Native.String.{String}
use pyroute.Prelude.{
  ℕ, suc, ◌≡◌, refl, subst, ap, ◌∙◌, Bool, true, false, ◌||◌, Option, none, some, List, [], ◌∷◌,
  Bool-cases, inl, inr, arith,
}
use pyroute.Requests.Processor.{member}
use pyroute.Ndb.Events.{State, invalid, system, change, replace, setns, remove, is, transition}
use pyroute.Ndb.Events.{set as set_state}
use pyroute.Ndb.Object.{Object, Class, found, missing, has, in_map, no_changes, load_sql, check}
use pyroute.Ndb.Object.Keys.{str_eq_refl}
use pyroute.Ndb.Object.Assigns.{IsTracked}
use pyroute.Ndb.Object.Merge.{column, Distinct, still_pending}
use pyroute.Ndb.Object.Loads.{IsConfirmed, load_sql-IsLoaded}
use pyroute.Ndb.Object.Rounds.{
  has_source, no_source, Method, add, Round, Outcome, checked, returned, after_check, after_error,
  after_call, run, load_events, apply_rounds, unchecked, raised,
}
use pyroute.Ndb.Object.Requests.{Request, start_state, prime_of, fill, request_for}
use pyroute.Ndb.Object.Requests.Carries.{put_changed-IsRequest}
use pyroute.Ndb.Object.Commits.{Failure, finish, clean, restore, apply_from, apply, commit}
use pyroute.Ndb.Object.Commits.Outcomes.{method_of-invalid, not_system}

no_changes_all : (ks : List String) → ((n : String) → has n ks ≡ false) → no_changes ks ≡ true
unfolding member
no_changes_all [] h = refl
no_changes_all (k ∷ ks) h = absurd (let at = h k in let same = str_eq_refl k in ground arith)

not_leaving : (s : State) → is s invalid ≡ true → (is s remove || is s setns) ≡ false
unfolding is
not_leaving [] h = refl
not_leaving (s ∷ events) h = ground (arith, h)

module _ {V : Type 0} (eq : V → V → Bool) (c : Class V) (row : List (Option V)) where
  confirmed-still_pending :
      (o : Object V) (n : String)
      → (has n o.changed ≡ true → IsConfirmed eq c o row n)
      → still_pending eq c o n (column eq c n c.names row) ≡ false
  confirmed-still_pending o n h = elim (Bool-cases (has n o.changed)) [
    | inl y ↦ let (v, at, e) = h y in rw (at, e, y) refl
    | inr m ↦ still_pending_none n (column eq c n c.names row) m
  ]
    where
      still_pending_none :
          (n : String) (new : Option (Option V))
          → has n o.changed ≡ false
          → still_pending eq c o n new ≡ false
      still_pending_none n none m = m
      still_pending_none n (some v) m = rw m refl

  in_map_found : (s : State) → is s invalid ≡ true → in_map (transition (set_state s system)) ≡ true
  unfolding is set_state transition
  in_map_found [] h = absurd (ground arith)
  in_map_found (invalid ∷ s) h = refl
  in_map_found (system ∷ s) h = absurd (ground arith)
  in_map_found (change ∷ s) h = absurd (ground arith)
  in_map_found (replace ∷ s) h = absurd (ground arith)
  in_map_found (setns ∷ s) h = absurd (ground arith)
  in_map_found (remove ∷ s) h = absurd (ground arith)

  -- Each change that is pending is confirmed.
  abbrev pub AllConfirmed : Object V → Type 0
  AllConfirmed o = (n : String) → has n o.changed ≡ true → IsConfirmed eq c o row n

  check-found :
      (o : Object V)
      → is o.state invalid ≡ true
      → Distinct eq c c.names
      → AllConfirmed o
      → (check eq c o (found row)).0 ≡ true
  unfolding check
  check-found o h d all =
      let loaded = rw (not_leaving o.state h) at (load_sql-IsLoaded eq c o (found row) d) in
      let settled : no_changes (load_sql eq c o (found row)).changed ≡ true =
        no_changes_all (load_sql eq c o (found row)).changed
          (λ n. (loaded.0 n).1 ∙ confirmed-still_pending o n (all n)) in
      let state : (load_sql eq c o (found row)).state ≡ set_state o.state system =
        unfold load_sql in rw (not_leaving o.state h) refl in
      rw (settled, state, in_map_found o.state h) refl

  -- The record is found in one of the rounds that are left, from `itn` on, and nothing fails before.
  pub data Works (rounds : ℕ → Round V) : ℕ → ℕ → Type 0 where
    now :
        {n itn : ℕ}
        → (rounds itn).api ≡ none
        → (rounds itn).hook ≡ none
        → (rounds itn).events ≡ []
        → (rounds itn).fetched ≡ found row
        → Works rounds (suc n) itn
    later :
        {n itn : ℕ}
        → (rounds itn).api ≡ none
        → (rounds itn).hook ≡ none
        → (rounds itn).events ≡ []
        → (rounds itn).fetched ≡ missing
        → Works rounds n (suc itn)
        → Works rounds (suc n) itn

  after_check-checked :
      (rest : Object V → Outcome × Object V) (ok : Bool) (o' : Object V)
      → (ok ≡ false → (rest o').0 ≡ checked)
      → (after_check eq c rest (ok, o')).0 ≡ checked
  after_check-checked rest true o' h = refl
  after_check-checked rest false o' h = h refl

  handle_no_error :
      (m : Method) (complete first : Bool) (r : Round V) (o : Object V)
      → r.api ≡ none
      → r.hook ≡ none
      → after_call eq c m complete first r o ≡ (none, o)
  handle_no_error m complete first r o a b = rw (a, b) refl

  quiet_round :
      (m : Method) (complete : Bool) (rounds : ℕ → Round V) (n itn : ℕ) (first : Bool)
      (o : Object V)
      → (rounds itn).api ≡ none
      → (rounds itn).hook ≡ none
      → (rounds itn).events ≡ []
      → has_source eq c o ≡ true
      → run eq c m complete rounds (suc n) itn first o
        ≡ after_check eq c
            (run eq c m complete rounds n (suc itn) (first || returned (rounds itn).api))
            (check eq c o (rounds itn).fetched)
  unfolding run load_events
  quiet_round m complete rounds n itn first o a b e y = rw y (
      ap
        (after_error eq c (rounds itn)
          (run eq c m complete rounds n (suc itn) (first || returned (rounds itn).api)))
        (handle_no_error m complete first (rounds itn) o a b)
      ∙ rw e refl)

  check-missing : (o : Object V) → is o.state invalid ≡ true → (check eq c o missing).1 ≡ o
  unfolding check load_sql
  check-missing o h = rw h refl

  run-checked :
      (m : Method) (complete : Bool) (rounds : ℕ → Round V) (n itn : ℕ) (first : Bool)
      (o : Object V)
      → is o.state invalid ≡ true
      → Distinct eq c c.names
      → AllConfirmed o
      → has_source eq c o ≡ true
      → Works rounds n itn
      → (run eq c m complete rounds n itn first o).0 ≡ checked
  run-checked m complete rounds n itn first o h d all y (now {n = n'} a b e f) =
      ap (λ x. x.0) (quiet_round m complete rounds n' itn first o a b e y)
      ∙ after_check-checked
          (run eq c m complete rounds n' (suc itn) (first || returned (rounds itn).api)) _ _
          (λ no_check. absurd (
            let ok = check-found o h d all in
            let failed : (check eq c o (found row)).0 ≡ false =
              subst (λ x. (check eq c o x).0 ≡ false) f no_check in
            ground arith))
  run-checked m complete rounds n itn first o h d all y (later {n = n'} a b e f w) =
      ap (λ x. x.0) (quiet_round m complete rounds n' itn first o a b e y)
      ∙ after_check-checked
          (run eq c m complete rounds n' (suc itn) (first || returned (rounds itn).api)) _ _
          (λ no_check.
            rw (f, check-missing o h)
              (run-checked m complete rounds n' (suc itn) (first || returned (rounds itn).api) o h d
                all y w))

  finish-checked : (end : Outcome × Object V) → end.0 ≡ checked → (finish end).0 ≡ none
  unfolding finish
  finish-checked (checked, o) h = refl
  finish-checked (unchecked, o) h = absurd (ground (arith, h))
  finish-checked (no_source, o) h = absurd (ground (arith, h))
  finish-checked (raised e, o) h = absurd (ground (arith, h))

  restore-none :
      (o : Object V) (done : Option Failure × Object V) → done.0 ≡ none → (restore o done).0 ≡ none
  restore-none o (none, after) h = refl
  restore-none o (some f, after) h = h

  -- `commit` of an object that is not in the system, with no fields to resolve, whose pending fields are all
  -- there and whose target has a source, returns when the database has a record in one of the ten rounds,
  -- the first of them in which it has one confirms each pending change, and up to it the calls of the API
  -- and the hooks return and no event comes. The names of the columns are distinct.
  pub commit-returns :
      (complete : Bool) (world : Method → Request V → ℕ → Round V)
      (existing : Object V → Option Failure × Object V) (count : ℕ) (o : Object V)
      → is o.state invalid ≡ true
      → IsTracked o
      → Distinct eq c c.names
      → AllConfirmed o
      → has_source eq c o ≡ true
      → ((req : Request V) → Works (world add req) 10 0)
      → (commit eq c complete world existing count o).0 ≡ none
  unfolding commit apply apply_from start_state clean request_for
  commit-returns complete world existing count o h tracked d all y works =
      let prime : Request V = prime_of c.knorm o [] in
      let (req, made, f) = put_changed-IsRequest o.changed o prime tracked in
      let req' : Request V = fill o.fields req in
      rw (h, not_system o.state h, made, method_of-invalid o.state h)
        (restore-none o (finish (apply_rounds eq c add complete (world add req') o)) (
          finish-checked (apply_rounds eq c add complete (world add req') o)
            (run-checked add complete (world add req') 10 0 false o h d all y (works req'))))
