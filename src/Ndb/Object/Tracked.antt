-- ===== src/Ndb/Object/Tracked.antt =====
-- The fields of an object that have a pending change are there, whatever is loaded.
use Prim.Native.String.{String}
use pyroute.Prelude.{
  ℕ, zero, suc, ◌≡◌, ◌∙◌, Bool, true, false, not, ◌||◌, Option, none, some, List, [], ◌∷◌, ◌==◌,
  Bool-cases, inl, inr, arith,
}
use pyroute.Requests.Processor.{member}
use pyroute.Ndb.Events.{is, invalid, remove, setns}
use pyroute.Ndb.Object.{
  Object, Class, Fetched, found, missing, no_key, has, discard, get, put, value_eq, transformed,
  compared, take_agreed, load_value, load_columns, update_from_sql, load_sql, count, is_none, check,
}
use pyroute.Ndb.Object.Keys.{has-discard}
use pyroute.Ndb.Object.Assigns.{known, IsTracked, known-put}
use pyroute.Ndb.Object.Rounds.{
  Method, Fallback, ignored, reload, Event, deleted, updated, Round, Outcome, returned, call_error,
  fallback_for, load_event, load_events, fallback_add, handle_with, handle_error, after_call,
  settle, after_check, after_error, run, has_source,
}

has-smaller : (n k : String) (ks : List String) → has n (discard k ks) ≡ true → has n ks ≡ true
has-smaller n k ks h = ground (arith, has-discard n k ks)

module _ {V : Type 0} where
  put-known :
      (o : Object V) (k : String) (v : Option V) (n : String)
      → known n o ≡ true
      → known n (put o k v) ≡ true
  put-known o k v n h = known-put n k v o ∙ ground (arith, h)

  take_agreed-IsTracked :
      (o : Object V) (k : String) (w : Option (Option V))
      → IsTracked o
      → IsTracked (take_agreed o k w)
  unfolding put
  take_agreed-IsTracked o k none h = h
  take_agreed-IsTracked o k (some w) h =
      λ n pending. put-known o k w n (h n (has-smaller n k o.changed pending))

module _ {V : Type 0} (eq : V → V → Bool) (c : Class V) where
  load_value-IsTracked :
      (o : Object V) (k : String) (v : Option V) → IsTracked o → IsTracked (load_value eq c o k v)
  unfolding load_value put
  load_value-IsTracked o k v h = elim (Bool-cases (has k o.changed)) [
    | inr m ↦ rw m (λ n pending. put-known o k (transformed (c.load_transform k) v) n (h n pending))
    | inl y ↦ elim (Bool-cases (value_eq eq (get o k) (transformed (c.load_transform k) v))) [
      | inl e ↦ rw (y, e) (λ n pending. h n (has-smaller n k o.changed pending))
      | inr e ↦
          rw (y, e)
            (take_agreed-IsTracked o k
              (compared (c.fields_cmp k) (get o k) (transformed (c.load_transform k) v)) h)
    ]
  ]

  load_columns-IsTracked :
      (ks : List String) (vs : List (Option V)) (o : Object V)
      → IsTracked o
      → IsTracked (load_columns eq c ks vs o)
  unfolding load_columns
  load_columns-IsTracked [] vs o h = h
  load_columns-IsTracked (k ∷ ks) [] o h = h
  load_columns-IsTracked (k ∷ ks) (v ∷ vs) o h =
      elim (Bool-cases (count k c.names == 1 || not (is_none v))) [
        | inl y ↦
            rw (load_columns, y)
              (load_columns-IsTracked ks vs (load_value eq c o k v) (load_value-IsTracked o k v h))
        | inr m ↦ rw (load_columns, m) (load_columns-IsTracked ks vs o h)
      ]

  pub load_sql-IsTracked :
      (o : Object V) (f : Fetched V) → IsTracked o → IsTracked (load_sql eq c o f)
  unfolding load_sql update_from_sql member
  load_sql-IsTracked o no_key h = h
  load_sql-IsTracked o missing h = elim (Bool-cases (is o.state invalid)) [
    | inl y ↦ rw y h
    | inr m ↦ rw m (λ n pending. absurd (ground arith))
  ]
  load_sql-IsTracked o (found row) h = elim (Bool-cases (is o.state remove || is o.state setns)) [
    | inl y ↦ rw y h
    | inr m ↦ rw m (load_columns-IsTracked c.names row o h)
  ]

  pub load_event-IsTracked :
      (e : Event V) (o : Object V) → IsTracked o → IsTracked (load_event eq c e o)
  unfolding load_event member
  load_event-IsTracked deleted o h = λ n pending. absurd (ground arith)
  load_event-IsTracked (updated f) o h = load_sql-IsTracked o f h

  load_events-IsTracked :
      (events : List (Event V)) (o : Object V) → IsTracked o → IsTracked (load_events eq c events o)
  unfolding load_events
  load_events-IsTracked [] o h = h
  load_events-IsTracked (e ∷ events) o h =
      load_events-IsTracked events (load_event eq c e o) (load_event-IsTracked e o h)

  handle_with-IsTracked :
      (complete : Bool) (f : Fetched V) (o : Object V) (e : ℕ) (fallback : Option Fallback)
      → IsTracked o
      → IsTracked (handle_with eq c complete f o e fallback).1
  unfolding fallback_add
  handle_with-IsTracked complete f o e none h = h
  handle_with-IsTracked complete f o e (some ignored) h = h
  handle_with-IsTracked true f o e (some reload) h = load_sql-IsTracked o f h
  handle_with-IsTracked false f o e (some reload) h = h

  handle_error-IsTracked :
      (m : Method) (complete first : Bool) (f : Fetched V) (o : Object V) (e : Option ℕ)
      → IsTracked o
      → IsTracked (handle_error eq c m complete first f o e).1
  handle_error-IsTracked m complete first f o none h = h
  handle_error-IsTracked m complete true f o (some e) h =
      handle_with-IsTracked complete f o e (fallback_for m e) h
  handle_error-IsTracked m complete false f o (some e) h = h

  after_check-IsTracked :
      (rest : Object V → Outcome × Object V) (checked : Bool × Object V)
      → ((o : Object V) → IsTracked o → IsTracked (rest o).1)
      → IsTracked checked.1
      → IsTracked (after_check eq c rest checked).1
  after_check-IsTracked rest (true, o) next h = h
  after_check-IsTracked rest (false, o) next h = next o h

  after_error-IsTracked :
      (r : Round V) (rest : Object V → Outcome × Object V) (called : Option ℕ × Object V)
      → ((o : Object V) → IsTracked o → IsTracked (rest o).1)
      → IsTracked called.1
      → IsTracked (after_error eq c r rest called).1
  unfolding check
  after_error-IsTracked r rest (some e, o) next h = h
  after_error-IsTracked r rest (none, o) next h =
      after_check-IsTracked rest (settle eq c r o) next (
        load_sql-IsTracked (load_events eq c r.events o) r.fetched
          (load_events-IsTracked r.events o h))

  pub run-IsTracked :
      (m : Method) (complete : Bool) (rounds : ℕ → Round V) (n itn : ℕ) (first : Bool)
      (o : Object V)
      → IsTracked o
      → IsTracked (run eq c m complete rounds n itn first o).1
  unfolding run check
  run-IsTracked m complete rounds zero itn first o h = load_sql-IsTracked o (rounds itn).fetched h
  run-IsTracked m complete rounds (suc n) itn first o h = elim (Bool-cases (has_source eq c o)) [
    | inr no_target ↦ rw no_target h
    | inl y ↦ rw y (
        after_error-IsTracked (rounds itn)
          (run eq c m complete rounds n (suc itn) (first || returned (rounds itn).api))
          (after_call eq c m complete first (rounds itn) o)
          (run-IsTracked m complete rounds n (suc itn) (first || returned (rounds itn).api))
          (handle_error-IsTracked m complete (first || returned (rounds itn).api)
            (rounds itn).reloaded o (call_error (rounds itn)) h))
  ]
