-- ===== src/Ndb/Object/Commits/Outcomes.antt =====
-- What `commit` promises for a new object.

use pyroute.Prelude.{ℕ, ◌≡◌, refl, ap, Bool, true, false, Option, none, some, [], ◌∷◌, arith}
use pyroute.Ndb.Events.{State, invalid, system, change, replace, setns, remove, is}
use pyroute.Ndb.Events.{get as get_state}
use pyroute.Ndb.Object.{Object, Class}
use pyroute.Ndb.Object.Assigns.{IsTracked}
use pyroute.Ndb.Object.Rounds.{
  has_source, no_source, Method, add, method_of, Round, Outcome, checked, unchecked, raised,
  fallback_for,
}
use pyroute.Ndb.Object.Rounds.Ends.{IsRun, passes, IsEnd, apply_rounds-IsEnd}
use pyroute.Ndb.Object.Requests.{request, Request, start_state, prime_of, fill, request_for}
use pyroute.Ndb.Object.Requests.Carries.{put_changed-IsRequest}
use pyroute.Ndb.Object.Commits.{
  Failure, key_error, unsupported, not_applied, netlink_error, finish, clean, restore, apply_from,
  apply, commit,
}

pub method_of-invalid : (s : State) → is s invalid ≡ true → method_of (get_state s) ≡ some add
unfolding is get_state method_of
method_of-invalid [] h = absurd (ground arith)
method_of-invalid (invalid ∷ s) h = refl
method_of-invalid (system ∷ s) h = absurd (ground arith)
method_of-invalid (change ∷ s) h = absurd (ground arith)
method_of-invalid (replace ∷ s) h = absurd (ground arith)
method_of-invalid (setns ∷ s) h = absurd (ground arith)
method_of-invalid (remove ∷ s) h = absurd (ground arith)

pub not_system : (s : State) → is s invalid ≡ true → is s system ≡ false
unfolding is
not_system [] h = refl
not_system (s ∷ events) h = ground (arith, h)

module _ {V : Type 0} (eq : V → V → Bool) (c : Class V) (complete : Bool)
    (world : Method → Request V → ℕ → Round V) where
  -- How a commit ends after a first call that returned: it returns only when a check passed; it has a
  -- method; and after an exception the fields are as they were.
  abbrev pub IsAfterCall : Object V → Option Failure × Object V → Type 0
  IsAfterCall o (none, after) = passes after ≡ true
  IsAfterCall o (some key_error, after) = after.fields ≡ o.fields
  IsAfterCall o (some unsupported, after) = ⊥
  IsAfterCall o (some not_applied, after) = after.fields ≡ o.fields
  IsAfterCall o (some (netlink_error e), after) =
      (after.fields ≡ o.fields) × (fallback_for add e ≡ none)

  -- How a commit ends, by whether there is a source, and by the first call of the API.
  abbrev pub IsCommitted : Bool → Option ℕ → Object V → Option Failure × Object V → Type 0
  IsCommitted false api o end = end ≡ (some key_error, o)
  IsCommitted true (some e) o end = end ≡ (some (netlink_error e), o)
  IsCommitted true none o end = IsAfterCall o end

  ended : Object V → Outcome × Object V → Option Failure × Object V
  ended o end = restore o (finish end)

  finish-IsAfterCall :
      (o : Object V) (rounds : ℕ → Round V) (end : Outcome × Object V)
      → IsEnd eq c add complete rounds 10 end
      → IsAfterCall o (restore o (finish end))
  unfolding finish
  finish-IsAfterCall o rounds (checked, after) h = h
  finish-IsAfterCall o rounds (unchecked, after) h = refl
  finish-IsAfterCall o rounds (no_source, after) h = refl
  finish-IsAfterCall o rounds (raised e, after) (itn, at, refused) = (refl, refused)

  finish-IsCommitted :
      (has : Bool) (api : Option ℕ) (o : Object V) (rounds : ℕ → Round V) (end : Outcome × Object V)
      → IsRun eq c add complete rounds 10 has api o end
      → IsCommitted has api o (restore o (finish end))
  unfolding finish ended
  finish-IsCommitted false api o rounds end h = ap (ended o) h
  finish-IsCommitted true (some e) o rounds end h = ap (ended o) h
  finish-IsCommitted true none o rounds end h = finish-IsAfterCall o rounds end h

  -- `apply` can make a request of an object that is not in the system, with no fields to resolve, whose
  -- pending fields are all there.
  -- `commit` of it raises KeyError when its target has no source, and any error of the first call of the
  -- API; both leave the object as it was. After a first call that returned, it returns only when a check
  -- passed: no change is pending. If it raises, the fields are as they were, and an error of netlink is of
  -- a code that `add` does not pass over.
  pub commit-IsCommitted :
      (existing : Object V → Option Failure × Object V) (count : ℕ) (o : Object V)
      → is o.state invalid ≡ true
      → IsTracked o
      → (req : Request V) × (request c add o ≡ some req)
        × IsCommitted
            (has_source eq c o)
            (world add req 0).api
            o
            (commit eq c complete world existing count o)
  unfolding commit apply apply_from start_state clean request_for
  commit-IsCommitted existing count o h tracked =
      let prime : Request V = prime_of c.knorm o [] in
      let (req, made, f) = put_changed-IsRequest o.changed o prime tracked in
      let rounds = world add (fill o.fields req) in
      (
        fill o.fields req,
        rw made refl,
        rw (h, not_system o.state h, made, method_of-invalid o.state h)
            (finish-IsCommitted (has_source eq c o) (rounds 0).api o rounds _
              (apply_rounds-IsEnd eq c add complete rounds o)),
      )
