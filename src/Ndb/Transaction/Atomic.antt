-- ===== src/Ndb/Transaction/Atomic.antt =====
-- A transaction is all or nothing.
use mathlib.Core.List.{reverse, reverse-append}
use pyroute.Prelude.{
  ◌≡◌, refl, ap, ◌∙◌, Option, none, some, List, [], ◌∷◌, ◌++◌, append_assoc, append-nil, All,
  Option-cases, inl, inr,
}
use pyroute.Ndb.Transaction.{Object, Transaction, rollback_all, commit_all, set_event, commit}

module _ {W E : Type 0} where
  -- The rollback of an object undoes its commit, a failed one too.
  abbrev pub IsReversible : Object W E → Type 0
  IsReversible obj = (w : W) → (obj.rollback (obj.commit w).1).1 ≡ w

  -- What a transaction promises: the effects of all the commits in order, or none and the first
  -- exception.
  unfoldable pub all_or_nothing : List (Object W E) → W → W → Option E × W
  all_or_nothing [] start w = (none, w)
  all_or_nothing (obj ∷ queue) start w =
      let (raised, w') = obj.commit w in
      elim raised [ none ↦ all_or_nothing queue start w' | some e ↦ (some e, start) ]

  reverse-snoc :
      (obj : Object W E) (objs : List (Object W E))
      → reverse (objs ++ obj ∷ []) ≡ obj ∷ reverse objs
  reverse-snoc obj objs = reverse-append objs (obj ∷ [])

  -- What was committed so far rolls back to the start.
  commit_all-refines :
      (queue rollbacks : List (Object W E)) (start w : W)
      → All IsReversible queue
      → rollback_all (reverse rollbacks) w ≡ start
      → commit_all queue rollbacks w ≡ all_or_nothing queue start w
  unfolding commit_all all_or_nothing rollback_all
  commit_all-refines [] rollbacks start w h back = refl
  commit_all-refines (obj ∷ queue) rollbacks start w (undo, h) back =
      let back' : rollback_all (reverse (rollbacks ++ obj ∷ [])) (obj.commit w).1 ≡ start =
        ap (λ l. rollback_all l (obj.commit w).1) (reverse-snoc obj rollbacks)
        ∙ ap (rollback_all (reverse rollbacks)) (undo w)
        ∙ back in
      elim (Option-cases (obj.commit w).0) [
        | inl fine ↦
            rw fine
              (commit_all-refines queue (rollbacks ++ obj ∷ []) start (obj.commit w).1 h back')
        | inr (e, failed) ↦ rw failed (ap (λ v. (some e, v)) back')
      ]

  -- If the rollback of each queued object undoes its commit, a failed one too, `commit` is all or
  -- nothing: it applies all commits in order and sets the event, or it raises the first exception,
  -- leaves the world as it was before, and leaves the event.
  pub commit-refines :
      (tx : Transaction W E) (w : W)
      → All IsReversible tx.queue
      → commit tx w
        ≡ (let (raised, w') = all_or_nothing tx.queue w w in (raised, set_event tx raised, w'))
  unfolding commit
  commit-refines tx w h =
      rw (commit_all-refines tx.queue [] w w h (unfold rollback_all in refl)) refl

  -- Every commit of the list succeeds, from w to the last world.
  unfoldable pub Commits : List (Object W E) → W → W → Type 0
  Commits [] w w' = w ≡ w'
  Commits (obj ∷ objs) w w' = ((obj.commit w).0 ≡ none) × Commits objs (obj.commit w).1 w'

  commit_all-failed :
      (before after rollbacks : List (Object W E)) (obj : Object W E) (w w' : W) (e : E)
      → Commits before w w'
      → (obj.commit w').0 ≡ some e
      → commit_all (before ++ obj ∷ after) rollbacks w
        ≡ (some e, rollback_all (obj ∷ reverse (rollbacks ++ before)) (obj.commit w').1)
  unfolding Commits commit_all
  commit_all-failed [] after rollbacks obj w w' e here failed =
      let failed' : (obj.commit w).0 ≡ some e = rw here failed in
      rw (← here, failed', append-nil rollbacks, reverse-snoc obj rollbacks) refl
  commit_all-failed (o ∷ before) after rollbacks obj w w' e (fine, more) failed = rw fine (
      commit_all-failed before after (rollbacks ++ o ∷ []) obj (o.commit w).1 w' e more failed
      ∙ ap (λ l. (some e, rollback_all (obj ∷ reverse l) (obj.commit w').1))
          (append_assoc rollbacks (o ∷ []) before))

  -- The first exception of a queue: `commit` raises it after the rollbacks of the failed object and
  -- then of those before it, the last first. What stands behind the failed object is not run, and
  -- the event is not set.
  pub commit-failed :
      (tx : Transaction W E) (before after : List (Object W E)) (obj : Object W E) (w w' : W)
      (e : E)
      → tx.queue ≡ before ++ obj ∷ after
      → Commits before w w'
      → (obj.commit w').0 ≡ some e
      → commit tx w ≡ (some e, tx, rollback_all (obj ∷ reverse before) (obj.commit w').1)
  unfolding commit set_event
  commit-failed tx before after obj w w' e split fine failed =
      rw (split, commit_all-failed before after [] obj w w' e fine failed) refl
