-- ===== src/Ndb/Transaction/Tests.antt =====
-- Objects that push a number to a log and take it off again; the last one fails half way.
use pyroute.Prelude.{ℕ, ◌≡◌, refl, false, Option, none, some, List, [], ◌∷◌}
use pyroute.Ndb.Transaction.{Object, Transaction, commit, begin, push, rollback_all, set_event}
use pyroute.Ndb.Transaction.Atomic.{commit-refines, commit-failed, all_or_nothing, Commits}

abbrev tail : List ℕ → List ℕ
tail [] = []
tail (x ∷ xs) = xs

abbrev writes : ℕ → Option ℕ → Object (List ℕ) ℕ
writes n raised = record { commit = λ w. (raised, n ∷ w); rollback = λ w. (none, tail w) }

abbrev batch : Transaction (List ℕ) ℕ
batch = record { queue = writes 1 none ∷ writes 2 (some 7) ∷ writes 3 none ∷ []; event = false }

push-begin : push begin (writes 1 none ∷ writes 2 (some 7) ∷ writes 3 none ∷ []) ≡ batch
unfolding push
push-begin = refl

commit-refines_example : commit batch (9 ∷ []) ≡ (some 7, batch, 9 ∷ [])
unfolding all_or_nothing set_event
commit-refines_example = commit-refines batch (9 ∷ []) ((λ w. refl, (λ w. refl, (λ w. refl, tt))))

commit-failed_example : commit batch (9 ∷ []) ≡ (some 7, batch, 9 ∷ [])
unfolding rollback_all Commits
commit-failed_example =
    commit-failed batch (writes 1 none ∷ []) (writes 3 none ∷ []) (writes 2 (some 7)) (9 ∷ [])
      (1 ∷ 9 ∷ []) 7 refl (refl, refl) refl
