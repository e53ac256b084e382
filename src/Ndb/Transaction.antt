-- ===== src/Ndb/Transaction.antt =====
-- `Transaction` of pyroute2/ndb/transaction.py, and the checks that it may hold. What commits and
-- rollbacks change is a world of any type; an exception is a value of any type. Log lines are left out.
pub mod Atomic
pub mod Checks
pub mod Tests
use pyroute.Prelude.{
  ℕ, zero, suc, Bool, true, false, Option, none, some, List, [], ◌∷◌, ◌++◌, length, leb, ltb, ◌-◌,
  if◌then◌else◌,
}
use mathlib.Core.List.{reverse}

-- The commit/rollback protocol: the exception, if the method raises, and the world that it leaves.
pub record Object (W E : Type 0) : Type 0 where
  pub commit : W → Option E × W
  pub rollback : W → Option E × W

pub record Transaction (W E : Type 0) : Type 0 where
  pub queue : List (Object W E)
  pub event : Bool

module _ {W E : Type 0} where
  abbrev pub begin : Transaction W E
  begin = record { queue = []; event = false }

  pub push : Transaction W E → List (Object W E) → Transaction W E
  push tx [] = tx
  push tx (obj ∷ argv) = push (record tx { queue = tx.queue ++ obj ∷ [] }) argv

  pub append : Transaction W E → Object W E → Transaction W E
  append tx obj = push tx (obj ∷ [])

  -- `list.pop` and `list.insert` at an index from the left; the first raises IndexError past the end.
  pub pop_at : List (Object W E) → ℕ → Option (List (Object W E))
  pop_at [] i = none
  pop_at (obj ∷ queue) zero = some queue
  pop_at (obj ∷ queue) (suc i) = elim (pop_at queue i) [
    | none ↦ none
    | some rest ↦ some (obj ∷ rest)
  ]

  -- Index -1, which `pop` has by default, is the last.
  pub pop_last : List (Object W E) → Option (List (Object W E))
  pop_last [] = none
  pop_last (obj ∷ []) = some []
  pop_last (obj ∷ next ∷ queue) = elim (pop_last (next ∷ queue)) [
    | none ↦ none
    | some rest ↦ some (obj ∷ rest)
  ]

  pub pop : Transaction W E → Option ℕ → Option (Transaction W E)
  pop tx none = elim (pop_last tx.queue) [ none ↦ none | some q ↦ some (record tx { queue = q }) ]
  pop tx (some i) = elim (pop_at tx.queue i) [
    | none ↦ none
    | some q ↦ some (record tx { queue = q })
  ]

  pub insert_at : List (Object W E) → ℕ → Object W E → List (Object W E)
  insert_at [] i new = new ∷ []
  insert_at (obj ∷ queue) zero new = new ∷ obj ∷ queue
  insert_at (obj ∷ queue) (suc i) new = obj ∷ insert_at queue i new

  pub insert : Transaction W E → ℕ → Object W E → Transaction W E
  insert tx i new = record tx { queue = insert_at tx.queue i new }

  pub cancel : Transaction W E → Transaction W E
  cancel tx = record tx { queue = [] }

  abbrev pub done : Transaction W E → Bool
  done tx = tx.event

  -- The inner loop of `commit`; the exceptions of rollbacks are ignored.
  pub rollback_all : List (Object W E) → W → W
  rollback_all [] w = w
  rollback_all (rb ∷ rollbacks) w = rollback_all rollbacks (rb.rollback w).1

  -- The outer loop, with the list of the objects that it has come to.
  pub commit_all : List (Object W E) → List (Object W E) → W → Option E × W
  commit_all [] rollbacks w = (none, w)
  commit_all (obj ∷ queue) rollbacks w =
      let (raised, w') = obj.commit w in
      elim raised [
        | none ↦ commit_all queue (rollbacks ++ obj ∷ []) w'
        | some e ↦ (some e, rollback_all (reverse (rollbacks ++ obj ∷ [])) w')
      ]

  pub set_event : Transaction W E → Option E → Transaction W E
  set_event tx none = record tx { event = true }
  set_event tx (some e) = tx

  pub commit : Transaction W E → W → Option E × Transaction W E × W
  commit tx w = let (raised, w') = commit_all tx.queue [] w in (raised, set_event tx raised, w')

  -- The context manager: `__exit__` commits if the block raised nothing.
  pub exit : Transaction W E → Option E → W → Option E × Transaction W E × W
  exit tx none w = commit tx w
  exit tx (some e) w = (some e, tx, w)
