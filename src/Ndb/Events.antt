-- ===== src/Ndb/Events.antt =====
-- `State` of pyroute2/ndb/events.py, the log of the states of an object, the last one first. Times, and
-- the threads that wait for a state, are left out.
use pyroute.Prelude.{ℕ, Bool, false, Option, none, some, List, [], ◌∷◌, ◌==◌, if◌then◌else◌}

-- The states of RTNL objects.
pub data Status : Type 0 where
  invalid system change replace setns remove : Status

abbrev pub code : Status → ℕ
code invalid = 0
code system = 1
code change = 2
code replace = 3
code setns = 4
code remove = 5

abbrev pub same : Status → Status → Bool
same a b = code a == code b

abbrev pub State : Type 0
State = List Status

unfoldable pub get : State → Option Status
get [] = none
get (s ∷ events) = some s

-- `self.state == status`.
unfoldable pub is : State → Status → Bool
is [] status = false
is (s ∷ events) status = same s status

-- A state that is the last one already takes its place.
unfoldable pub set : State → Status → State
set [] status = status ∷ []
set (s ∷ events) status = if same s status then status ∷ events else status ∷ s ∷ events

unfoldable pub transition : State → Option (Status × Status)
transition [] = none
transition (s ∷ []) = none
transition (s ∷ before ∷ events) = some (before, s)
