-- ===== src/Dhcp/Fsm.antt =====
-- The states of the DHCP client: `State`, `TRANSITIONS` and `state_guard` of
-- pyroute2/dhcp/fsm.py.
use pyroute.Prelude.{
  ℕ, zero, suc, ◌≡◌, refl, sym, ap, ◌∙◌, ==_iff, Bool, true, false, ◌||◌, Option, some, none, List,
  [], ◌∷◌, ◌==◌, if◌then◌else◌,
}

pub data State : Type 0 where
  off init init_reboot rebooting requesting selecting bound renewing rebinding : State

-- The value of the IntEnum.
abbrev pub number : State → ℕ
number off = 0
number init = 1
number init_reboot = 2
number rebooting = 3
number requesting = 4
number selecting = 5
number bound = 6
number renewing = 7
number rebinding = 8

-- `State(n)`, where `none` is a ValueError.
abbrev pub state_of : ℕ → Option State
state_of zero = some off
state_of (suc zero) = some init
state_of (suc (suc zero)) = some init_reboot
state_of (suc (suc (suc zero))) = some rebooting
state_of (suc (suc (suc (suc zero)))) = some requesting
state_of (suc (suc (suc (suc (suc zero))))) = some selecting
state_of (suc (suc (suc (suc (suc (suc zero)))))) = some bound
state_of (suc (suc (suc (suc (suc (suc (suc zero))))))) = some renewing
state_of (suc (suc (suc (suc (suc (suc (suc (suc zero)))))))) = some rebinding
state_of (suc (suc (suc (suc (suc (suc (suc (suc (suc n))))))))) = none

abbrev pub same_state : State → State → Bool
same_state s t = number s == number t

abbrev pub among : State → List State → Bool
among s [] = false
among s (t ∷ ts) = same_state s t || among s ts

abbrev pub transitions : State → List State
transitions off = init ∷ init_reboot ∷ []
transitions init_reboot = rebooting ∷ []
transitions rebooting = init ∷ bound ∷ []
transitions init = selecting ∷ []
transitions selecting = requesting ∷ init ∷ []
transitions requesting = bound ∷ init ∷ []
transitions bound = init ∷ renewing ∷ rebinding ∷ []
transitions renewing = bound ∷ init ∷ rebinding ∷ []
transitions rebinding = bound ∷ init ∷ []

-- The method runs only in one of the states.
abbrev pub state_guard {ℓ} : {A : Type ℓ} → List State → State → A → A → A
state_guard states s ignored run = if among s states then run else ignored

pub state_of-number : (s : State) → state_of (number s) ≡ some s
state_of-number off = refl
state_of-number init = refl
state_of-number init_reboot = refl
state_of-number rebooting = refl
state_of-number requesting = refl
state_of-number selecting = refl
state_of-number bound = refl
state_of-number renewing = refl
state_of-number rebinding = refl

pub same_state-eq : (s t : State) → same_state s t ≡ true → s ≡ t
same_state-eq s t h =
    let values : number s ≡ number t = (==_iff (number s) (number t)).0 h in
    let both : some s ≡ some t = sym (state_of-number s) ∙ ap state_of values ∙ state_of-number t in
    cc
