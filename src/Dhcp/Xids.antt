-- ===== src/Dhcp/Xids.antt =====
-- Transaction ids: `Xid` of pyroute2/dhcp/xids.py. An id is its number.
use pyroute.Prelude.{
  ℕ, ◌+◌, ◌*◌, ◌/◌, ◌^◌, ◌<◌, ◌≡◌, refl, ap, ◌∙◌, bit_and, bit_or, Bool, true, Option, some, none,
  ltb, lt→ltb, ◌==◌, ==_refl, if◌then◌else◌, arith,
}
use pyroute.Prelude.Bits.{bit_and_high, bit_and_low, bit_or_fields, bit_or_comm}
use pyroute.Dhcp.Fsm.{
  State, number, state_of, state_of-number, off, init, init_reboot, rebooting, requesting,
  selecting, bound, renewing, rebinding,
}

-- `Xid(value)` of an int: `none` is an AssertionError.
unfoldable pub make_xid : ℕ → Option ℕ
make_xid value = if ltb value 0xffff_ffff then some value else none

unfoldable pub random_part : ℕ → ℕ
random_part xid = bit_and xid 0xffff_fff0

unfoldable pub request_state : ℕ → Option State
request_state xid = state_of (bit_and xid 0xf)

unfoldable pub for_state : ℕ → State → Option ℕ
for_state xid s = make_xid (bit_or (random_part xid) (number s))

unfoldable pub matches : ℕ → ℕ → Bool
matches xid received = random_part xid == random_part received

number-lt : (s : State) → number s < 9
number-lt off = omega arith
number-lt init = omega arith
number-lt init_reboot = omega arith
number-lt rebooting = omega arith
number-lt requesting = omega arith
number-lt selecting = omega arith
number-lt bound = omega arith
number-lt renewing = omega arith
number-lt rebinding = omega arith

random_part-eq : (xid : ℕ) → xid < 2 ^ 32 → random_part xid ≡ xid / 16 * 16
unfolding random_part
random_part-eq xid h =
    bit_and_high 4 xid 0xfff_ffff ∙ ap (λ t. t * 16) (bit_and_low 28 (xid / 16)) ∙ omega arith

-- The number that carries a state.
carried :
    (xid : ℕ) (s : State)
    → xid < 2 ^ 32
    → bit_or (random_part xid) (number s) ≡ xid / 16 * 16 + number s
carried xid s h =
    ap (λ t. bit_or t (number s)) (random_part-eq xid h)
    ∙ bit_or_comm (xid / 16 * 16) (number s)
    ∙ bit_or_fields 4 (number s) (xid / 16) (omega (arith, number-lt s))

-- Of an id below 2^32, `for_state` never fails, and from the id that it makes a server's answer
-- gives back the state, and matches the id. The new id fits 32 bits again.
pub request_state-for_state :
    (xid : ℕ) (s : State)
    → xid < 2 ^ 32
    → (x : ℕ) × (for_state xid s ≡ some x)
      × (request_state x ≡ some s)
      × (matches xid x ≡ true)
      × (x < 0xffff_ffff)
unfolding for_state make_xid request_state matches
request_state-for_state xid s h =
    let small : number s < 9 = number-lt s in
    let fits : xid / 16 * 16 + number s < 0xffff_ffff = omega (arith, h, small) in
    let low : bit_and (xid / 16 * 16 + number s) 0xf ≡ number s =
      bit_and_low 4 (xid / 16 * 16 + number s) ∙ omega (arith, small) in
    let high : random_part (xid / 16 * 16 + number s) ≡ xid / 16 * 16 =
      random_part-eq (xid / 16 * 16 + number s) (omega (arith, fits)) ∙ omega (arith, small) in
    (
      xid / 16 * 16 + number s,
      rw (carried xid s h, lt→ltb _ _ fits) refl,
      ap state_of low ∙ state_of-number s,
      rw (high, random_part-eq xid h) (==_refl (xid / 16 * 16)),
      fits,
    )
