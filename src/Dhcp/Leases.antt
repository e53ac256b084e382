-- ===== src/Dhcp/Leases.antt =====
-- Leases and their timers: `Lease` of pyroute2/dhcp/leases.py and `LeaseTimers` of
-- pyroute2/dhcp/timers.py. Times are whole numbers of some unit, addresses are numbers. The
-- products with `random.uniform` are parameters.
use pyroute.Prelude.{
  ℕ, zero, suc, ◌+◌, ◌-◌, Bool, true, false, Option, some, none, leb, if◌then◌else◌,
}

pub data ℤ : Type 0 where
  pos negsuc : ℕ → ℤ

-- `a - b`.
abbrev pub sub : ℕ → ℕ → ℤ
sub a b = if leb b a then pos (a - b) else negsuc (b - a - 1)

pub record Lease : Type 0 where
  pub ip : ℕ
  pub server_mac : ℕ
  pub obtained : ℕ
  -- The options of the ack.
  pub server_id : Option ℕ
  pub lease_time : ℤ
  pub renewal_time : Option ℤ
  pub rebinding_time : Option ℤ

-- `_seconds_til_timer`: -1 stands for no end.
unfoldable pub seconds_til_timer : Lease → ℕ → ℤ → Option ℤ
seconds_til_timer lease now (pos v) = some (sub (lease.obtained + v) now)
seconds_til_timer lease now (negsuc zero) = none
seconds_til_timer lease now (negsuc (suc v)) = some (sub lease.obtained (now + suc (suc v)))

unfoldable pub expiration_in : Lease → ℕ → Option ℤ
expiration_in lease now = seconds_til_timer lease now lease.lease_time

abbrev pub expired_at : Option ℤ → Bool
expired_at none = false
expired_at (some (pos zero)) = true
expired_at (some (pos (suc n))) = false
expired_at (some (negsuc n)) = true

unfoldable pub expired : Lease → ℕ → Bool
expired lease now = expired_at (expiration_in lease now)

-- `if self.expiration_in: return self.expiration_in * random.uniform(…)`
abbrev pub part_of : (ℤ → ℤ) → Option ℤ → Option ℤ
part_of fuzzy none = none
part_of fuzzy (some (pos zero)) = none
part_of fuzzy (some (pos (suc n))) = some (fuzzy (pos (suc n)))
part_of fuzzy (some (negsuc n)) = some (fuzzy (negsuc n))

abbrev pub option_in : Lease → ℕ → (ℤ → ℤ) → Option ℤ → Option ℤ
option_in lease now fuzzy (some v) = seconds_til_timer lease now v
option_in lease now fuzzy none = part_of fuzzy (expiration_in lease now)

-- The timers, each with the delay it was scheduled with.
pub record LeaseTimers : Type 0 where
  pub renewal : Option ℕ
  pub rebinding : Option ℕ
  pub expiration : Option ℕ

abbrev pub no_timers : LeaseTimers
no_timers = record { renewal = none; rebinding = none; expiration = none }

-- `LeaseTimers.cancel`.
unfoldable pub cancel : LeaseTimers → LeaseTimers
cancel t = no_timers

-- One round of `arm`: neither a time that is None or 0 nor one in the past is scheduled.
unfoldable pub schedule : Option ℤ → Option ℕ
schedule none = none
schedule (some (pos zero)) = none
schedule (some (pos (suc n))) = some (suc n)
schedule (some (negsuc n)) = none

module _ (fuzzy_half fuzzy_most : ℤ → ℤ) where
  unfoldable pub renewal_in : Lease → ℕ → Option ℤ
  renewal_in lease now = option_in lease now fuzzy_half lease.renewal_time

  unfoldable pub rebinding_in : Lease → ℕ → Option ℤ
  rebinding_in lease now = option_in lease now fuzzy_most lease.rebinding_time

  -- `LeaseTimers.arm` with the three callbacks.
  unfoldable pub arm : Lease → ℕ → LeaseTimers → LeaseTimers
  arm lease now t = record (cancel t) {
    renewal = schedule (renewal_in lease now);
    rebinding = schedule (rebinding_in lease now);
    expiration = schedule (expiration_in lease now);
  }
