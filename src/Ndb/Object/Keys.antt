-- ===== src/Ndb/Object/Keys.antt =====
-- Names of fields, and sets of them.
use Prim.Native.String.{String}
use text.Mathlib.Text.{◌==◌ as str_eq}
use text.Mathlib.TextEquality.{eq_iff}
use pyroute.Prelude.{◌≡◌, refl, true, not, ◌&&◌, List, [], ◌∷◌, Bool-cases, inl, inr, arith}
use pyroute.Requests.Processor.{member}
use pyroute.Ndb.Object.{has, discard}

pub str_eq_refl : (k : String) → str_eq k k ≡ true
str_eq_refl k = (eq_iff k k).1 refl

-- What is apart from one of two equal names is apart from the other.
pub has-discard :
    (n k : String) (ks : List String) → has n (discard k ks) ≡ (not (str_eq k n) && has n ks)
unfolding member discard
has-discard n k [] = elim (Bool-cases (str_eq k n)) [ inl y ↦ rw y refl | inr m ↦ rw m refl ]
has-discard n k (a ∷ ks) = ground (arith, eq_iff a k, eq_iff a n, eq_iff k n, has-discard n k ks)
