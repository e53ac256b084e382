-- ===== src/Prelude/Bytes.antt =====
-- Buffers as lists of bytes: `struct.pack` and `struct.unpack_from` of unsigned integers, on a
-- little-endian host, and what stands at an offset of a buffer.
use Prim.Native.Nat.{ℕ, zero, suc, ◌+◌, ◌*◌, ◌/◌, ◌%◌, ◌^◌, ◌≤◌, ◌<◌}
use mathlib.Core.Path.{◌≡◌, refl, sym, ap, ◌∙◌}
use mathlib.Core.Bool.{true}
use mathlib.Core.List.{List, [], ◌∷◌, ◌++◌, reverse, append_assoc, reverse-append, reverse-reverse}
use mathlib.Core.Option.{Option, none, some}
use native.Mathlib.Omega.{arith}
use native.Mathlib.Nat.{zero-add, pow-succ'}
use pyroute.Prelude.Tests.{leb, le→leb, if◌then◌else◌}
use pyroute.Prelude.Lists.{
  length, take, drop, length-append, take_length-append, drop_length-append, length-drop,
}

-- The `w` bytes of `v`, lowest first: `struct.pack('<H', v)` at 2, `'<I'` at 4, `'<Q'` at 8.
abbrev pub le_bytes : ℕ → ℕ → List ℕ
le_bytes zero v = []
le_bytes (suc w) v = (v % 256) ∷ le_bytes w (v / 256)

abbrev pub le_value : List ℕ → ℕ
le_value [] = 0
le_value (b ∷ bs) = b + 256 * le_value bs

pub length-le_bytes : (w v : ℕ) → length (le_bytes w v) ≡ w
length-le_bytes zero v = refl
length-le_bytes (suc w) v = ap suc (length-le_bytes w (v / 256))

pub le_value-le_bytes : (w v : ℕ) → v < 256 ^ w → le_value (le_bytes w v) ≡ v
le_value-le_bytes zero v h = omega arith
le_value-le_bytes (suc w) v h =
    omega (arith, le_value-le_bytes w (v / 256) (omega (arith, pow-succ' 256 w)))

-- Highest first, as in network byte order.
unfoldable pub be_bytes : ℕ → ℕ → List ℕ
be_bytes w v = reverse (le_bytes w v)

unfoldable pub be_value : List ℕ → ℕ
be_value bs = le_value (reverse bs)

length-reverse {ℓ} : {A : Type ℓ} (xs : List A) → length (reverse xs) ≡ length xs
length-reverse [] = refl
length-reverse (x ∷ xs) =
    ap length (reverse-append (x ∷ []) xs)
    ∙ length-append (reverse xs) (x ∷ [])
    ∙ omega (arith, length-reverse xs)

pub length-be_bytes : (w v : ℕ) → length (be_bytes w v) ≡ w
unfolding be_bytes
length-be_bytes w v = length-reverse (le_bytes w v) ∙ length-le_bytes w v

pub be_value-be_bytes : (w v : ℕ) → v < 256 ^ w → be_value (be_bytes w v) ≡ v
unfolding be_value be_bytes
be_value-be_bytes w v h = rw reverse-reverse (le_value-le_bytes w v h)

-- `data[offset : offset + w]` if it is all there, else struct.error.
unfoldable pub bytes_at : ℕ → List ℕ → ℕ → Option (List ℕ)
bytes_at w bs off = if leb (off + w) (length bs) then some (take w (drop off bs)) else none

-- The bytes `xs` stand at `off` in `bs`.
pub record At (bs : List ℕ) (off : ℕ) (xs : List ℕ) : Type 0 where
  pub behind : List ℕ
  pub inside : off ≤ length bs
  pub there : drop off bs ≡ xs ++ behind

pub At-left : {bs : List ℕ} {off : ℕ} (xs ys : List ℕ) → At bs off (xs ++ ys) → At bs off xs
At-left xs ys a = record {
  behind = ys ++ a.behind;
  inside = a.inside;
  there = a.there ∙ append_assoc xs ys a.behind;
}

drop-nil {ℓ} : {A : Type ℓ} (n : ℕ) → drop {A = A} n [] ≡ []
drop-nil zero = refl
drop-nil (suc n) = refl

suc-add : (n m : ℕ) → suc n + m ≡ suc (n + m)
suc-add n m = omega arith

drop-add {ℓ} : {A : Type ℓ} (n m : ℕ) (xs : List A) → drop (n + m) xs ≡ drop m (drop n xs)
drop-add zero m xs = ap (λ k. drop k xs) (zero-add m)
drop-add (suc n) m [] = ap (λ k. drop k []) (suc-add n m) ∙ sym (drop-nil m)
drop-add (suc n) m (x ∷ xs) = ap (λ k. drop k (x ∷ xs)) (suc-add n m) ∙ drop-add n m xs

pub At-right :
    (bs : List ℕ) (off : ℕ) (xs ys : List ℕ) → At bs off (xs ++ ys) → At bs (off + length xs) ys
At-right bs off xs ys a = record {
  behind = a.behind;
  inside = omega (
    arith,
    length-drop off bs,
    ap length a.there,
    length-append (xs ++ ys) a.behind,
    length-append xs ys,
    a.inside,
  );
  there =
      drop-add off (length xs) bs
      ∙ ap (drop (length xs)) (a.there ∙ append_assoc xs ys a.behind)
      ∙ drop_length-append xs (ys ++ a.behind);
}

pub bytes_at-At :
    (bs : List ℕ) (off : ℕ) (xs : List ℕ) → At bs off xs → bytes_at (length xs) bs off ≡ some xs
unfolding bytes_at
bytes_at-At bs off xs a =
    let fits : leb (off + length xs) (length bs) ≡ true =
      le→leb _ _ (
        omega
          (arith, length-drop off bs, ap length a.there, length-append xs a.behind, a.inside)) in
    rw (fits, a.there, take_length-append xs a.behind)
