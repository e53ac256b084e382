-- ===== src/Plan9/Reader.antt =====
-- Decoding at an offset: `decode_from(data, offset)` returns a value and the offset behind it, or
-- raises: none.
use pyroute.Prelude.{
  ℕ, ◌+◌, ◌≡◌, refl, sym, ap, ◌∙◌, Option, none, some, List, [], ◌++◌, length, length-append, take,
  drop, take_length-append, arith,
}
use pyroute.Prelude.Bytes.{At, At-left, At-right, bytes_at, bytes_at-At}
use pyroute.Netlink.Nla.{Format, pack_fields, unpack_fields, size_of}
use pyroute.Netlink.Nla.Fields.{filled, unpack_fields-pack_fields, length-pack_fields}

abbrev pub Reader : Type 0 → Type 0
Reader A = List ℕ → ℕ → Option (A × ℕ)

module _ {A : Type 0} where
  abbrev pub pure : A → Reader A
  pure a buf off = some (a, off)

  abbrev pub lift : Option A → Reader A
  lift none buf off = none
  lift (some a) buf off = some (a, off)

infixl 5 ◌>>=◌ ◌>>◌
abbrev pub ◌>>=◌ : {A B : Type 0} → Reader A → (A → Reader B) → Reader B
◌>>=◌ r f buf off = elim (r buf off) [ none ↦ none | some (a, off') ↦ f a buf off' ]

abbrev pub ◌>>◌ : {A B : Type 0} → Reader A → Reader B → Reader B
r >> s = r >>= λ _. s

abbrev pub at_end : ℕ → Option (List ℕ) → Option (List ℕ × ℕ)
at_end off none = none
at_end off (some vs) = some (vs, off)

-- `struct.unpack_from` of integers.
unfoldable pub read_fields : List Format → Reader (List ℕ)
read_fields fs buf off = at_end (off + size_of fs) (unpack_fields fs buf off)

-- `struct.unpack_from` of `{n}s`.
unfoldable pub read_bytes : ℕ → Reader (List ℕ)
read_bytes n buf off = at_end (off + n) (bytes_at n buf off)

-- The slice `data[offset : offset + n]`, short at the end of the buffer.
unfoldable pub read_slice : ℕ → Reader (List ℕ)
read_slice n buf off = some (take n (drop off buf), off + n)

-- The bytes `bs` are read as `a`, wherever they stand.
abbrev pub Reads : {A : Type 0} → Reader A → List ℕ → A → Type 0
Reads r bs a = (buf : List ℕ) (off : ℕ) → At buf off bs → r buf off ≡ some (a, off + length bs)

pub Reads-bind :
    {A B : Type 0} (r : Reader A) (f : A → Reader B) (xs ys : List ℕ) (a : A) (b : B)
    → Reads r xs a
    → Reads (f a) ys b
    → Reads (r >>= f) (xs ++ ys) b
Reads-bind r f xs ys a b first next buf off at =
    rw (first buf off (At-left xs ys at), ◌>>=◌)
      (next buf (off + length xs) (At-right buf off xs ys at)
        ∙ ap (λ n. some (b, n)) (omega (arith, length-append xs ys)))

pub Reads-pure : {A : Type 0} (a : A) → Reads (pure a) [] a
Reads-pure a buf off at = ap (λ n. some (a, n)) (omega arith)

pub Reads-map :
    {A B : Type 0} (r : Reader A) (f : A → B) (xs : List ℕ) (a : A)
    → Reads r xs a
    → Reads (r >>= λ x. pure (f x)) xs (f a)
Reads-map r f xs a first buf off at = rw (first buf off at, ◌>>=◌) refl

pub Reads-read_fields :
    (fs : List Format) (vs bs : List ℕ)
    → pack_fields fs vs ≡ some bs
    → Reads (read_fields fs) bs (filled fs vs)
unfolding read_fields
Reads-read_fields fs vs bs h buf off at =
    rw (unpack_fields-pack_fields fs vs bs buf off h at)
      (ap (λ n. some (filled fs vs, off + n)) (sym (length-pack_fields fs vs h)))

pub Reads-read_bytes : (bs : List ℕ) → Reads (read_bytes (length bs)) bs bs
unfolding read_bytes
Reads-read_bytes bs buf off at = rw (bytes_at-At buf off bs at) refl

pub Reads-read_slice : (bs : List ℕ) → Reads (read_slice (length bs)) bs bs
unfolding read_slice
Reads-read_slice bs buf off at = rw (at.there, take_length-append bs at.behind) refl

pub Reads-lift :
    {A B : Type 0} (r : Reader A) (f : A → Option B) (xs : List ℕ) (a : A) (b : B)
    → Reads r xs a
    → f a ≡ some b
    → Reads (r >>= λ x. lift (f x)) xs b
Reads-lift r f xs a b first e buf off at = rw (first buf off at, ◌>>=◌, e) refl
