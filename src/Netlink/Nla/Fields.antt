-- ===== src/Netlink/Nla/Fields.antt =====
-- The fixed fields of a message.
use pyroute.Prelude.{
  ℕ, ◌+◌, ◌≡◌, refl, sym, ap, ◌∙◌, subst, some, List, [], ◌∷◌, ◌++◌, length, length-append, arith,
}
use pyroute.Prelude.Bytes.{At, At-left, At-right}
use pyroute.Netlink.Nla.{Format, pack, pack_fields, unpack_fields, size_of}
use pyroute.Netlink.Nla.Monad.{◌>>=◌, >>=-eq-some}
use pyroute.Netlink.Nla.Words.{length-pack, unpack-pack}

-- The values of all fields, those left out being 0.
unfoldable pub filled : List Format → List ℕ → List ℕ
filled [] vs = []
filled (f ∷ fs) [] = 0 ∷ filled fs []
filled (f ∷ fs) (v ∷ vs) = v ∷ filled fs vs

record Packed (f : Format) (v : ℕ) (fs : List Format) (vs bs : List ℕ) : Type 0 where
  first : List ℕ
  later : List ℕ
  pack_first : pack f v ≡ some first
  pack_later : pack_fields fs vs ≡ some later
  whole : bs ≡ first ++ later

split_pack :
    (f : Format) (v : ℕ) (fs : List Format) (vs : List ℕ) {bs : List ℕ}
    → (pack f v >>= λ b. pack_fields fs vs >>= λ r. some (b ++ r)) ≡ some bs
    → Packed f v fs vs bs
split_pack f v fs vs {bs} h =
    let (b, p, k) = >>=-eq-some (pack f v) _ h in
    let (r, q, e) = >>=-eq-some (pack_fields fs vs) (λ r. some (b ++ r)) k in
    record { first = b; later = r; pack_first = p; pack_later = q; whole = cc e }

length-Packed :
    (f : Format) (v : ℕ) (fs : List Format) (vs : List ℕ) {bs : List ℕ} (p : Packed f v fs vs bs)
    → length p.later ≡ size_of fs
    → length bs ≡ f.width + size_of fs
length-Packed f v fs vs p e =
    ap length p.whole
    ∙ length-append p.first p.later
    ∙ omega (arith, e, length-pack f v p.pack_first)

pub length-pack_fields :
    (fs : List Format) (vs : List ℕ) {bs : List ℕ}
    → pack_fields fs vs ≡ some bs
    → length bs ≡ size_of fs
unfolding pack_fields size_of
length-pack_fields [] vs h = let e : [] ≡ _ = cc h in ap length (sym e)
length-pack_fields (f ∷ fs) [] h =
    let p = split_pack f 0 fs [] h in
    length-Packed f 0 fs [] p (length-pack_fields fs [] p.pack_later)
length-pack_fields (f ∷ fs) (v ∷ vs) h =
    let p = split_pack f v fs vs h in
    length-Packed f v fs vs p (length-pack_fields fs vs p.pack_later)

read-Packed :
    (f : Format) (v : ℕ) (fs : List Format) (vs bs : List ℕ) (data' : List ℕ) (off : ℕ)
    (p : Packed f v fs vs bs)
    → At data' off bs
    → (At data' (off + f.width) p.later
        → unpack_fields fs data' (off + f.width) ≡ some (filled fs vs))
    → unpack_fields (f ∷ fs) data' off ≡ some (v ∷ filled fs vs)
unfolding unpack_fields
read-Packed f v fs vs bs data' off p a next =
    let a' : At data' off (p.first ++ p.later) = subst (At data' off) p.whole a in
    let tail : At data' (off + f.width) p.later =
      subst (λ n. At data' (off + n) p.later) (length-pack f v p.pack_first)
        (At-right data' off p.first p.later a') in
    rw (unpack-pack f v p.first data' off p.pack_first (At-left p.first p.later a'), next tail)

-- The fields that are read are those that were written, the ones left out as 0.
pub unpack_fields-pack_fields :
    (fs : List Format) (vs bs : List ℕ) (data' : List ℕ) (off : ℕ)
    → pack_fields fs vs ≡ some bs
    → At data' off bs
    → unpack_fields fs data' off ≡ some (filled fs vs)
unfolding pack_fields filled
unpack_fields-pack_fields [] vs bs data' off h a = unfold unpack_fields in refl
unpack_fields-pack_fields (f ∷ fs) [] bs data' off h a =
    let p = split_pack f 0 fs [] h in
    read-Packed f 0 fs [] bs data' off p a
      (unpack_fields-pack_fields fs [] p.later data' (off + f.width) p.pack_later)
unpack_fields-pack_fields (f ∷ fs) (v ∷ vs) bs data' off h a =
    let p = split_pack f v fs vs h in
    read-Packed f v fs vs bs data' off p a
      (unpack_fields-pack_fields fs vs p.later data' (off + f.width) p.pack_later)
