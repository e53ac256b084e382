-- ===== src/Dhcp/Options/RoundTrip.antt =====
-- `decode` reads the options that `encode` wrote.
use pyroute.Prelude.{
  ℕ, zero, suc, ◌+◌, ◌≤◌, ◌<◌, ◌≡◌, refl, sym, ap, ◌∙◌, subst, false, none, some, List, [], ◌∷◌,
  ◌++◌, append_assoc, append-nil, length, length-append, take, drop, take_length-append, get_elem?,
  ltb, ◌==◌, ==_refl, Bool-cases, inl, inr, arith,
}
use pyroute.Prelude.{All, true}
use pyroute.Plan9.Utf8.{IsAscii, decode_text, encode_text-ascii, decode_text-ascii}
use pyroute.Prelude.Bytes.{At, At-right}
use pyroute.Netlink.Nla.Monad.{◌>>=◌, >>=-eq-some}
use pyroute.Netlink.Nla.Words.{length-pack, unpack-pack}
use pyroute.Dhcp.Options.{
  Value, int_value, text_value, bytes_value, OptionFormat, integer, string, array8, are_bytes,
  to_bytes, cut_text, rstrip, big, pad, end, option_data, with_length, encode_option,
  encode_options, option_value, advance, collect, decode_option, round_at, decode_options,
}

-- Codes that are neither the padding nor the end mark.
abbrev pub AreCodes : List (ℕ × Value) → Type 0
AreCodes [] = Unit
AreCodes ((code, v) ∷ options) =
    ((code == pad) ≡ false) × ((code == end) ≡ false) × AreCodes options

At-get :
    (data' : List ℕ) (off x : ℕ) (xs : List ℕ)
    → At data' off (x ∷ xs)
    → get_elem? data' off ≡ some x
At-get data' off x xs a = from_drop data' off x (xs ++ a.behind) a.there
  where
    from_drop : (d : List ℕ) (o x : ℕ) (ys : List ℕ) → drop o d ≡ x ∷ ys → get_elem? d o ≡ some x
    from_drop [] zero x ys e = cc
    from_drop [] (suc o) x ys e = cc
    from_drop (y ∷ d) zero x ys e = cc
    from_drop (y ∷ d) (suc o) x ys e = from_drop d o x ys e

-- What is read back: numbers, lists for `array8`, ASCII without NULs at the end for `string`, and lists that
-- are no text.
abbrev pub IsRead : OptionFormat → Value → Type 0
IsRead string (int_value v) = Unit
IsRead string (text_value cs) = All IsAscii cs × (rstrip cs ≡ cs)
IsRead string (bytes_value bs) = decode_text bs ≡ none
IsRead (integer w) v = Unit
IsRead array8 v = Unit

abbrev pub AreRead : (ℕ → OptionFormat) → List (ℕ × Value) → Type 0
AreRead format [] = Unit
AreRead format ((code, v) ∷ options) = IsRead (format code) v × AreRead format options

to_bytes-same : (b bs : List ℕ) → to_bytes b ≡ some bs → b ≡ bs
to_bytes-same b bs h = elim (Bool-cases (are_bytes b)) [
  | inl y ↦ let k : some b ≡ some bs = rw y at h in cc
  | inr n ↦ let k : none ≡ some bs = rw n at h in cc
]

cut_text-same : (cs bs : List ℕ) → All IsAscii cs → cut_text cs ≡ some bs → cs ≡ bs
cut_text-same cs bs a h =
    let whole : take (length cs) cs ≡ cs =
      ap (take (length cs)) (sym (append-nil cs)) ∙ take_length-append cs [] in
    let k : some (take (length cs) cs) ≡ some bs = rw (encode_text-ascii cs a) at h in
    sym whole ∙ cc

option_value-data :
    (f : OptionFormat) (v : Value) (bs : List ℕ)
    → IsRead f v
    → option_data f v ≡ some bs
    → option_value f (length bs) bs ≡ some v
unfolding option_data option_value
option_value-data (integer w) (int_value v) bs r h =
    let sized : length bs ≡ w = length-pack (big w) v h in
    let whole : At bs 0 bs = record {
      behind = [];
      inside = omega arith;
      there = sym (append-nil bs);
    } in
    rw (sized, ==_refl w, unpack-pack (big w) v bs bs 0 h whole) refl
option_value-data (integer w) (text_value cs) bs r h = cc
option_value-data (integer w) (bytes_value b) bs r h = cc
option_value-data string (int_value v) bs r h = cc
option_value-data string (text_value cs) bs (a, stripped) h =
    let same = cut_text-same cs bs a h in
    rw (==_refl (length bs), sym same, decode_text-ascii cs a, stripped) refl
option_value-data string (bytes_value b) bs r h =
    let same = to_bytes-same b bs h in rw (==_refl (length bs), sym same, r) refl
option_value-data array8 (int_value v) bs r h = cc
option_value-data array8 (text_value cs) bs r h = cc
option_value-data array8 (bytes_value b) bs r h =
    let same = to_bytes-same b bs h in rw (==_refl (length bs), same) refl

with_length-bytes :
    (code : ℕ) (d b : List ℕ) → with_length code d ≡ some b → b ≡ code ∷ length d ∷ d
unfolding with_length
with_length-bytes code d b h = elim (Bool-cases (ltb (length d) 256)) [
  | inl y ↦ let k : some (code ∷ length d ∷ d) ≡ some b = rw y at h in cc
  | inr n ↦ let k : none ≡ some b = rw n at h in cc
]

-- The bytes of an encoded option.
encode_option-data :
    (code : ℕ) (f : OptionFormat) (v : Value) (b : List ℕ)
    → (code == pad) ≡ false
    → (code == end) ≡ false
    → encode_option code f v ≡ some b
    → (d : List ℕ) × (option_data f v ≡ some d) × (b ≡ code ∷ length d ∷ d)
unfolding encode_option
encode_option-data code f v b p e h =
    let fits : ltb code 256 ≡ true = elim (Bool-cases (ltb code 256)) [
      | inl y ↦ y
      | inr n ↦ absurd (let k : none ≡ some b = rw n at h in cc)
    ] in
    let made : (option_data f v >>= (λ data'. with_length code data')) ≡ some b =
      rw (fits, p, e) at h in
    let (d, o, w) = >>=-eq-some (option_data f v) (λ data'. with_length code data') made in
    (d, o, with_length-bytes code d b w)

-- The padding is passed over; so is the length of an option with no data.
skip_pad :
    (fuel : ℕ) (format : ℕ → OptionFormat) (data' : List ℕ) (off : ℕ)
    → get_elem? data' off ≡ some 0
    → decode_options (suc fuel) format data' off ≡ decode_options fuel format data' (off + 1)
unfolding decode_options round_at
skip_pad fuel format data' off h = rw h refl

-- The loop goes on behind the data, for an empty option in two rounds.
goes_behind :
    (fuel n : ℕ) (format : ℕ → OptionFormat) (data' : List ℕ) (off : ℕ) (options : List (ℕ × Value))
    → get_elem? data' (off + 1) ≡ some n
    → 0 < fuel
    → ((k : ℕ) → fuel ≤ k + 1 → decode_options k format data' (off + 2 + n) ≡ options)
    → decode_options fuel format data' (off + advance n) ≡ options
goes_behind zero n format data' off options h l k = absurd (omega arith)
goes_behind (suc fuel) zero format data' off options h l k =
    skip_pad fuel format data' (off + 1) h
    ∙ ap (decode_options fuel format data') (omega arith)
    ∙ k fuel (omega arith)
goes_behind (suc fuel) (suc n) format data' off options h l k =
    ap (decode_options (suc fuel) format data') (omega arith) ∙ k (suc fuel) (omega arith)

decode_first :
    (fuel : ℕ) (format : ℕ → OptionFormat) (data' : List ℕ) (off code : ℕ) (v : Value)
    (d rest : List ℕ) (options : List (ℕ × Value))
    → (code == pad) ≡ false
    → (code == end) ≡ false
    → IsRead (format code) v
    → option_data (format code) v ≡ some d
    → At data' off (code ∷ length d ∷ (d ++ rest))
    → decode_options fuel format data' (off + advance (length d)) ≡ options
    → decode_options (suc fuel) format data' off ≡ (code, v) ∷ options
unfolding decode_options round_at decode_option collect
decode_first fuel format data' off code v d rest options p e r o a h =
    let second : At data' (off + 1) (length d ∷ (d ++ rest)) =
      At-right data' off (code ∷ []) (length d ∷ (d ++ rest)) a in
    let third : At data' (off + 2) (d ++ rest) =
      subst (λ n. At data' n (d ++ rest)) (omega arith)
        (At-right data' (off + 1) (length d ∷ []) (d ++ rest) second) in
    let slice : take (length d) (drop (off + 2) data') ≡ d =
      ap (take (length d)) (third.there ∙ append_assoc d rest third.behind)
      ∙ take_length-append d (rest ++ third.behind) in
    rw
      (
        At-get data' off code _ a,
        p,
        e,
        At-get data' (off + 1) (length d) _ second,
        slice,
        option_value-data (format code) v d r o,
        h,
      )
      refl

end_ends :
    (fuel : ℕ) (format : ℕ → OptionFormat) (data' : List ℕ) (off : ℕ)
    → get_elem? data' off ≡ some end
    → decode_options (suc fuel) format data' off ≡ []
unfolding decode_options round_at
end_ends fuel format data' off h = rw h refl

decode_from :
    (fuel : ℕ) (format : ℕ → OptionFormat) (options : List (ℕ × Value)) (bs data' : List ℕ)
    (off : ℕ)
    → AreCodes options
    → AreRead format options
    → encode_options format options ≡ some bs
    → At data' off bs
    → length bs < fuel
    → decode_options fuel format data' off ≡ options
unfolding encode_options
decode_from zero format options bs data' off c r h a l = absurd (omega arith)
decode_from (suc fuel) format [] bs data' off c r h a l =
    let mark : bs ≡ end ∷ [] = cc in
    end_ends fuel format data' off (At-get data' off end [] (subst (At data' off) mark a))
decode_from (suc fuel) format ((code, v) ∷ options) bs data' off (p, e, c) (r, rs) h a l =
    let (b, made, then_rest) = >>=-eq-some (encode_option code (format code) v) _ h in
    let (rest, others, whole) =
      >>=-eq-some (encode_options format options) (λ rest. some (b ++ rest)) then_rest in
    let (d, o, shape) = encode_option-data code (format code) v b p e made in
    let all : bs ≡ code ∷ length d ∷ (d ++ rest) = sym (cc (whole, shape)) in
    let there : At data' off (code ∷ length d ∷ (d ++ rest)) = subst (At data' off) all a in
    let second : At data' (off + 1) (length d ∷ (d ++ rest)) =
      At-right data' off (code ∷ []) (length d ∷ (d ++ rest)) there in
    let behind : At data' (off + 2 + length d) rest =
      subst (λ n. At data' n rest) (omega arith)
        (At-right data' (off + 1) (length d ∷ d) rest second) in
    let sizes : length bs ≡ 2 + length d + length rest =
      ap length all ∙ omega (arith, length-append d rest) in
    decode_first fuel format data' off code v d rest options p e r o there (
      goes_behind fuel (length d) format data' off options
        (At-get data' (off + 1) (length d) _ second) (omega (arith, sizes))
        (λ k m.
          decode_from k format options rest data' (off + 2 + length d) c rs others behind
            (omega (arith, sizes, m))))

-- The options that `encode` writes are read back by `decode`, in order and with their values, from any
-- buffer that has their bytes at an offset: options with no data among them. Their codes are not those
-- of the padding and the end mark; a text for `string` is ASCII with no NUL at its end, and a list of bytes
-- for it is no UTF-8.
pub decode_options-encode_options :
    (format : ℕ → OptionFormat) (options : List (ℕ × Value)) (bs data' : List ℕ) (off : ℕ)
    → AreCodes options
    → AreRead format options
    → encode_options format options ≡ some bs
    → At data' off bs
    → decode_options (suc (length bs)) format data' off ≡ options
decode_options-encode_options format options bs data' off c r h a =
    decode_from (suc (length bs)) format options bs data' off c r h a (omega arith)
