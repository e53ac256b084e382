-- ===== src/Plan9/Utf8.antt =====
-- Text of Python: a list of code points, with `str.encode('utf-8')` and `bytes.decode('utf-8')`.
use pyroute.Prelude.{
  ℕ, zero, suc, ◌+◌, ◌-◌, ◌*◌, ◌/◌, ◌%◌, ◌<◌, ◌≤◌, ◌≡◌, refl, sym, ◌∙◌, ◌≢◌, ap, Bool, false, ◌&&◌,
  ◌||◌, Option, none, some, List, [], ◌∷◌, ◌++◌, length, ltb, leb, if◌then◌else◌, All, arith,
  Bool-cases, Option-cases, length-append, inl, inr, ltb→lt,
}

-- UnicodeEncodeError for what is no scalar value.
unfoldable pub is_scalar : ℕ → Bool
is_scalar c = ltb c 0xD800 || (leb 0xE000 c && ltb c 0x110000)

unfoldable pub encode_char : ℕ → List ℕ
encode_char c =
    if ltb c 0x80
    then c ∷ []
    else if ltb c 0x800
    then (0xC0 + c / 64) ∷ (0x80 + c % 64) ∷ []
    else if ltb c 0x10000
    then (0xE0 + c / 4096) ∷ (0x80 + c / 64 % 64) ∷ (0x80 + c % 64) ∷ []
    else (0xF0 + c / 262144) ∷ (0x80 + c / 4096 % 64) ∷ (0x80 + c / 64 % 64) ∷ (0x80 + c % 64) ∷ []

abbrev pub add_char : ℕ → Option (List ℕ) → Option (List ℕ)
add_char c none = none
add_char c (some bs) = if is_scalar c then some (encode_char c ++ bs) else none

unfoldable pub encode_text : List ℕ → Option (List ℕ)
unfolding is_scalar encode_char
encode_text [] = some []
encode_text (c ∷ cs) = add_char c (encode_text cs)

abbrev pub cons_char : ℕ → Option (List ℕ) → Option (List ℕ)
cons_char c none = none
cons_char c (some cs) = some (c ∷ cs)

-- What the first byte of a character starts: a whole character, or a number of bytes to come, the
-- bits so far and the least code point that needs so many bytes.
pub data Lead : Type 0 where
  whole : ℕ → Lead
  more : ℕ → ℕ → ℕ → Lead
  bad : Lead

unfoldable pub lead : ℕ → Lead
lead b =
    if ltb b 0x80
    then whole b
    else if ltb b 0xC2
    then bad
    else if ltb b 0xE0
    then more 0 (b - 0xC0) 0x80
    else if ltb b 0xF0
    then more 1 (b - 0xE0) 0x800
    else if ltb b 0xF5
    then more 2 (b - 0xF0) 0x10000
    else bad

abbrev pub is_continuation : ℕ → Bool
is_continuation b = leb 0x80 b && ltb b 0xC0

-- At the start of a character, or with `suc n` bytes of one to come; none is UnicodeDecodeError.
mutual
  unfolding is_scalar

  pub decode_text : List ℕ → Option (List ℕ)
  decode_text [] = some []
  decode_text (b ∷ bs) = elim (lead b) [
    | whole c ↦ cons_char c (decode_text bs)
    | more n bits least ↦ decode_rest n bits least bs
    | bad ↦ none
  ]

  pub decode_rest : ℕ → ℕ → ℕ → List ℕ → Option (List ℕ)
  decode_rest n bits least [] = none
  decode_rest zero bits least (b ∷ bs) =
      let rest = decode_text bs in
      let c = bits * 64 + (b - 0x80) in
      if is_continuation b && leb least c && is_scalar c then cons_char c rest else none
  decode_rest (suc n) bits least (b ∷ bs) =
      let rest = decode_rest n (bits * 64 + (b - 0x80)) least bs in
      if is_continuation b then rest else none

abbrev pub IsAscii : ℕ → Type 0
IsAscii c = c < 128

pub encode_text-ascii : (cs : List ℕ) → All IsAscii cs → encode_text cs ≡ some cs
unfolding encode_text is_scalar encode_char
encode_text-ascii [] h = refl
encode_text-ascii (c ∷ cs) (a, h) = ground (arith, encode_text-ascii cs h)

pub decode_text-ascii : (cs : List ℕ) → All IsAscii cs → decode_text cs ≡ some cs
unfolding decode_text lead
decode_text-ascii [] h = refl
decode_text-ascii (c ∷ cs) (a, h) = ground (arith, decode_text-ascii cs h)

cons_char-some :
    (c : ℕ) (o : Option (List ℕ)) (cs : List ℕ)
    → cons_char c o ≡ some cs
    → (t : List ℕ) × (o ≡ some t) × (cs ≡ c ∷ t)
cons_char-some c none cs h = cc
cons_char-some c (some t) cs h = (t, refl, ground arith)

-- The cases of a first byte.
data LeadOf (b : ℕ) : Type 0 where
  ascii : b < 128 → lead b ≡ whole b → LeadOf b
  first : (n bits least : ℕ) → lead b ≡ more n bits least → LeadOf b
  wrong : lead b ≡ bad → LeadOf b

lead_cases : (b : ℕ) → LeadOf b
lead_cases b = elim (Bool-cases (ltb b 0x80)) [
  | inl y ↦ ascii (ltb→lt _ _ y) (unfold lead in rw y refl)
  | inr m ↦ not_ascii (lead b) refl m
]
  where
    not_ascii : (l : Lead) → lead b ≡ l → ltb b 0x80 ≡ false → LeadOf b
    not_ascii (whole c) e m = absurd (unfold lead in ground arith)
    not_ascii (more n bits least) e m = first n bits least e
    not_ascii bad e m = wrong e

decode_text-whole :
    (b : ℕ) (bs : List ℕ) → lead b ≡ whole b → decode_text (b ∷ bs) ≡ cons_char b (decode_text bs)
unfolding decode_text
decode_text-whole b bs e = rw (decode_text, e) refl

decode_text-first :
    (b n bits least : ℕ) (bs : List ℕ)
    → lead b ≡ more n bits least
    → decode_text (b ∷ bs) ≡ decode_rest n bits least bs
unfolding decode_text decode_rest
decode_text-first b n bits least bs e = rw (decode_text, e) refl

no_text : (b : ℕ) (bs cs : List ℕ) → lead b ≡ bad → decode_text (b ∷ bs) ≢ some cs
unfolding decode_text
no_text b bs cs e h = let none_of : decode_text (b ∷ bs) ≡ none = rw (decode_text, e) refl in cc

-- A character takes a byte at least, and one more for each byte after its first.
mutual
  unfolding decode_text decode_rest is_scalar

  decode_text-length : (bs cs : List ℕ) → decode_text bs ≡ some cs → length cs ≤ length bs
  decode_text-length [] cs h = ground arith
  decode_text-length (b ∷ bs) cs h = elim (lead_cases b) [
    | ascii lt e ↦
        let (t, got, split) =
          cons_char-some b (decode_text bs) cs (sym (decode_text-whole b bs e) ∙ h) in
        omega (arith, ap length split, decode_text-length bs t got)
    | first n bits least e ↦ omega (
      arith,
      decode_rest-length n bits least bs cs (sym (decode_text-first b n bits least bs e) ∙ h),
    )
    | wrong e ↦ absurd (no_text b bs cs e h)
  ]

  decode_rest-length :
      (n bits least : ℕ) (bs cs : List ℕ)
      → decode_rest n bits least bs ≡ some cs
      → length cs + n ≤ length bs
  decode_rest-length zero bits least [] cs h = cc
  decode_rest-length (suc n) bits least [] cs h = cc
  decode_rest-length zero bits least (b ∷ bs) cs h =
      let c = bits * 64 + (b - 0x80) in
      elim (Bool-cases (is_continuation b && leb least c && is_scalar c)) [
        | inl y ↦
            let (t, got, split) = cons_char-some c (decode_text bs) cs (rw y at h) in
            omega (arith, ap length split, decode_text-length bs t got)
        | inr m ↦ let lost : none ≡ some cs = rw m at h in cc
      ]
  decode_rest-length (suc n) bits least (b ∷ bs) cs h = elim (Bool-cases (is_continuation b)) [
    | inl y ↦ omega (arith, decode_rest-length n (bits * 64 + (b - 0x80)) least bs cs (rw y at h))
    | inr m ↦ let lost : none ≡ some cs = rw m at h in cc
  ]

-- Text with a character to each byte is ASCII.
pub decode_text-IsAscii :
    (bs cs : List ℕ) → decode_text bs ≡ some cs → length cs ≡ length bs → All IsAscii cs
unfolding decode_text
decode_text-IsAscii [] [] h same = tt
decode_text-IsAscii [] (c ∷ cs) h same = absurd (omega arith)
decode_text-IsAscii (b ∷ bs) cs h same = elim (lead_cases b) [
  | ascii lt e ↦
      let (t, got, split) =
        cons_char-some b (decode_text bs) cs (sym (decode_text-whole b bs e) ∙ h) in
      rw split (lt, decode_text-IsAscii bs t got (omega (arith, ap length split)))
  | first n bits least e ↦ absurd (
      omega (
        arith,
        decode_rest-length n bits least bs cs (sym (decode_text-first b n bits least bs e) ∙ h),
      ))
  | wrong e ↦ absurd (no_text b bs cs e h)
]

pub encode_text-length : (cs bs : List ℕ) → encode_text cs ≡ some bs → length cs ≤ length bs
unfolding encode_text encode_char
encode_text-length [] bs h = omega arith
encode_text-length (c ∷ cs) bs h = elim (Option-cases (encode_text cs)) [
  | inl lost ↦ absurd (ground arith)
  | inr (rest, e) ↦
      let ih = encode_text-length cs rest e in ground (arith, length-append (encode_char c) rest)
]
