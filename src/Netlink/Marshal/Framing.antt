-- ===== src/Netlink/Marshal/Framing.antt =====
-- The loop of `parse`: it ends, and it takes the messages of a buffer one by one, in order.
use pyroute.Prelude.{
  ℕ, zero, suc, ◌+◌, ◌≤◌, ◌<◌, ◌≡◌, refl, sym, ap, ◌∙◌, subst, Bool, true, false, Option, none,
  some, List, [], ◌∷◌, ◌++◌, append-nil, length, length-append, drop, take, ltb, leb, le→leb,
  lt→ltb, Bool-cases, inl, inr, arith,
}
use pyroute.Prelude.Bytes.{At, At-left, At-right, bytes_at, le_value}
use pyroute.Netlink.Nla.{pack, unpack, u16}
use pyroute.Netlink.Nla.Words.{length-pack, unpack-pack}
use pyroute.Netlink.Marshal.{
  Frame, Message, Decoding, bad_message, decode_or_error, reported, is_error, Parser, u32, frame_at,
  is_seq, find_parser, parse_one_message, run_parser, deliver, verdict, round_at, parse,
}

little :
    (w : ℕ) (data' : List ℕ) (off : ℕ)
    → off + w ≤ length data'
    → (v : ℕ) × (unpack (record { width = w; big_endian = false }) data' off ≡ some v)
unfolding unpack bytes_at
little w data' off h =
    let l : leb (off + w) (length data') ≡ true = le→leb _ _ h in
    (le_value (take w (drop off data')), rw l refl)

frame_inside :
    (data' : List ℕ) (off : ℕ)
    → off + 16 ≤ length data'
    → (f : Frame) × (frame_at data' off ≡ some f)
unfolding frame_at
frame_inside data' off h =
    let (l, el) = little 4 data' off (omega arith) in
    let (k, ek) = little 2 data' (off + 4) (omega arith) in
    let (g, eg) = little 2 data' (off + 6) (omega arith) in
    let (s, es) = little 4 data' (off + 8) (omega arith) in
    (record { length = l; key = k; flags = g; sequence_number = s }, rw (el, ek, eg, es) refl)

-- The bytes of a message whose header says what the frame says.
pub record Writes (f : Frame) (b : List ℕ) : Type 0 where
  pub l : List ℕ
  pub k : List ℕ
  pub g : List ℕ
  pub s : List ℕ
  pub body : List ℕ
  pub l_packed : pack u32 f.length ≡ some l
  pub k_packed : pack u16 f.key ≡ some k
  pub g_packed : pack u16 f.flags ≡ some g
  pub s_packed : pack u32 f.sequence_number ≡ some s
  pub whole : b ≡ l ++ (k ++ (g ++ (s ++ body)))
  pub sized : f.length ≡ length b
  pub header : 16 ≤ length b

-- Messages one behind the other.
abbrev pub Written : List Frame → List ℕ → Type 0
Written [] bs = bs ≡ []
Written (f ∷ fs) bs =
    (b : List ℕ) × (rest : List ℕ) × Writes f b × (bs ≡ b ++ rest) × Written fs rest

frame_at-Writes :
    (f : Frame) (b : List ℕ) (data' : List ℕ) (off : ℕ)
    → Writes f b
    → At data' off b
    → frame_at data' off ≡ some f
unfolding frame_at
frame_at-Writes f b data' off w a =
    let all : At data' off (w.l ++ (w.k ++ (w.g ++ (w.s ++ w.body)))) =
      subst (At data' off) w.whole a in
    let behind_l : At data' (off + 4) (w.k ++ (w.g ++ (w.s ++ w.body))) =
      subst (λ n. At data' (off + n) (w.k ++ (w.g ++ (w.s ++ w.body))))
        (length-pack u32 f.length w.l_packed) (At-right data' off w.l _ all) in
    let behind_k : At data' (off + 6) (w.g ++ (w.s ++ w.body)) =
      subst (λ n. At data' n (w.g ++ (w.s ++ w.body)))
        (omega (arith, length-pack u16 f.key w.k_packed))
        (At-right data' (off + 4) w.k _ behind_l) in
    let behind_g : At data' (off + 8) (w.s ++ w.body) =
      subst (λ n. At data' n (w.s ++ w.body)) (omega (arith, length-pack u16 f.flags w.g_packed))
        (At-right data' (off + 6) w.g _ behind_k) in
    rw
      (
        unpack-pack u32 f.length w.l data' off w.l_packed (At-left w.l _ all),
        unpack-pack u16 f.key w.k data' (off + 4) w.k_packed (At-left w.k _ behind_l),
        unpack-pack u16 f.flags w.g data' (off + 6) w.g_packed (At-left w.g _ behind_k),
        unpack-pack u32 f.sequence_number w.s data' (off + 8) w.s_packed (At-left w.s _ behind_g),
      )
      refl

module _ (decode_error_message : List ℕ → ℕ → Decoding) (decode : ℕ → List ℕ → ℕ → Decoding)
    (seq_map : List (ℕ × Parser)) (seq : Option ℕ) (callback : Option (Message → Bool)) where
  round_some :
      (again : ℕ → Option (List Message)) (data' : List ℕ) (off : ℕ) (f : Frame)
      → ((o : ℕ) → off < o → (ms : List Message) × (again o ≡ some ms))
      → (ms : List Message) × (round_at decode_error_message decode seq_map false seq callback again
            data' off
            (verdict decode_error_message decode seq_map false seq callback data' f)
          ≡ some ms)
  unfolding verdict round_at
  round_some again data' off f h = elim (Bool-cases (ltb 0 f.length)) [
    | inr n ↦ ([], rw n refl)
    | inl y ↦ elim (Bool-cases (leb f.length (length data'))) [
      | inr n ↦ ([], rw (y, n) refl)
      | inl z ↦
          let (ms, e) = h (off + f.length) (ground arith) in
          (
            deliver decode_error_message decode seq_map false seq callback f (
                  run_parser decode_error_message decode (find_parser seq_map f.sequence_number) f
                    data' off)
                ++ ms,
            rw (y, z, e) refl,
          )
    ]
  ]

  parse-some :
      (fuel : ℕ) (data' : List ℕ) (off : ℕ)
      → length data' < off + fuel
      → 0 < fuel
      → (ms : List Message) × (parse decode_error_message decode seq_map false seq callback fuel
            data' off
          ≡ some ms)
  unfolding parse
  parse-some zero data' off h k = absurd (omega arith)
  parse-some (suc fuel) data' off h k = elim (Bool-cases (leb (off + 16) (length data'))) [
    | inr n ↦ ([], rw n refl)
    | inl y ↦
        let room : off + 16 ≤ length data' = ground arith in
        let (f, e) = frame_inside data' off room in
        let (ms, r) =
          round_some (parse decode_error_message decode seq_map false seq callback fuel data') data'
            off f (λ o l. parse-some fuel data' o (omega arith) (omega arith)) in
        (ms, rw (y, e) r)
  ]

  -- Where the messages of a buffer begin, and what each adds to the output.
  pub outputs : List Frame → List ℕ → ℕ → List Message
  outputs [] data' off = []
  outputs (f ∷ fs) data' off =
      deliver decode_error_message decode seq_map false seq callback f
        (run_parser decode_error_message decode (find_parser seq_map f.sequence_number) f data' off)
      ++ outputs fs data' (off + f.length)

  round_accepts :
      (again : ℕ → Option (List Message)) (data' : List ℕ) (off : ℕ) (f : Frame) (ms : List Message)
      → 0 < f.length
      → f.length ≤ length data'
      → again (off + f.length) ≡ some ms
      → round_at decode_error_message decode seq_map false seq callback again data' off
          (verdict decode_error_message decode seq_map false seq callback data' f)
        ≡ some (
            deliver decode_error_message decode seq_map false seq callback f (
              run_parser decode_error_message decode
                (find_parser seq_map f.sequence_number)
                f
                data'
                off)
            ++ ms)
  unfolding verdict round_at
  round_accepts again data' off f ms h k e = rw (lt→ltb _ _ h, le→leb _ _ k, e) refl

  parse_from :
      (fuel : ℕ) (fs : List Frame) (bs data' : List ℕ) (off : ℕ)
      → Written fs bs
      → At data' off bs
      → length data' ≡ off + length bs
      → length bs < fuel
      → parse decode_error_message decode seq_map false seq callback fuel data' off
        ≡ some (outputs fs data' off)
  unfolding parse outputs
  parse_from zero fs bs data' off w a t h = absurd (omega arith)
  parse_from (suc fuel) [] bs data' off w a t h =
      let ended : leb (off + 16) (length data') ≡ false = ground (arith, ap length w) in
      rw ended refl
  parse_from (suc fuel) (f ∷ fs) bs data' off (b, rest, w, e, ws) a t h =
      let whole : At data' off (b ++ rest) = subst (At data' off) e a in
      let sizes : length bs ≡ length b + length rest = ap length e ∙ length-append b rest in
      let there : At data' (off + f.length) rest =
        subst (λ n. At data' (off + n) rest) (sym w.sized) (At-right data' off b rest whole) in
      let more : leb (off + 16) (length data') ≡ true =
        le→leb _ _ (omega (arith, w.header, sizes, t)) in
      rw (more, frame_at-Writes f b data' off w (At-left b rest whole))
        (round_accepts (parse decode_error_message decode seq_map false seq callback fuel data')
          data' off f _ (omega (arith, w.header, w.sized)) (omega (arith, w.sized, sizes, t))
          (parse_from fuel fs rest data' (off + f.length) ws there
            (omega (arith, w.sized, sizes, t)) (omega (arith, w.header, sizes, h))))

  -- `parse` of a buffer of messages takes each of them once and in order: its output is what each
  -- adds at the offset where it stands, by the parser of its sequence number or the class of its key.
  pub parse-Written :
      (fs : List Frame) (bs : List ℕ)
      → Written fs bs
      → parse decode_error_message decode seq_map false seq callback (suc (length bs)) bs 0
        ≡ some (outputs fs bs 0)
  parse-Written fs bs w =
      parse_from (suc (length bs)) fs bs bs 0 w
        (record { behind = []; inside = omega arith; there = sym (append-nil bs) }) (omega arith)
        (omega arith)

  -- Without `skip_alien_seq`, `parse` ends on every buffer, whatever the bytes.
  pub parse_ends :
      (data' : List ℕ)
      → (ms : List Message) × (parse decode_error_message decode seq_map false seq callback
            (suc (length data'))
            data'
            0
          ≡ some ms)
  parse_ends data' = parse-some (suc (length data')) data' 0 (omega arith) (omega arith)

  stays :
      (fuel : ℕ) (data' : List ℕ) (off : ℕ) (f : Frame)
      → off + 16 ≤ length data'
      → frame_at data' off ≡ some f
      → is_seq seq f.sequence_number ≡ false
      → parse decode_error_message decode seq_map true seq callback fuel data' off ≡ none
  unfolding parse verdict round_at
  stays zero data' off f h e n = refl
  stays (suc fuel) data' off f h e n = rw (le→leb _ _ h, e, n) (stays fuel data' off f h e n)

  -- With `skip_alien_seq`, `parse` of a buffer whose first message has another sequence number does
  -- not end: no fuel is enough.
  pub parse_stays :
      (fuel : ℕ) (data' : List ℕ) (f : Frame)
      → 16 ≤ length data'
      → frame_at data' 0 ≡ some f
      → is_seq seq f.sequence_number ≡ false
      → parse decode_error_message decode seq_map true seq callback fuel data' 0 ≡ none
  parse_stays fuel data' f h e n = stays fuel data' 0 f (omega arith) e n

  -- When a class refuses its message with a NetlinkDecodeError, and it is no nlmsgerr, the header has
  -- no error afterwards.
  pub parse_one_message_forgets :
      (key flags : ℕ) (data' : List ℕ) (off : ℕ) (m : Message)
      → is_error key flags ≡ false
      → decode key data' off ≡ bad_message m
      → m.code ≡ none
      → (parse_one_message decode_error_message decode key flags data' off).error ≡ none
  unfolding parse_one_message decode_or_error reported
  parse_one_message_forgets key flags data' off m e d c = rw (e, d, c) refl
