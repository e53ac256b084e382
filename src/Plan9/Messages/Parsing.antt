-- ===== src/Plan9/Messages/Parsing.antt =====
-- A buffer of messages is cut into those messages.
use pyroute.Prelude.{
  ℕ, zero, suc, ◌+◌, ◌<◌, ◌≡◌, ◌≢◌, refl, sym, ap, ◌∙◌, subst, true, false, some, List, [], ◌∷◌,
  ◌++◌, length, length-append, append_assoc, drop_length-append, ltb, leb, lt→ltb, le→leb, ◌==◌,
  arith,
}
use pyroute.Prelude.Bytes.{At, At-left}
use pyroute.Netlink.Nla.{size_of}
use pyroute.Netlink.Nla.Fields.{filled, length-pack_fields}
use pyroute.Plan9.Reader.{Reads-read_fields, read_fields}
use pyroute.Plan9.Messages.{
  Message, Stream, ended, yields, fields, header_formats, encode_message, decode_message, round_at,
  parse,
}
use pyroute.Plan9.Messages.RoundTrip.{
  AllPlain, Encoded, split_message, decode_message-encode_message,
}

-- A message that a stream can yield as it was written.
pub record Sent (m : Message) (bs : List ℕ) : Type 0 where
  pub encoded : encode_message m ≡ some bs
  pub plain : AllPlain (fields m.type') m.values
  pub no_error : m.type' ≢ 107
  pub no_nlmsgerr : m.type' ≢ 2

-- The messages, one behind the other.
pub data Written : List Message → List ℕ → Type 0 where
  nothing : Written [] []
  one_more :
      (m : Message) (us : List ℕ) (ms : List Message) (rest : List ℕ)
      → Sent m us
      → Written ms rest
      → Written (m ∷ ms) (us ++ rest)

unfoldable pub stream_of : List Message → Stream
stream_of [] = ended
stream_of (m ∷ ms) = yields m (stream_of ms)

length-Encoded : (m : Message) (bs : List ℕ) (t : Encoded m bs) → length bs ≡ 7 + length t.body
unfolding size_of
length-Encoded m bs t = omega (
  arith,
  ap length t.whole,
  length-append t.header t.body,
  length-pack_fields header_formats _ t.pack_header,
)

at_front : (front us rest : List ℕ) → At (front ++ (us ++ rest)) (length front) us
at_front front us rest = record {
  behind = rest;
  inside = omega (arith, length-append front (us ++ rest));
  there = drop_length-append front (us ++ rest);
}

header_at :
    (m : Message) (front us rest : List ℕ) (t : Encoded m us)
    → read_fields header_formats (front ++ (us ++ rest)) (length front)
      ≡ some ((7 + length t.body) ∷ m.type' ∷ m.tag ∷ [], length front + length t.header)
unfolding filled
header_at m front us rest t =
    Reads-read_fields header_formats ((7 + length t.body) ∷ m.type' ∷ m.tag ∷ []) t.header
      t.pack_header (front ++ (us ++ rest)) (length front)
      (At-left t.header t.body
        (subst (At (front ++ (us ++ rest)) (length front)) (sym t.whole) (at_front front us rest)))

==_ne : (a b : ℕ) → a ≢ b → (a == b) ≡ false
==_ne a b h = ground arith

-- One round on a message.
round-Sent :
    (m : Message) (seq fuel : ℕ) (front us rest : List ℕ)
    → Sent m us
    → parse false seq (front ++ (us ++ rest)) (suc fuel) (length front)
      ≡ yields m (parse false seq (front ++ (us ++ rest)) fuel (length front + length us))
unfolding parse round_at
round-Sent m seq fuel front us rest s =
    let t = split_message m us s.encoded in
    let total : length (front ++ (us ++ rest)) ≡ length front + (length us + length rest) =
      omega (arith, length-append front (us ++ rest), length-append us rest) in
    let long : length us ≡ 7 + length t.body = length-Encoded m us t in
    let room : leb (length front + 5) (length (front ++ (us ++ rest))) ≡ true =
      le→leb _ _ (omega arith) in
    let positive : ltb 0 (7 + length t.body) ≡ true = lt→ltb _ _ (omega arith) in
    let fits : leb (7 + length t.body) (length (front ++ (us ++ rest))) ≡ true =
      le→leb _ _ (omega arith) in
    let read : decode_message m.type' (front ++ (us ++ rest)) (length front)
        ≡ some (m, length front + length us) =
      decode_message-encode_message m us s.plain s.encoded _ _ (at_front front us rest) in
    rw
      (
        room,
        header_at m front us rest t,
        positive,
        fits,
        read,
        ==_ne m.type' 107 s.no_error,
        ==_ne m.type' 2 s.no_nlmsgerr,
        long,
      )
      refl

parse_front :
    (seq fuel : ℕ) (front : List ℕ) {ms : List Message} {bs : List ℕ}
    → Written ms bs
    → length ms < fuel
    → parse false seq (front ++ bs) fuel (length front) ≡ stream_of ms
unfolding stream_of
parse_front seq zero front w h = absurd (omega arith)
parse_front seq (suc fuel) front nothing h =
    let full : leb (length front + 5) (length (front ++ [])) ≡ false =
      ground (arith, length-append front []) in
    unfold parse in rw full refl
parse_front seq (suc fuel) front (one_more m us ms rest s w) h =
    round-Sent m seq fuel front us rest s
    ∙ ap (yields m) (
        subst (λ n. parse false seq (front ++ (us ++ rest)) fuel n ≡ stream_of ms)
          (length-append front us)
          (subst (λ l. parse false seq l fuel (length (front ++ us)) ≡ stream_of ms)
            (append_assoc front us rest) (parse_front seq fuel (front ++ us) w (omega arith))))

-- A buffer that holds messages one behind the other is cut into those messages, and then `parse` ends:
-- it needs no more rounds than there are messages, and one. The messages are as they are read back, and none
-- of them is an error or of type 2.
pub parse-Sent :
    (seq fuel : ℕ) (ms : List Message) (bs : List ℕ)
    → Written ms bs
    → length ms < fuel
    → parse false seq bs fuel 0 ≡ stream_of ms
parse-Sent seq fuel ms bs w h = parse_front seq fuel [] w h
