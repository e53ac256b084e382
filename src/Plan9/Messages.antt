-- ===== src/Plan9/Messages.antt =====
-- The messages of pyroute2/plan9/__init__.py and `Marshal9P`.
pub mod RoundTrip
pub mod Parsing
pub mod Tests
use pyroute.Prelude.{
  ℕ, zero, suc, ◌+◌, Bool, true, false, not, ◌&&◌, ◌||◌, Option, none, some, List, [], ◌∷◌, ◌++◌,
  length, ltb, leb, ◌==◌, if◌then◌else◌,
}
use pyroute.Netlink.Nla.{Format, pack_fields}
use pyroute.Netlink.Nla.Monad.{◌>>=◌}
use pyroute.Plan9.Reader.{Reader, pure, read_fields, ◌>>=◌ as ◌>>=R◌}
use pyroute.Plan9.Codec.{
  bytes, Kind, uint, raw, string, cdata, qid, wstat, array, Value, num, little, encode,
}
use pyroute.Plan9.Codec.Decode.{decode}

-- The header fields `type` and `tag`, and the values of the fields in order.
pub record Message : Type 0 where
  pub type' : ℕ
  pub tag : ℕ
  pub values : List Value

abbrev pub r_error : ℕ
r_error = 107

-- `fields` of the message classes, each by the type of its request and of its reply.
unfoldable pub extension_fields : ℕ → List Kind
extension_fields t =
    if t == 80
    then uint 4 ∷ string ∷ cdata ∷ []
    else if t == 81
    then uint 2 ∷ string ∷ cdata ∷ []
    else if t == 114 || t == 115 || t == 122 || t == 123
    then []
    else string ∷ []

unfoldable pub file_fields : ℕ → List Kind
file_fields t =
    if t == 112
    then uint 4 ∷ uint 1 ∷ []
    else if t == 113
    then qid ∷ uint 4 ∷ []
    else if t == 116
    then uint 4 ∷ uint 8 ∷ uint 4 ∷ []
    else if t == 117
    then cdata ∷ []
    else if t == 118
    then uint 4 ∷ uint 8 ∷ cdata ∷ []
    else if t == 119
    then uint 4 ∷ []
    else if t == 120
    then uint 4 ∷ []
    else if t == 121
    then []
    else if t == 124
    then uint 4 ∷ []
    else if t == 125
    then wstat ∷ []
    else if t == 126
    then uint 4 ∷ wstat ∷ []
    else if t == 127
    then []
    else extension_fields t

-- A type that `msg_map` does not have is of the default class, `msg_rerror`.
unfoldable pub fields : ℕ → List Kind
unfolding file_fields extension_fields
fields t =
    if t == 100 || t == 101
    then uint 4 ∷ string ∷ []
    else if t == 102
    then uint 4 ∷ string ∷ string ∷ []
    else if t == 103
    then raw 13 ∷ []
    else if t == 104
    then uint 4 ∷ uint 4 ∷ string ∷ string ∷ []
    else if t == 105
    then qid ∷ []
    else if t == r_error
    then string ∷ []
    else if t == 110
    then uint 4 ∷ uint 4 ∷ array string ∷ []
    else if t == 111
    then array qid ∷ []
    else file_fields t

-- `=IBH`
abbrev pub header_formats : List Format
header_formats = little 4 ∷ little 1 ∷ little 2 ∷ []

-- The default of a field that is not set: no data in `msg_rread`, else 0.
abbrev pub default_of : ℕ → Value
default_of t = if t == 117 then bytes [] else num 0

-- `ft_encode`.
unfoldable pub encode_fields : Value → List Kind → List Value → Option (List ℕ)
encode_fields default [] vs = some []
encode_fields default (k ∷ ks) [] = do
  bs ← encode k default
  rest ← encode_fields default ks []
  some (bs ++ rest)
encode_fields default (k ∷ ks) (v ∷ vs) = do
  bs ← encode k v
  rest ← encode_fields default ks vs
  some (bs ++ rest)

unfoldable pub encode_message : Message → Option (List ℕ)
encode_message m = do
  body ← encode_fields (default_of m.type') (fields m.type') m.values
  header ← pack_fields header_formats ((7 + length body) ∷ m.type' ∷ m.tag ∷ [])
  some (header ++ body)

unfoldable pub decode_fields : List Kind → Reader (List Value)
decode_fields [] = pure []
decode_fields (k ∷ ks) = decode k >>=R λ v. decode_fields ks >>=R λ vs. pure (v ∷ vs)

abbrev pub type_of : List ℕ → ℕ
type_of (n ∷ t ∷ tag ∷ rest) = t
type_of ns = 0

abbrev pub tag_of : List ℕ → ℕ
tag_of (n ∷ t ∷ tag ∷ rest) = tag
tag_of ns = 0

abbrev pub length_of : List ℕ → ℕ
length_of [] = 0
length_of (n ∷ rest) = n

-- `decode` of the class of a type.
unfoldable pub decode_message : ℕ → Reader Message
decode_message key = read_fields header_formats >>=R λ ns. decode_fields (fields key) >>=R λ vs.
    pure (record { type' = type_of ns; tag = tag_of ns; values = vs })

-- What the generator `parse` does: it yields messages, and it ends, raises, or has run out of fuel.
pub data Stream : Type 0 where
  ended raised unfinished : Stream
  yields : Message → Stream → Stream

-- The message is yielded, but an error message, which is raised as the exception that it names. A
-- message of type 2 is read as an nlmsgerr, which has no tag.
abbrev pub deliver : ℕ → Option (Message × ℕ) → Stream → Stream
deliver key none rest = raised
deliver key (some (m, off)) rest = if key == r_error || key == 2 then raised else yields m rest

module _ (skip_alien_seq : Bool) (seq : ℕ) (buf : List ℕ) where
  -- One round, with the header; `again` is the loop from an offset on.
  unfoldable pub round_at : (ℕ → Stream) → ℕ → List ℕ → Stream
  round_at again off ns =
      if skip_alien_seq && not (tag_of ns == seq)
      then again off
      else if ltb 0 (length_of ns) && leb (length_of ns) (length buf)
      then deliver (type_of ns) (decode_message (type_of ns) buf off) (again (off + length_of ns))
      else ended

  abbrev pub header_round : (ℕ → Stream) → ℕ → Option (List ℕ × ℕ) → Stream
  header_round again off none = raised
  header_round again off (some (ns, next)) = round_at again off ns

  -- The loop of `Marshal9P.parse`, on fuel.
  unfoldable pub parse : ℕ → ℕ → Stream
  parse zero off = unfinished
  parse (suc fuel) off =
      if leb (off + 5) (length buf)
      then header_round (parse fuel) off (read_fields header_formats buf off)
      else ended
