-- ===== src/Dhcp/Options.antt =====
-- The options of a DHCP message: `option.encode` and `decode` and the loops of `dhcpmsg` in
-- pyroute2/dhcp/__init__.py. A value is a number, for the formats 'B', '>H' and '>I', a text, by its code
-- points, or a list of bytes. `string` and `array8` are the classes of these names.
pub mod RoundTrip
pub mod Tests
use pyroute.Prelude.{
  ℕ, zero, suc, ◌+◌, Bool, true, false, not, ◌&&◌, ◌||◌, Option, none, some, List, [], ◌∷◌, ◌++◌,
  length, take, drop, get_elem?, ltb, ◌==◌, if◌then◌else◌,
}
use pyroute.Netlink.Nla.{Format, pack, unpack}
use pyroute.Plan9.Utf8.{encode_text, decode_text}
use pyroute.Netlink.Nla.Monad.{◌>>=◌}

pub data Value : Type 0 where
  int_value : ℕ → Value
  text_value : List ℕ → Value
  bytes_value : List ℕ → Value

pub data OptionFormat : Type 0 where
  integer : ℕ → OptionFormat
  string array8 : OptionFormat

abbrev pub big : ℕ → Format
big w = record { width = w; big_endian = true }

abbrev pub pad : ℕ
pad = 0

abbrev pub end : ℕ
end = 255

abbrev pub are_bytes : List ℕ → Bool
are_bytes [] = true
are_bytes (b ∷ bs) = ltb b 256 && are_bytes bs

-- `bytes(value)`.
abbrev pub to_bytes : List ℕ → Option (List ℕ)
to_bytes bs = if are_bytes bs then some bs else none

-- `struct.pack` of a text whose characters were counted before it was encoded.
abbrev pub cut_text : List ℕ → Option (List ℕ)
cut_text cs = encode_text cs >>= (λ bs. some (take (length cs) bs))

-- `self.policy.encode(self.value)` and `struct.pack`.
unfoldable pub option_data : OptionFormat → Value → Option (List ℕ)
option_data (integer w) (int_value v) = pack (big w) v
option_data (integer w) (text_value cs) = none
option_data (integer w) (bytes_value bs) = none
option_data string (int_value v) = none
option_data string (text_value cs) = cut_text cs
option_data string (bytes_value bs) = to_bytes bs
option_data array8 (int_value v) = none
option_data array8 (text_value cs) = none
option_data array8 (bytes_value bs) = to_bytes bs

-- The length is one byte.
unfoldable pub with_length : ℕ → List ℕ → Option (List ℕ)
with_length code data' = if ltb (length data') 256 then some (code ∷ length data' ∷ data') else none

unfoldable pub encode_option : ℕ → OptionFormat → Value → Option (List ℕ)
encode_option code f v =
    if not (ltb code 256)
    then none
    else if code == pad || code == end
    then some (code ∷ [])
    else option_data f v >>= (λ data'. with_length code data')

-- The loop of `dhcpmsg.encode`, with the end mark.
unfoldable pub encode_options : (ℕ → OptionFormat) → List (ℕ × Value) → Option (List ℕ)
encode_options format [] = some (end ∷ [])
encode_options format ((code, v) ∷ options) =
    encode_option code (format code) v
    >>= (λ bs. encode_options format options >>= (λ rest. some (bs ++ rest)))

-- `rstrip` of NULs.
abbrev pub is_empty : List ℕ → Bool
is_empty [] = true
is_empty (c ∷ cs) = false

unfoldable pub rstrip : List ℕ → List ℕ
rstrip [] = []
rstrip (c ∷ cs) = let rest = rstrip cs in if is_empty rest && c == 0 then [] else c ∷ rest

-- The bytes of a `string`, if they are text; else the list of them.
abbrev pub string_value : List ℕ → Option (List ℕ) → Value
string_value bs none = bytes_value bs
string_value bs (some cs) = text_value (rstrip cs)

-- `struct.unpack` of the slice, which must be of the size of the format.
unfoldable pub option_value : OptionFormat → ℕ → List ℕ → Option Value
option_value (integer w) n slice =
    if length slice == w then unpack (big w) slice 0 >>= (λ v. some (int_value v)) else none
option_value string n slice =
    if length slice == n then some (string_value slice (decode_text slice)) else none
option_value array8 n slice = if length slice == n then some (bytes_value slice) else none

-- `option.length`.
abbrev pub advance : ℕ → ℕ
advance zero = 1
advance (suc n) = suc n + 2

-- From the decoded option on; the loop breaks at one that cannot be decoded.
unfoldable pub collect : (ℕ → List (ℕ × Value)) → ℕ → ℕ → ℕ → Option Value → List (ℕ × Value)
collect again code off n none = []
collect again code off n (some v) = (code, v) ∷ again (off + advance n)

unfoldable pub decode_option :
    (ℕ → List (ℕ × Value)) → OptionFormat → List ℕ → ℕ → ℕ → Option ℕ → List (ℕ × Value)
decode_option again f data' code off none = []
decode_option again f data' code off (some n) =
    collect again code off n (option_value f n (take n (drop (off + 2) data')))

-- One round at an offset: `none` is the end of the buffer.
unfoldable pub round_at :
    (ℕ → List (ℕ × Value)) → (ℕ → OptionFormat) → List ℕ → ℕ → Option ℕ → List (ℕ × Value)
round_at again format data' off none = []
round_at again format data' off (some code) =
    if code == pad
    then again (off + 1)
    else if code == end
    then []
    else decode_option again (format code) data' code off (get_elem? data' (off + 1))

-- The loop of `dhcpmsg.decode`, on fuel, with the options in the order in which they are set; the
-- format of an unknown code is `array8`.
unfoldable pub decode_options : ℕ → (ℕ → OptionFormat) → List ℕ → ℕ → List (ℕ × Value)
decode_options zero format data' off = []
decode_options (suc fuel) format data' off =
    round_at (decode_options fuel format data') format data' off (get_elem? data' off)
