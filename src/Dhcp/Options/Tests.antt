-- ===== src/Dhcp/Options/Tests.antt =====
-- A message type, a host name, an option with no data and a lease time.
use pyroute.Prelude.{ℕ, ◌≡◌, refl, ◌==◌, if◌then◌else◌, some, List, [], ◌∷◌, arith}
use pyroute.Prelude.Bytes.{be_bytes}
use pyroute.Netlink.Nla.{pack}
use pyroute.Plan9.Utf8.{encode_text}
use pyroute.Dhcp.Options.{
  Value, int_value, text_value, bytes_value, OptionFormat, integer, string, array8, rstrip,
  encode_option, encode_options, option_data, with_length, decode_options,
}
use pyroute.Dhcp.Options.RoundTrip.{decode_options-encode_options}

abbrev format : ℕ → OptionFormat
format code =
    if code == 53
    then integer 1
    else if code == 51
    then integer 4
    else if code == 12
    then string
    else array8

abbrev options : List (ℕ × Value)
options =
    (53, int_value 5)
    ∷ (12, text_value (112 ∷ 99 ∷ []))
    ∷ (80, bytes_value [])
    ∷ (51, int_value 0x102)
    ∷ []

abbrev written : List ℕ
written = 53 ∷ 1 ∷ 5 ∷ 12 ∷ 2 ∷ 112 ∷ 99 ∷ 80 ∷ 0 ∷ 51 ∷ 4 ∷ 0 ∷ 0 ∷ 1 ∷ 2 ∷ 255 ∷ []

encode_options-written : encode_options format options ≡ some written
unfolding encode_options encode_option option_data with_length pack be_bytes encode_text
encode_options-written = refl

decode_options-encode_options_example : decode_options 17 format (9 ∷ written) 1 ≡ options
unfolding rstrip
decode_options-encode_options_example =
    decode_options-encode_options format options written (9 ∷ written) 1
      (refl, refl, (refl, refl, (refl, refl, (refl, refl, tt))))
      (tt, (((omega arith, (omega arith, tt)), refl), (tt, (tt, tt)))) encode_options-written
      (record { behind = []; inside = omega arith; there = refl })
