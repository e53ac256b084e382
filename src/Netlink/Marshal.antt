-- ===== src/Netlink/Marshal.antt =====
-- `Marshal` of pyroute2/netlink/marshal.py: the messages of a buffer, one behind the other. What a
-- class of messages makes of the bytes at an offset is a parameter.
pub mod Framing
pub mod Tests
use pyroute.Prelude.{
  ℕ, zero, suc, ◌+◌, bit_and, Bool, true, false, not, ◌&&◌, ◌||◌, Option, none, some, List, [], ◌∷◌,
  ◌++◌, length, ltb, leb, ◌==◌, if◌then◌else◌,
}
use pyroute.Netlink.Nla.{Format, unpack, u16}
use pyroute.Netlink.Nla.Monad.{◌>>=◌}

abbrev pub u32 : Format
u32 = record { width = 4; big_endian = false }

-- NLMSG_ERROR, NLMSG_DONE and NLM_F_ACK_TLVS.
abbrev pub nlmsg_error : ℕ
nlmsg_error = 2

abbrev pub nlmsg_done : ℕ
nlmsg_done = 3

abbrev pub nlm_f_ack_tlvs : ℕ
nlm_f_ack_tlvs = 0x200

-- What stands in a header's `error`.
pub data ErrorValue : Type 0 where
  os_error netlink_error : ℕ → ErrorValue
  decode_error : ErrorValue

-- A message as far as the loops look at it: fields of its header, and whether it has an `event`.
pub record Message : Type 0 where
  pub type' : Option ℕ
  pub flags : ℕ
  pub error : Option ErrorValue
  pub has_event : Bool
  -- The `error` field of an nlmsgerr, without its sign.
  pub code : Option ℕ

-- The outcome of `msg.decode()`: the header or the rest may be refused.
pub data Decoding : Type 0 where
  decoded : Message → Decoding
  bad_header : Decoding
  bad_message : Message → Decoding

-- `nlmsg()`.
abbrev pub blank : Message
blank = record { type' = none; flags = 0; error = none; has_event = false; code = none }

-- The two `except` clauses.
unfoldable pub decode_or_error : Decoding → Message
decode_or_error (decoded m) = m
decode_or_error bad_header = record blank { error = some decode_error }
decode_or_error (bad_message m) = record m { error = some decode_error }

-- errno.ENOBUFS.
abbrev pub enobufs : ℕ
enobufs = 105

abbrev pub error_of : ℕ → ErrorValue
error_of code = if code == enobufs then os_error code else netlink_error code

-- `isinstance(msg, nlmsgerr) and msg['error'] != 0`.
unfoldable pub reported : Option ℕ → Option ErrorValue
reported none = none
reported (some zero) = none
reported (some (suc n)) = some (error_of (suc n))

abbrev pub is_error : ℕ → ℕ → Bool
is_error key flags =
    key == nlmsg_error || (key == nlmsg_done && not (bit_and flags nlm_f_ack_tlvs == 0))

pub record Frame : Type 0 where
  pub length : ℕ
  pub key : ℕ
  pub flags : ℕ
  pub sequence_number : ℕ

-- `struct.unpack_from('IHHI', data, offset)`.
unfoldable pub frame_at : List ℕ → ℕ → Option Frame
frame_at data' off = do
  length ← unpack u32 data' off
  key ← unpack u16 data' (off + 4)
  flags ← unpack u16 data' (off + 6)
  seq ← unpack u32 data' (off + 8)
  some (record { length = length; key = key; flags = flags; sequence_number = seq })

-- `sequence_number != seq`, where `seq` may be None.
abbrev pub is_seq : Option ℕ → ℕ → Bool
is_seq none n = false
is_seq (some s) n = s == n

pub data Verdict : Type 0 where
  alien broken : Verdict
  accepted : Frame → Verdict

-- A parser of a sequence number; `none` is the message None.
abbrev pub Parser : Type 0
Parser = List ℕ → ℕ → ℕ → Option Message

-- `mtype in (1, 2, 3, 4) and 'event' not in msg`.
abbrev pub mark_event : Message → Option ℕ → Message
mark_event m none = m
mark_event m (some t) = if ltb 0 t && ltb t 5 then record m { has_event = true } else m

unfoldable pub find_parser : List (ℕ × Parser) → ℕ → Option Parser
find_parser [] seq = none
find_parser ((s, p) ∷ ps) seq = if s == seq then some p else find_parser ps seq

-- `decode` is that of nlmsgerr, or of the class of the key.
module _ (decode_error_message : List ℕ → ℕ → Decoding) (decode : ℕ → List ℕ → ℕ → Decoding) where
  unfoldable pub parse_one_message : ℕ → ℕ → List ℕ → ℕ → Message
  parse_one_message key flags data' off =
      let m =
        decode_or_error
          (if is_error key flags then decode_error_message data' off else decode key data' off) in
      record m { error = reported m.code }

  -- `get_parser`, and the call.
  unfoldable pub run_parser : Option Parser → Frame → List ℕ → ℕ → Option Message
  run_parser none f data' off = some (parse_one_message f.key f.flags data' off)
  run_parser (some p) f data' off = p data' off f.length

  module _ (seq_map : List (ℕ × Parser)) (skip_alien_seq : Bool) (seq : Option ℕ)
      (callback : Option (Message → Bool)) where
    unfoldable pub taken_by : Option (Message → Bool) → Message → Bool
    taken_by none m = false
    taken_by (some f) m = f m

    -- From the message on: what it adds to the output.
    unfoldable pub deliver : Frame → Option Message → List Message
    deliver f none = []
    deliver f (some m) =
        if is_seq seq f.sequence_number && taken_by callback m
        then []
        else mark_event m m.type' ∷ []

    -- The tests at the top of the loop.
    unfoldable pub verdict : List ℕ → Frame → Verdict
    verdict data' f =
        if skip_alien_seq && not (is_seq seq f.sequence_number)
        then alien
        else if ltb 0 f.length && leb f.length (length data')
        then accepted f
        else broken

    -- One round at an offset; `again` is the loop from an offset on.
    unfoldable pub round_at :
        (ℕ → Option (List Message)) → List ℕ → ℕ → Verdict → Option (List Message)
    round_at again data' off alien = again off
    round_at again data' off broken = some []
    round_at again data' off (accepted f) = do
      rest ← again (off + f.length)
      some (deliver f (run_parser (find_parser seq_map f.sequence_number) f data' off) ++ rest)

    -- The loop of `parse`, on fuel; `none` is an empty tank.
    unfoldable pub parse : ℕ → List ℕ → ℕ → Option (List Message)
    parse zero data' off = none
    parse (suc fuel) data' off =
        if leb (off + 16) (length data')
        then frame_at data' off >>= (λ f. round_at (parse fuel data') data' off (verdict data' f))
        else some []
