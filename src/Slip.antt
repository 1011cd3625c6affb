-- ===== src/Slip.antt =====
-- common/slipdataprocessor.h and common/slipdataprocessor.cpp: SLIP escaping and the frames of the
-- tunnel, a big-endian socket address and its payload.
pub mod RoundTrip
use nymea_remoteproxy.Base.{
  ℕ, ◌+◌, ◌*◌, ◌/◌, ◌%◌, ◌≡◌, Bool, true, false, List, [], ◌∷◌, ◌++◌, ◌==◌, if◌then◌else◌, Bytes,
}

abbrev pub protocol_byte_end : ℕ
protocol_byte_end = 0xC0

abbrev pub protocol_byte_esc : ℕ
protocol_byte_esc = 0xDB

abbrev pub protocol_byte_transposed_end : ℕ
protocol_byte_transposed_end = 0xDC

abbrev pub protocol_byte_transposed_esc : ℕ
protocol_byte_transposed_esc = 0xDD

pub record Frame : Type 0 where
  pub socket_address : ℕ
  pub payload : Bytes

-- The loop of deserializeData: `escaped` and what was read so far.
unfoldable pub deserialize_loop : Bool → Bytes → Bytes → Bytes
deserialize_loop escaped acc [] = acc
deserialize_loop true acc (byte ∷ rest) =
    let go = λ (b : ℕ). deserialize_loop false (acc ++ b ∷ []) rest in
    if byte == protocol_byte_transposed_end
    then go protocol_byte_end
    else if byte == protocol_byte_transposed_esc
    then go protocol_byte_esc
    else []
deserialize_loop false acc (byte ∷ rest) =
    let escape_next = deserialize_loop true acc rest in
    let plain = deserialize_loop false (acc ++ byte ∷ []) rest in
    if byte == protocol_byte_esc
    then escape_next
    else if byte == protocol_byte_end
    then acc
    else plain

unfoldable pub deserialize_data : Bytes → Bytes
unfolding deserialize_loop
deserialize_data bytes = deserialize_loop false [] bytes

-- One round of serializeData's loop.
unfoldable pub serialize_byte : ℕ → Bytes
serialize_byte byte =
    if byte == protocol_byte_end
    then protocol_byte_esc ∷ protocol_byte_transposed_end ∷ []
    else if byte == protocol_byte_esc
    then protocol_byte_esc ∷ protocol_byte_transposed_esc ∷ []
    else byte ∷ []

unfoldable pub serialize_loop : Bytes → Bytes
unfolding serialize_byte
serialize_loop [] = []
serialize_loop (byte ∷ rest) = serialize_byte byte ++ serialize_loop rest

unfoldable pub serialize_data : Bytes → Bytes
unfolding serialize_loop
serialize_data bytes = serialize_loop bytes ++ protocol_byte_end ∷ []

-- A QDataStream that cannot read two bytes gives the address 0, and is then at its end.
unfoldable pub parse_frame : Bytes → Frame
parse_frame [] = record { socket_address = 0; payload = [] }
parse_frame (a ∷ []) = record { socket_address = 0; payload = [] }
parse_frame (high ∷ low ∷ rest) = record { socket_address = high * 256 + low; payload = rest }

unfoldable pub build_frame : Frame → Bytes
build_frame frame = frame.socket_address / 256 ∷ frame.socket_address % 256 ∷ frame.payload
