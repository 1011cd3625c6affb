-- ===== src/Slip/RoundTrip.antt =====
-- What a frame goes through on the wire: escaping and unescaping, building and parsing.
use nymea_remoteproxy.Base.{
  ℕ, ◌*◌, ◌≤◌, ◌<◌, ◌≡◌, refl, sym, ap, ◌∙◌, ◌≢◌, false, [], ◌∷◌, ◌++◌, append-nil, append_assoc,
  Bytes, All, arith, length,
}
use nymea_remoteproxy.Slip.{
  Frame, protocol_byte_end, protocol_byte_esc, protocol_byte_transposed_end,
  protocol_byte_transposed_esc, deserialize_loop, deserialize_data, serialize_byte, serialize_loop,
  serialize_data, parse_frame, build_frame,
}

-- One escaped byte is read back as the byte.
deserialize-serialize_byte :
    (acc : Bytes) (b : ℕ) (tail : Bytes)
    → deserialize_loop false acc (serialize_byte b ++ tail)
      ≡ deserialize_loop false (acc ++ b ∷ []) tail
unfolding serialize_byte deserialize_loop
deserialize-serialize_byte acc b tail = ground arith

-- Unescaping an escaped run of bytes reads it back, and goes on with what follows.
pub deserialize-serialize_loop :
    (acc run tail : Bytes)
    → deserialize_loop false acc (serialize_loop run ++ tail)
      ≡ deserialize_loop false (acc ++ run) tail
unfolding serialize_loop
deserialize-serialize_loop acc [] tail = rw append-nil
deserialize-serialize_loop acc (b ∷ run) tail = rw append_assoc (
    deserialize-serialize_byte acc b (serialize_loop run ++ tail)
    ∙ deserialize-serialize_loop (acc ++ b ∷ []) run tail
    ∙ (rw append_assoc))

-- Unescaping what was escaped gives the bytes back, whatever follows the end byte.
pub deserialize-serialize :
    (bytes rest : Bytes) → deserialize_data (serialize_data bytes ++ rest) ≡ bytes
unfolding deserialize_data serialize_data
deserialize-serialize bytes rest =
    rw append_assoc (deserialize-serialize_loop [] bytes (protocol_byte_end ∷ rest) ∙ closes)
  where
    closes : deserialize_loop false bytes (protocol_byte_end ∷ rest) ≡ bytes
    closes = unfold deserialize_loop in refl

-- The escaped bytes before the end byte are enough to read the bytes back.
pub deserialize-serialize_body : (bytes : Bytes) → deserialize_data (serialize_loop bytes) ≡ bytes
unfolding deserialize_data
deserialize-serialize_body bytes =
    ap (deserialize_loop false []) (sym (append-nil (serialize_loop bytes)))
    ∙ deserialize-serialize_loop [] bytes []
    ∙ closes
  where
    closes : deserialize_loop false bytes [] ≡ bytes
    closes = unfold deserialize_loop in refl

abbrev pub IsEndFree : Bytes → Type 0
IsEndFree = All (λ b. b ≢ protocol_byte_end)

pub serialize_loop-IsEndFree : (bytes : Bytes) → IsEndFree (serialize_loop bytes)
unfolding serialize_loop serialize_byte
serialize_loop-IsEndFree [] = tt
serialize_loop-IsEndFree (b ∷ bytes) = ground (arith, serialize_loop-IsEndFree bytes)

pub length-serialize_loop :
    (bytes : Bytes)
    → (length bytes ≤ length (serialize_loop bytes))
      × (length (serialize_loop bytes) ≤ 2 * length bytes)
unfolding serialize_loop serialize_byte
length-serialize_loop [] = omega arith
length-serialize_loop (b ∷ bytes) = ground (arith, length-serialize_loop bytes)

-- The end byte stands at the end of a serialized run and nowhere else, and the run is at most
-- twice as long as the bytes, besides it.
pub serialize_framing :
    (bytes : Bytes)
    → (body : Bytes) × (serialize_data bytes ≡ body ++ protocol_byte_end ∷ [])
      × IsEndFree body
      × (length bytes ≤ length body)
      × (length body ≤ 2 * length bytes)
unfolding serialize_data
serialize_framing bytes =
    let bounds = length-serialize_loop bytes in
    (serialize_loop bytes, refl, serialize_loop-IsEndFree bytes, bounds.0, bounds.1)

-- A frame with a 16 bit address is read back as it was built.
pub parse-build_frame :
    (frame : Frame) → frame.socket_address < 65536 → parse_frame (build_frame frame) ≡ frame
unfolding parse_frame build_frame
parse-build_frame frame h = ground arith

-- A frame with a 16 bit address that went over the wire is the frame that was sent, whatever
-- follows its end byte.
pub frame_round_trip :
    (frame : Frame) (rest : Bytes)
    → frame.socket_address < 65536
    → parse_frame (deserialize_data (serialize_data (build_frame frame) ++ rest)) ≡ frame
frame_round_trip frame rest h = rw deserialize-serialize (parse-build_frame frame h)

-- An escape byte that no transposed byte follows makes the whole run unreadable: the result is
-- the null array, whatever was read before and whatever follows.
pub deserialize_bad_escape :
    (good : Bytes) (b : ℕ) (rest : Bytes)
    → b ≢ protocol_byte_transposed_end
    → b ≢ protocol_byte_transposed_esc
    → deserialize_data (serialize_loop good ++ protocol_byte_esc ∷ b ∷ rest) ≡ []
unfolding deserialize_data
deserialize_bad_escape good b rest h k =
    deserialize-serialize_loop [] good (protocol_byte_esc ∷ b ∷ rest) ∙ refused good
  where
    refused : (acc : Bytes) → deserialize_loop false acc (protocol_byte_esc ∷ b ∷ rest) ≡ []
    refused acc = unfold deserialize_loop in ground arith
