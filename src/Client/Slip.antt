-- ===== src/Client/Slip.antt =====
-- What the SLIP branch of processData (tunnelproxyclient.cpp) does with a stream of bytes.
use nymea_remoteproxy.Base.{
  ℕ, ◌+◌, ◌≤◌, ◌<◌, ◌≡◌, refl, sym, ap, true, ◌∙◌, ◌≢◌, inl, inr, List, [], ◌∷◌, ◌++◌, ◌*◌, ◌↔◌,
  append-nil, append_assoc, ◌==◌, if◌then◌else◌, Bool-cases, Bytes, All, arith, length, map, concat,
}
use nymea_remoteproxy.Slip.{
  Frame, protocol_byte_end, protocol_byte_esc, protocol_byte_transposed_end,
  protocol_byte_transposed_esc, deserialize_data, serialize_loop, serialize_data, parse_frame,
  build_frame, serialize_byte,
}
use nymea_remoteproxy.Slip.RoundTrip.{
  parse-build_frame, length-serialize_loop, IsEndFree, serialize_loop-IsEndFree,
  deserialize-serialize_body, deserialize_bad_escape,
}
use nymea_remoteproxy.Client.Packets.{Cut, slip_step, slip_loop, slip_cut, json_cut}
use nymea_remoteproxy.Client.{TunnelProxyClient, process_data}

slip_loop-append :
    (s : Cut) (xs ys : Bytes) → slip_loop s (xs ++ ys) ≡ slip_loop (slip_loop s xs) ys
unfolding slip_loop
slip_loop-append s [] ys = refl
slip_loop-append s (x ∷ xs) ys = slip_loop-append (slip_step s x) xs ys

-- The packets that were found before stay in front.
slip_loop_shift :
    (ps : List Bytes) (s : Cut) (xs : Bytes)
    → slip_loop (record s { packets = ps ++ s.packets }) xs
      ≡ record (slip_loop s xs) { packets = ps ++ (slip_loop s xs).packets }
unfolding slip_loop
slip_loop_shift ps s [] = refl
slip_loop_shift ps s (x ∷ xs) =
    ap (λ c. slip_loop c xs) shifts ∙ slip_loop_shift ps (slip_step s x) xs
  where
    shifts :
        slip_step (record s { packets = ps ++ s.packets }) x
        ≡ record (slip_step s x) { packets = ps ++ (slip_step s x).packets }
    shifts = unfold slip_step in ground (arith, append_assoc ps s.packets (s.buffer ∷ []))

-- However the stream is broken into reads, the packets and the rest are the same.
pub slip_cut-append :
    (buffer xs ys : Bytes)
    → slip_cut buffer (xs ++ ys) ≡ (
        let first = slip_cut buffer xs in
        let second = slip_cut first.buffer ys in
        record { packets = first.packets ++ second.packets; buffer = second.buffer })
unfolding slip_cut
slip_cut-append buffer xs ys =
    slip_loop-append (record { packets = []; buffer = buffer }) xs ys
    ∙ (ap (λ c. slip_loop c ys)
          (λ i. record { packets = sym (append-nil first.packets) i; buffer = first.buffer })
        ∙ slip_loop_shift first.packets (record { packets = []; buffer = first.buffer }) ys)
  where
    first : Cut
    first = slip_loop (record { packets = []; buffer = buffer }) xs

-- Bytes with no end byte only fill the buffer.
pub slip_loop_fill :
    (s : Cut) (xs : Bytes) → IsEndFree xs → slip_loop s xs ≡ record s { buffer = s.buffer ++ xs }
unfolding slip_loop
slip_loop_fill s [] h = ap (λ b. record s { buffer = b }) (sym (append-nil s.buffer))
slip_loop_fill s (x ∷ xs) h =
    ap (λ c. slip_loop c xs) steps
    ∙ slip_loop_fill (record s { buffer = s.buffer ++ x ∷ [] }) xs h.1
    ∙ ap (λ b. record s { buffer = b }) (append_assoc s.buffer (x ∷ []) xs)
  where
    steps : slip_step s x ≡ record s { buffer = s.buffer ++ x ∷ [] }
    steps = unfold slip_step in ground (arith, h.0)

slip_loop_frame :
    (ps : List Bytes) (frame rest : Bytes)
    → frame ≢ []
    → slip_loop (record { packets = ps; buffer = [] }) (serialize_data frame ++ rest)
      ≡ slip_loop (record { packets = ps ++ serialize_loop frame ∷ []; buffer = [] }) rest
unfolding serialize_data
slip_loop_frame ps frame rest h = rw append_assoc (
    slip_loop-append (record { packets = ps; buffer = [] }) (serialize_loop frame)
      (protocol_byte_end ∷ rest)
    ∙ ap (λ c. slip_loop c (protocol_byte_end ∷ rest))
        (slip_loop_fill (record { packets = ps; buffer = [] }) (serialize_loop frame)
          (serialize_loop-IsEndFree frame))
    ∙ closes frame (serialize_loop frame) h (deserialize-serialize_body frame))
  where
    closes :
        (frame buffer : Bytes)
        → frame ≢ []
        → deserialize_data buffer ≡ frame
        → slip_loop (record { packets = ps; buffer = buffer }) (protocol_byte_end ∷ rest)
          ≡ slip_loop (record { packets = ps ++ buffer ∷ []; buffer = [] }) rest
    closes [] buffer n e = absurd (n refl)
    closes (x ∷ xs) [] n e = unfold deserialize_data in cc e
    closes (x ∷ xs) (b ∷ bs) n e = unfold slip_loop slip_step in rw e

-- A stream of serialized frames, and the beginning of a further one, is cut into one packet for
-- each frame that is not empty, in order. A packet is the escaped frame, not the frame.
pub slip_cut_frames :
    (frames : List Bytes) (tail : Bytes)
    → All (λ frame. frame ≢ []) frames
    → IsEndFree tail
    → slip_cut [] (concat (map serialize_data frames) ++ tail)
      ≡ record { packets = map serialize_loop frames; buffer = tail }
unfolding slip_cut
slip_cut_frames frames tail h free = go [] frames h
  where
    go :
        (ps frames : List Bytes)
        → All (λ frame. frame ≢ []) frames
        → slip_loop
            (record { packets = ps; buffer = [] })
            (concat (map serialize_data frames) ++ tail)
          ≡ record { packets = ps ++ map serialize_loop frames; buffer = tail }
    go ps [] h =
        slip_loop_fill (record { packets = ps; buffer = [] }) tail free
        ∙ (λ i. record { packets = sym (append-nil ps) i; buffer = tail })
    go ps (f ∷ frames) h = rw append_assoc (
        slip_loop_frame ps f (concat (map serialize_data frames) ++ tail) h.0
        ∙ go (ps ++ serialize_loop f ∷ []) frames h.1
        ∙ (λ i. record {
          packets = append_assoc ps (serialize_loop f ∷ []) (map serialize_loop frames) i;
          buffer = tail;
        }))

-- The bytes that escaping leaves alone.
abbrev pub IsPlain : Bytes → Type 0
IsPlain = All (λ b. (b ≢ protocol_byte_end) × (b ≢ protocol_byte_esc))

serialize_loop_plain : (bytes : Bytes) → IsPlain bytes → serialize_loop bytes ≡ bytes
unfolding serialize_loop serialize_byte
serialize_loop_plain [] h = refl
serialize_loop_plain (b ∷ bytes) h = ground (arith, serialize_loop_plain bytes h.1, h.0)

IsPlain-of_length : (bytes : Bytes) → length (serialize_loop bytes) ≡ length bytes → IsPlain bytes
unfolding serialize_loop serialize_byte
IsPlain-of_length [] h = tt
IsPlain-of_length (b ∷ bytes) h =
    ground (arith, IsPlain-of_length bytes, length-serialize_loop bytes)

length-parse_frame :
    (bytes : Bytes) → 2 ≤ length bytes → length (parse_frame bytes).payload + 2 ≡ length bytes
unfolding parse_frame
length-parse_frame [] h = absurd (omega arith)
length-parse_frame (a ∷ []) h = absurd (omega arith)
length-parse_frame (a ∷ b ∷ rest) h = omega arith

pub serialized_faithful_iff :
    (frame : Frame)
    → frame.socket_address < 65536
    → (parse_frame (serialize_loop (build_frame frame)) ≡ frame) ↔ IsPlain (build_frame frame)
serialized_faithful_iff frame h = (
  faithful,
  λ plain. rw (serialize_loop_plain (build_frame frame) plain) (parse-build_frame frame h),
)
  where
    long : length (build_frame frame) ≡ length frame.payload + 2
    long = unfold build_frame in omega arith

    faithful :
        parse_frame (serialize_loop (build_frame frame)) ≡ frame → IsPlain (build_frame frame)
    faithful e = IsPlain-of_length (build_frame frame) (
        omega (
          arith,
          long,
          ap (λ (f : Frame). length f.payload) e,
          length-serialize_loop (build_frame frame),
          length-parse_frame (serialize_loop (build_frame frame)),
        ))

-- A socket that speaks SLIP and holds no bytes takes one packet from a frame, which is still
-- escaped.
pub packets-serialize_data :
    (c : TunnelProxyClient) (bytes : Bytes)
    → c.slip_enabled ≡ true
    → c.data_buffer ≡ []
    → bytes ≢ []
    → (process_data (serialize_data bytes) c).1 ≡ serialize_loop bytes ∷ []
unfolding process_data
packets-serialize_data c bytes slip empty some_bytes =
    let sent = serialize_data bytes in
    ap (λ b. Cut.packets (if b then slip_cut c.data_buffer sent else json_cut c.data_buffer sent))
      slip
    ∙ ap (λ buffer. Cut.packets (slip_cut buffer sent)) empty
    ∙ ap (λ b. Cut.packets (slip_cut [] b)) (sym (append-nil sent) ∙ sym (append-nil (sent ++ [])))
    ∙ ap Cut.packets (slip_cut_frames (bytes ∷ []) [] (some_bytes, tt) tt)

-- A client that speaks SLIP and holds no bytes takes from the bytes of a frame, with a 16 bit
-- address, one packet; this is read as the frame that was sent exactly when no byte of it,
-- address included, is an end or an escape byte.
pub packet_faithful_iff :
    (c : TunnelProxyClient) (frame : Frame)
    → c.slip_enabled ≡ true
    → c.data_buffer ≡ []
    → frame.socket_address < 65536
    → (map parse_frame (process_data (serialize_data (build_frame frame)) c).1 ≡ frame ∷ [])
      ↔ IsPlain (build_frame frame)
unfolding build_frame
packet_faithful_iff c frame slip empty small =
    let packets =
      packets-serialize_data c (build_frame frame) slip empty (λ e. absurd (ground (arith, e))) in
    let once = serialized_faithful_iff frame small in
    (
      λ read. once.0 (head_of (ap (map parse_frame) (sym packets) ∙ read)),
      λ plain. ap (map parse_frame) packets ∙ ap (λ f. f ∷ []) (once.1 plain),
    )
  where
    head_of : {f g : Frame} → f ∷ [] ≡ g ∷ [] → f ≡ g
    head_of e = cc

-- A frame for a socket whose address has the end byte as its low byte, and neither the end nor the
-- escape byte as its high byte, is read as a frame for the socket whose address has the escape byte
-- there, with one byte more before the payload, which stays escaped.
pub packet_misrouted :
    (high : ℕ) (payload : Bytes)
    → high < 256
    → high ≢ protocol_byte_end
    → high ≢ protocol_byte_esc
    → let wrong = parse_frame (
        serialize_loop (
          build_frame
            (record { socket_address = high * 256 + protocol_byte_end; payload = payload }))) in
      (wrong.socket_address ≡ high * 256 + protocol_byte_esc)
      × (wrong.payload ≡ protocol_byte_transposed_end ∷ serialize_loop payload)
unfolding parse_frame build_frame serialize_loop serialize_byte
packet_misrouted high payload h n m = ground arith

abbrev pub without_ends : Bytes → Bytes
without_ends [] = []
without_ends (b ∷ bytes) =
    let rest = without_ends bytes in if b == protocol_byte_end then rest else b ∷ rest

-- No continuation of the buffer can be unescaped.
abbrev IsHopeless : Bytes → Type 0
IsHopeless buffer = (more : Bytes) → deserialize_data (buffer ++ more) ≡ []

IsHopeless-snoc : (buffer : Bytes) (b : ℕ) → IsHopeless buffer → IsHopeless (buffer ++ b ∷ [])
IsHopeless-snoc buffer b h more = rw append_assoc (h (b ∷ more))

slip_step_stuck :
    (buffer : Bytes) (b : ℕ)
    → IsHopeless buffer
    → slip_step (record { packets = []; buffer = buffer }) b
      ≡ record { packets = []; buffer = buffer ++ without_ends (b ∷ []) }
unfolding slip_step
slip_step_stuck buffer b h =
    let null = (rw append-nil at (h [])) in ground (arith, null, append-nil buffer)

slip_loop_stuck :
    (buffer received : Bytes)
    → IsHopeless buffer
    → slip_loop (record { packets = []; buffer = buffer }) received
      ≡ record { packets = []; buffer = buffer ++ without_ends received }
unfolding slip_loop
slip_loop_stuck buffer [] h = λ i. record { packets = []; buffer = sym (append-nil buffer) i }
slip_loop_stuck buffer (b ∷ received) h =
    ap (λ c. slip_loop c received) (slip_step_stuck buffer b h)
    ∙ (elim (Bool-cases (b == protocol_byte_end)) [
      | inl e ↦ rw (e, append-nil) (slip_loop_stuck buffer received h)
      | inr n ↦ rw n (
          slip_loop_stuck (buffer ++ b ∷ []) received (IsHopeless-snoc buffer b h)
          ∙ (rw append_assoc))
    ])

-- Once an escape byte that no transposed byte follows is in the buffer, after well escaped bytes,
-- no packet is ever cut again: whatever is received is added to the buffer, less its end bytes.
pub slip_cut_stuck :
    (good : Bytes) (b : ℕ) (rest received : Bytes)
    → b ≢ protocol_byte_transposed_end
    → b ≢ protocol_byte_transposed_esc
    → let buffer = serialize_loop good ++ (protocol_byte_esc ∷ b ∷ rest) in
      slip_cut buffer received ≡ record { packets = []; buffer = buffer ++ without_ends received }
unfolding slip_cut
slip_cut_stuck good b rest received h k =
    slip_loop_stuck (serialize_loop good ++ (protocol_byte_esc ∷ b ∷ rest)) received
      λ more. rw append_assoc (deserialize_bad_escape good b (rest ++ more) h k)
