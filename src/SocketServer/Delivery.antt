-- ===== src/SocketServer/Delivery.antt =====
-- What a server behind the proxy does with the frames of the proxy
-- (tunnelproxysocketserver.cpp: onConnectionDataAvailable).
use nymea_remoteproxy.Base.{
  ℕ, ◌≡◌, ◌≢◌, ◌∙◌, refl, ◌<◌, true, false, List, [], ◌∷◌, ◌++◌, map, concat, append-nil,
  append_assoc, value, Bytes, All, arith, ◌==◌, ap, sym, is_some, is_empty, inl, inr, Option-cases,
}
use nymea_remoteproxy.Slip.{
  Frame, protocol_byte_end, protocol_byte_esc, serialize_byte, serialize_loop, serialize_data,
  deserialize_data, build_frame, parse_frame,
}
use nymea_remoteproxy.Slip.RoundTrip.{
  IsEndFree, serialize_loop-IsEndFree, deserialize-serialize_body, parse-build_frame,
}
use nymea_remoteproxy.Variant.{Qt}
use nymea_remoteproxy.SocketServer.{
  TunnelProxySocketServer, state_running, same_state, Signal, data_received, signal,
}
use nymea_remoteproxy.SocketServer.Slots.{
  on_frame_received, on_byte, on_bytes, on_connection_data_available,
}

abbrev pub holding : Bytes → TunnelProxySocketServer → TunnelProxySocketServer
holding buffer s = record s { data_buffer = buffer }

-- A frame with an escape byte that the byte after it does not complete.
abbrev pub bad_frame : Bytes → ℕ → Bytes
bad_frame good bad = (serialize_loop good ++ protocol_byte_esc ∷ bad ∷ []) ++ protocol_byte_end ∷ []

-- A frame for a client that is known here.
abbrev pub IsKnown : TunnelProxySocketServer → Frame → Type 0
IsKnown s frame =
    (frame.socket_address ≢ 0)
    × (frame.socket_address < 65536)
    × (is_some (value s.tunnel_proxy_sockets frame.socket_address) ≡ true)

abbrev pub frame_signals : List Frame → List Signal
frame_signals frames = map (λ f. data_received f.socket_address f.payload) frames

module _ (q : Qt) where
  kept_byte :
      (b : ℕ) (buffer : Bytes) (s : TunnelProxySocketServer)
      → b ≢ protocol_byte_end
      → on_byte q b (holding buffer s) ≡ holding (buffer ++ b ∷ []) s
  unfolding on_byte
  kept_byte b buffer s other =
      let plain : (b == protocol_byte_end) ≡ false = ground (arith, other) in rw plain

  pub buffered :
      (bytes rest buffer : Bytes) (s : TunnelProxySocketServer)
      → IsEndFree bytes
      → on_bytes q (bytes ++ rest) (holding buffer s)
        ≡ on_bytes q rest (holding (buffer ++ bytes) s)
  unfolding on_bytes
  buffered [] rest buffer s free = rw append-nil
  buffered (b ∷ bytes) rest buffer s free =
      ap (on_bytes q (bytes ++ rest)) (kept_byte b buffer s free.0)
      ∙ buffered bytes rest (buffer ++ b ∷ []) s free.1
      ∙ ap (λ l. on_bytes q rest (holding l s)) (append_assoc buffer (b ∷ []) bytes)

  closed :
      (rest buffer : Bytes) (s : TunnelProxySocketServer) (frame_data : Bytes)
      → is_empty buffer ≡ false
      → deserialize_data buffer ≡ frame_data
      → is_empty frame_data ≡ false
      → on_bytes q (protocol_byte_end ∷ rest) (holding buffer s)
        ≡ on_bytes q rest
            (holding [] (on_frame_received q (parse_frame frame_data) (holding buffer s)))
  unfolding on_bytes on_byte
  closed rest buffer s frame_data some_bytes read some_data = rw (some_bytes, read, some_data)

  escaped_bytes : (frame : Frame) → is_empty (serialize_loop (build_frame frame)) ≡ false
  unfolding serialize_loop serialize_byte build_frame
  escaped_bytes frame = ground arith

  built_bytes : (frame : Frame) → is_empty (build_frame frame) ≡ false
  unfolding build_frame
  built_bytes frame = refl

  frame_read :
      (frame : Frame) (rest : Bytes) (s : TunnelProxySocketServer)
      → frame.socket_address < 65536
      → on_bytes q (serialize_data (build_frame frame) ++ rest) (holding [] s)
        ≡ on_bytes q rest (
            holding [] (on_frame_received q frame (holding (serialize_loop (build_frame frame)) s)))
  unfolding serialize_data
  frame_read frame rest s small =
      let escaped = serialize_loop (build_frame frame) in
      ap (λ l. on_bytes q l (holding [] s)) (append_assoc escaped (protocol_byte_end ∷ []) rest)
      ∙ buffered escaped (protocol_byte_end ∷ rest) [] s
          (serialize_loop-IsEndFree (build_frame frame))
      ∙ closed rest escaped s (build_frame frame) (escaped_bytes frame)
          (deserialize-serialize_body (build_frame frame)) (built_bytes frame)
      ∙ ap (λ f. on_bytes q rest (holding [] (on_frame_received q f (holding escaped s))))
          (parse-build_frame frame small)

  emitted :
      (frame : Frame) (buffer : Bytes) (s : TunnelProxySocketServer)
      → frame.socket_address ≢ 0
      → is_some (value s.tunnel_proxy_sockets frame.socket_address) ≡ true
      → on_frame_received q frame (holding buffer s)
        ≡ holding buffer (signal (data_received frame.socket_address frame.payload) s)
  unfolding on_frame_received
  emitted frame buffer s other known =
      let tunnelled : (frame.socket_address == 0) ≡ false = ground (arith, other) in
      elim (Option-cases (value s.tunnel_proxy_sockets frame.socket_address)) [
        | inl none_e ↦ absurd (ground (arith, none_e, known))
        | inr (socket, found) ↦ rw (tunnelled, found)
      ]

  emitted_in_order :
      (frames : List Frame) (s : TunnelProxySocketServer)
      → All (IsKnown s) frames
      → on_bytes q (concat (map (λ f. serialize_data (build_frame f)) frames)) (holding [] s)
        ≡ holding [] (record s { signals = s.signals ++ frame_signals frames })
  unfolding on_bytes
  emitted_in_order [] s known =
      ap (λ l. holding [] (record s { signals = l })) (sym (append-nil s.signals))
  emitted_in_order (f ∷ frames) s known =
      let escaped = serialize_loop (build_frame f) in
      let rest = concat (map (λ f. serialize_data (build_frame f)) frames) in
      frame_read f rest s known.0.1
      ∙ ap (λ v. on_bytes q rest (holding [] v)) (emitted f escaped s known.0.0 known.0.2)
      ∙ emitted_in_order frames (signal (data_received f.socket_address f.payload) s) known.1
      ∙ ap (λ l. holding [] (record s { signals = l }))
          (append_assoc s.signals (data_received f.socket_address f.payload ∷ [])
            (frame_signals frames))

  pub running_reads :
      (bytes : Bytes) (s : TunnelProxySocketServer)
      → same_state s.state state_running ≡ true
      → on_connection_data_available q bytes s
        ≡ on_bytes q bytes (record s { keep_alive_timer = true })
  unfolding on_connection_data_available
  running_reads bytes s runs = rw runs

  -- When a server behind the proxy is running and holds no bytes, it reads any number of frames that
  -- arrive together, each with an address below 2 ^ 16 other than 0 that belongs to a client that is
  -- known to it: it emits the payload of each frame with the frame's address, in the order of the
  -- frames, it holds no bytes afterwards, starts its keep-alive timer, and changes nothing else.
  pub frames_delivered :
      (frames : List Frame) (s : TunnelProxySocketServer)
      → s.data_buffer ≡ []
      → same_state s.state state_running ≡ true
      → All (IsKnown s) frames
      → on_connection_data_available q (concat (map (λ f. serialize_data (build_frame f)) frames)) s
        ≡ record s {
          keep_alive_timer = true;
          data_buffer = [];
          signals = s.signals ++ frame_signals frames;
        }
  frames_delivered frames s empty runs known =
      let bytes = concat (map (λ f. serialize_data (build_frame f)) frames) in
      let s' = record s { keep_alive_timer = true } in
      running_reads bytes s runs
      ∙ ap (λ l. on_bytes q bytes (holding l s')) empty
      ∙ emitted_in_order frames s' known
