-- ===== src/Client/Packets.antt =====
-- libnymea-remoteproxy/tunnelproxy/tunnelproxyclient.cpp, processData: cutting the received bytes
-- into packets, SLIP encoded or as plain JSON. The state is the buffer and the packets found so
-- far.
use nymea_remoteproxy.Base.{
  ℕ, zero, suc, ◌+◌, ◌-◌, Bool, false, ◌&&◌, ◌||◌, Option, none, some, List, [], ◌∷◌, ◌++◌, ◌==◌,
  if◌then◌else◌, Bytes, length, is_empty, take, drop,
}
use mathlib.Core.Option
use nymea_remoteproxy.Slip.{protocol_byte_end, deserialize_data}

pub record Cut : Type 0 where
  pub packets : List Bytes
  pub buffer : Bytes

-- One round of the SLIP loop. The packet that is kept is the buffer itself: the unescaped frame is
-- only tested for null. An unreadable buffer is kept too.
unfoldable pub slip_step : Cut → ℕ → Cut
slip_step s byte =
    if byte == protocol_byte_end
    then (if is_empty s.buffer
        then s
        else if is_empty (deserialize_data s.buffer)
        then s
        else record { packets = s.packets ++ s.buffer ∷ []; buffer = [] })
    else record s { buffer = s.buffer ++ byte ∷ [] }

unfoldable pub slip_loop : Cut → Bytes → Cut
unfolding slip_step
slip_loop s [] = s
slip_loop s (byte ∷ rest) = slip_loop (slip_step s byte) rest

abbrev pub newline : ℕ
newline = 10

-- m_dataBuffer.indexOf("}\n{")
abbrev pub starts_with_split : Bytes → Bool
starts_with_split (a ∷ b ∷ c ∷ rest) = a == b'}' && (b == newline && c == b'{')
starts_with_split _ = false

unfoldable pub index_of_split : Bytes → Option ℕ
index_of_split [] = none
index_of_split (byte ∷ rest) =
    if starts_with_split (byte ∷ rest) then some 0 else Option.map suc (index_of_split rest)

-- QByteArray::left and QByteArray::right.
abbrev pub left : Bytes → ℕ → Bytes
left bytes n = take n bytes

abbrev pub right : Bytes → ℕ → Bytes
right bytes n = drop (length bytes - n) bytes

-- The while loop over the split positions; each round shortens the buffer, so its length is fuel
-- enough.
unfoldable pub split_loop : ℕ → Bytes → Cut
unfolding index_of_split
split_loop zero buffer = record { packets = []; buffer = buffer }
split_loop (suc fuel) buffer = elim (index_of_split buffer) [
  | none ↦ record { packets = []; buffer = buffer }
  | some i ↦
      let rest = split_loop fuel (right buffer (length buffer - i - 2)) in
      record { packets = left buffer (i + 1) ∷ rest.packets; buffer = rest.buffer }
]

-- endsWith("}\n") and endsWith("}")
unfoldable pub ends_with_brace_newline : Bytes → Bool
ends_with_brace_newline [] = false
ends_with_brace_newline (a ∷ []) = false
ends_with_brace_newline (a ∷ b ∷ []) = a == b'}' && b == newline
ends_with_brace_newline (a ∷ b ∷ c ∷ rest) = ends_with_brace_newline (b ∷ c ∷ rest)

unfoldable pub ends_with_brace : Bytes → Bool
ends_with_brace [] = false
ends_with_brace (a ∷ []) = a == b'}'
ends_with_brace (a ∷ b ∷ rest) = ends_with_brace (b ∷ rest)

unfoldable pub take_complete : Cut → Cut
unfolding ends_with_brace_newline ends_with_brace
take_complete s =
    if ends_with_brace_newline s.buffer || ends_with_brace s.buffer
    then record { packets = s.packets ++ s.buffer ∷ []; buffer = [] }
    else s

unfoldable pub json_cut : Bytes → Bytes → Cut
unfolding split_loop take_complete
json_cut buffer received =
    let all = buffer ++ received in take_complete (split_loop (length all) all)

unfoldable pub slip_cut : Bytes → Bytes → Cut
unfolding slip_loop
slip_cut buffer received = slip_loop (record { packets = []; buffer = buffer }) received
