-- ===== src/Client/Fragments.antt =====
-- What the JSON branch of processData does with a fragmented stream.
use nymea_remoteproxy.Base.{
  ℕ, zero, suc, ◌+◌, ◌-◌, ◌≤◌, ◌≡◌, refl, ap, ◌⊎◌, inl, inr, Bool, true, false, List, [], ◌∷◌, ◌++◌,
  Option, none, some, ◌||◌, if◌then◌else◌, Bytes, arith, subst, length, length-drop, take, drop,
  Option-cases, Bool-cases,
}
use mathlib.Core.Option
use native.Mathlib.Numerals.{add-one}
use nymea_remoteproxy.Client.Packets.{
  Cut, newline, starts_with_split, index_of_split, right, split_loop, take_complete, json_cut,
  ends_with_brace, ends_with_brace_newline,
}

-- The packets in a row, with the newlines between them that the cutting dropped.
abbrev pub unsplit : List Bytes → Bytes → Bytes
unsplit [] tail = tail
unsplit (packet ∷ packets) tail = packet ++ (newline ∷ unsplit packets tail)

of_some : {i j : ℕ} → some i ≡ some j → i ≡ j
of_some e = cc

record IsSplit (bytes : Bytes) (i : ℕ) : Type 0 where
  fits : i + 3 ≤ length bytes
  parts : take (suc i) bytes ++ newline ∷ drop (suc (suc i)) bytes ≡ bytes

here : (x : ℕ) (rest : Bytes) → starts_with_split (x ∷ rest) ≡ true → IsSplit (x ∷ rest) 0
here x [] h = cc
here x (b ∷ []) h = cc
here x (b ∷ c ∷ rest) h = ground arith

there : (x : ℕ) (rest : Bytes) (i : ℕ) → IsSplit rest i → IsSplit (x ∷ rest) (suc i)
there x rest i h = record { fits = omega (arith, h.fits); parts = ap (◌∷◌ x) h.parts }

index_of_split_found : (bytes : Bytes) (i : ℕ) → index_of_split bytes ≡ some i → IsSplit bytes i
unfolding index_of_split
index_of_split_found [] i h = cc
index_of_split_found (x ∷ rest) i h =
    go (starts_with_split (x ∷ rest)) (index_of_split rest) refl (index_of_split_found rest) h
  where
    go :
        (starts : Bool) (later : Option ℕ)
        → starts_with_split (x ∷ rest) ≡ starts
        → ((j : ℕ) → later ≡ some j → IsSplit rest j)
        → (if starts then some 0 else Option.map suc later) ≡ some i
        → IsSplit (x ∷ rest) i
    go true later s found e = subst (IsSplit (x ∷ rest)) (of_some e) (here x rest s)
    go false none s found e = cc
    go false (some j) s found e =
        subst (IsSplit (x ∷ rest)) (of_some e) (there x rest j (found j refl))

-- What a round of the loop goes on with.
right_of_split :
    (bytes : Bytes) (i : ℕ)
    → IsSplit bytes i
    → right bytes (length bytes - i - 2) ≡ drop (suc (suc i)) bytes
right_of_split bytes i s =
    let e : length bytes - (length bytes - i - 2) ≡ suc (suc i) = omega (arith, s.fits) in
    ap (λ n. drop n bytes) e

split_loop_total :
    (fuel : ℕ) (bytes : Bytes)
    → length bytes ≤ fuel
    → index_of_split (split_loop fuel bytes).buffer ≡ none
unfolding split_loop
split_loop_total zero [] h = unfold index_of_split in refl
split_loop_total zero (x ∷ bytes) h = absurd (omega arith)
split_loop_total (suc fuel) bytes h = elim (Option-cases (index_of_split bytes)) [
  | inl e ↦ rw (e, split_loop) e
  | inr (i, e) ↦
      let s = index_of_split_found bytes i e in
      rw (e, split_loop)
        (rw (right_of_split bytes i s) (
          split_loop_total fuel (drop (suc (suc i)) bytes)
            (omega (arith, s.fits, length-drop (suc (suc i)) bytes))))
]

unsplit-split_loop :
    (fuel : ℕ) (bytes : Bytes)
    → unsplit (split_loop fuel bytes).packets (split_loop fuel bytes).buffer ≡ bytes
unfolding split_loop
unsplit-split_loop zero bytes = refl
unsplit-split_loop (suc fuel) bytes = elim (Option-cases (index_of_split bytes)) [
  | inl e ↦ rw (e, split_loop)
  | inr (i, e) ↦
      let s = index_of_split_found bytes i e in
      rw (e, split_loop)
        (rw (right_of_split bytes i s, add-one, unsplit-split_loop fuel (drop (suc (suc i)) bytes))
          s.parts)
]

-- The cut is complete: the rest has no split position, and does not end a packet.
pub json_cut_complete :
    (buffer received : Bytes)
    → let rest = (json_cut buffer received).buffer in
      (index_of_split rest ≡ none)
      × (ends_with_brace rest ≡ false)
      × (ends_with_brace_newline rest ≡ false)
unfolding json_cut take_complete
json_cut_complete buffer received =
    let all = buffer ++ received in
    go (split_loop (length all) all) (split_loop_total (length all) all (omega arith))
  where
    go :
        (s : Cut)
        → index_of_split s.buffer ≡ none
        → let rest = (take_complete s).buffer in
          (index_of_split rest ≡ none)
          × (ends_with_brace rest ≡ false)
          × (ends_with_brace_newline rest ≡ false)
    go s h = unfold index_of_split ends_with_brace ends_with_brace_newline in ground arith

-- No byte is lost but the newlines between packets: the packets and the rest, put in a row, are
-- the buffer and the received bytes. If the end is a packet too, the rest is empty.
pub json_cut_conserves :
    (buffer received : Bytes)
    → let cut = json_cut buffer received in
      (unsplit cut.packets cut.buffer ≡ buffer ++ received)
      ⊎ ((packets : List Bytes) × (last : Bytes) × (cut.packets ≡ packets ++ last ∷ [])
          × (cut.buffer ≡ [])
          × (unsplit packets last ≡ buffer ++ received))
unfolding json_cut take_complete
json_cut_conserves buffer received =
    let all = buffer ++ received in
    let s = split_loop (length all) all in
    let whole = unsplit-split_loop (length all) all in
    elim (Bool-cases (ends_with_brace_newline s.buffer || ends_with_brace s.buffer)) [
      | inl e ↦ inr (s.packets, s.buffer, (rw e), (rw e), whole)
      | inr n ↦ inl (rw n whole)
    ]
