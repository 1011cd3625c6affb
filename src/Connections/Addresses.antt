-- ===== src/Connections/Addresses.antt =====
-- Which addresses getFreeAddress gives out.
use nymea_remoteproxy.Base.{
  ℕ, zero, suc, ◌+◌, ◌%◌, ◌^◌, ◌<◌, ◌≤◌, ◌≡◌, ◌≢◌, ◌∙◌, refl, sym, ap, true, false, List, [], ◌∷◌,
  Hash, value, contains, keys, count, if◌then◌else◌, arith, length, inl, inr, member, remove_all,
  Bool-cases,
}
use nymea_remoteproxy.Connections.{TunnelProxyServerConnection, skip_used, get_free_address}

-- What the loop skips: the addresses in use, 0 and 0xFFFF.
abbrev taken : Hash ℕ → List ℕ
taken used = 0 ∷ 0xFFFF ∷ keys used

contains-keys : (used : Hash ℕ) (a : ℕ) → contains used a ≡ member a (keys used)
unfolding contains value keys
contains-keys [] a = refl
contains-keys ((k, v) ∷ used) a = ground (arith, contains-keys used a)

count-keys : (used : Hash ℕ) → length (keys used) ≡ count used
unfolding keys
count-keys [] = refl
count-keys (e ∷ used) = ap suc (count-keys used)

-- The loop over a plain list of taken addresses.
skip : ℕ → List ℕ → ℕ → ℕ
skip zero bad a = a
skip (suc n) bad a = let next = skip n bad ((a + 1) % 2 ^ 16) in if member a bad then next else a

skip_used-skip : (n : ℕ) (used : Hash ℕ) (a : ℕ) → skip_used n used a ≡ skip n (taken used) a
unfolding skip_used skip
skip_used-skip zero used a = refl
skip_used-skip (suc n) used a =
    ground (arith, contains-keys used a, skip_used-skip n used ((a + 1) % 2 ^ 16))

member-remove_all : (x y : ℕ) (bad : List ℕ) → x ≢ y → member x (remove_all y bad) ≡ member x bad
member-remove_all x y [] h = refl
member-remove_all x y (b ∷ bad) h = ground (arith, member-remove_all x y bad h)

length-remove_all-le : (x : ℕ) (bad : List ℕ) → length (remove_all x bad) ≤ length bad
length-remove_all-le x [] = omega arith
length-remove_all-le x (b ∷ bad) = ground (arith, length-remove_all-le x bad)

length-remove_all :
    (x : ℕ) (bad : List ℕ) → member x bad ≡ true → length (remove_all x bad) < length bad
length-remove_all x [] h = cc
length-remove_all x (b ∷ bad) h =
    ground (arith, length-remove_all x bad, length-remove_all-le x bad)

-- The loop ends at most n addresses further on.
skip_reaches :
    (n : ℕ) (bad : List ℕ) (a : ℕ)
    → a < 2 ^ 16
    → (k : ℕ) × (k ≤ n) × (skip n bad a ≡ (a + k) % 2 ^ 16)
unfolding skip
skip_reaches zero bad a h = (0, omega arith, omega arith)
skip_reaches (suc n) bad a h =
    let (k, le, e) = skip_reaches n bad ((a + 1) % 2 ^ 16) (omega arith) in
    elim (Bool-cases (member a bad)) [
      | inl hit ↦ (suc k, omega arith, rw hit (omega (arith, e)))
      | inr miss ↦ (0, omega arith, rw miss (omega arith))
    ]

-- An address that the loop does not come to may be left out of the list.
skip-remove_all :
    (n : ℕ) (bad : List ℕ) (a x : ℕ)
    → a < 2 ^ 16
    → ((k : ℕ) → k < n → (a + k) % 2 ^ 16 ≢ x)
    → skip n bad a ≡ skip n (remove_all x bad) a
unfolding skip
skip-remove_all zero bad a x h away = refl
skip-remove_all (suc n) bad a x h away =
    let rest =
      skip-remove_all n bad ((a + 1) % 2 ^ 16) x (omega arith)
        (λ k lt e. away (suc k) (omega arith) (omega (arith, e))) in
    let other : a ≢ x = λ e. away 0 (omega arith) (omega (arith, e)) in
    ground (arith, rest, member-remove_all a x bad other)

-- With no more taken addresses than rounds the loop ends on one that is not taken.
skip_fresh :
    (n : ℕ) (bad : List ℕ) (a : ℕ)
    → a < 2 ^ 16
    → n < 2 ^ 16
    → length bad ≤ n
    → member (skip n bad a) bad ≡ false
unfolding skip
skip_fresh zero [] a h small le = refl
skip_fresh zero (b ∷ bad) a h small le = absurd (omega arith)
skip_fresh (suc n) bad a h small le = elim (Bool-cases (member a bad)) [
  | inr miss ↦ rw miss miss
  | inl hit ↦
      let next = (a + 1) % 2 ^ 16 in
      let ih =
        skip_fresh n (remove_all a bad) next (omega arith) (omega arith)
          (omega (arith, length-remove_all a bad hit)) in
      let same = skip-remove_all n bad next a (omega arith) (λ k lt e. absurd (omega (arith, e))) in
      let (k, kle, e) = skip_reaches n bad next (omega arith) in
      let other : skip n bad next ≢ a = λ eq. absurd (omega (arith, eq, e)) in
      rw hit (
        sym (member-remove_all (skip n bad next) a bad other)
        ∙ ap (λ y. member y (remove_all a bad)) same
        ∙ ih)
]

-- While at most 98 addresses are in use at a server with the limit 100, the address that is given
-- out is not in use there, fits 16 bits, and is neither 0 nor 0xFFFF.
pub get_free_address_fresh :
    (s : TunnelProxyServerConnection)
    → s.connection_limit ≡ 100
    → count s.client_connections_addresses ≤ 98
    → let address = (get_free_address s).1 in
      (contains s.client_connections_addresses address ≡ false)
      × (address ≢ 0)
      × (address ≢ 0xFFFF)
      × (address < 2 ^ 16)
unfolding get_free_address
get_free_address_fresh s limit few = rw limit (rw (skip_used-skip 100 used counter) parts)
  where
    used : Hash ℕ
    used = s.client_connections_addresses

    counter : ℕ
    counter = (s.current_address_counter + 1) % 2 ^ 16

    fresh : member (skip 100 (taken used) counter) (taken used) ≡ false
    fresh =
        skip_fresh 100 (taken used) counter (omega arith) (omega arith)
          (omega (arith, count-keys used))

    parts :
        (contains used (skip 100 (taken used) counter) ≡ false)
        × (skip 100 (taken used) counter ≢ 0)
        × (skip 100 (taken used) counter ≢ 0xFFFF)
        × (skip 100 (taken used) counter < 2 ^ 16)
    parts =
        let (k, le, e) = skip_reaches 100 (taken used) counter (omega arith) in
        ground (arith, fresh, e, contains-keys used (skip 100 (taken used) counter))

skip_used_all :
    (n : ℕ) (used : Hash ℕ) (a : ℕ)
    → a < 2 ^ 16
    → ((k : ℕ) → k ≤ n → contains used ((a + k) % 2 ^ 16) ≡ true)
    → contains used (skip_used n used a) ≡ true
unfolding skip_used
skip_used_all zero used a h all =
    let e : a ≡ (a + 0) % 2 ^ 16 = omega arith in rw e (all 0 (omega arith))
skip_used_all (suc n) used a h all =
    let e : a ≡ (a + 0) % 2 ^ 16 = omega arith in
    let first : contains used a ≡ true = rw e (all 0 (omega arith)) in
    rw first (
      skip_used_all n used ((a + 1) % 2 ^ 16) (omega arith) λ k le.
        let shift : ((a + 1) % 2 ^ 16 + k) % 2 ^ 16 ≡ (a + suc k) % 2 ^ 16 = omega arith in
        rw shift (all (suc k) (omega arith)))

-- The limit 100 bounds the search only: where the 101 addresses after the counter are all in use,
-- the address that is given out is in use too.
pub get_free_address_collides :
    (s : TunnelProxyServerConnection)
    → s.connection_limit ≡ 100
    → ((k : ℕ)
        → k ≤ 100
        → contains s.client_connections_addresses ((s.current_address_counter + 1 + k) % 2 ^ 16)
          ≡ true)
    → contains s.client_connections_addresses (get_free_address s).1 ≡ true
unfolding get_free_address
get_free_address_collides s limit all =
    let counter = (s.current_address_counter + 1) % 2 ^ 16 in
    rw limit (
      skip_used_all 100 s.client_connections_addresses counter (omega arith) λ k le.
        let shift : (counter + k) % 2 ^ 16 ≡ (s.current_address_counter + 1 + k) % 2 ^ 16 =
          omega arith in
        rw shift (all k le))
