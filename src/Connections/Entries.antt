-- ===== src/Connections/Entries.antt =====
-- The client connections of a server connection (tunnelproxyserverconnection.cpp): every entry
-- stands under its own uuid, so the values that the server loops over are the keys.
use nymea_remoteproxy.Base.{
  ℕ, ◌≡◌, ◌≤◌, ◌<◌, refl, true, false, Option, none, some, [], ◌∷◌, Hash, value, insert, remove,
  values, is_some, member, All, arith, ◌==◌, count, value-remove, count-remove-le,
}

pub IsNamed : Hash ℕ → Type 0
IsNamed m = All (λ e. e.0 ≡ e.1) m

pub IsNamed-nil : IsNamed []
unfolding IsNamed
IsNamed-nil = ground arith

pub IsNamed-remove : (m : Hash ℕ) (k : ℕ) → IsNamed m → IsNamed (remove m k)
unfolding IsNamed remove
IsNamed-remove [] k h = ground arith
IsNamed-remove ((j, v) ∷ m) k h = ground (arith, IsNamed-remove m k)

pub IsNamed-insert : (m : Hash ℕ) (k : ℕ) → IsNamed m → IsNamed (insert m k k)
unfolding IsNamed insert
IsNamed-insert m k h = (refl, IsNamed-remove m k h)

pub member-values : (m : Hash ℕ) (u : ℕ) → IsNamed m → member u (values m) ≡ is_some (value m u)
unfolding IsNamed values value
member-values [] u h = refl
member-values ((j, v) ∷ m) u h = ground (arith, member-values m u)

pub value-IsNamed : (m : Hash ℕ) (k u : ℕ) → IsNamed m → value m k ≡ some u → k ≡ u
unfolding IsNamed value
value-IsNamed [] k u h e = ground arith
value-IsNamed ((j, v) ∷ m) k u h e = ground (arith, value-IsNamed m k u)

-- No address stands twice in a hash.
pub IsDistinct : Hash ℕ → Type 0
IsDistinct [] = Unit
IsDistinct ((k, v) ∷ m) = (value m k ≡ none) × IsDistinct m

pub IsDistinct-nil : IsDistinct []
unfolding IsDistinct
IsDistinct-nil = ground arith

pub IsDistinct-remove : (m : Hash ℕ) (k : ℕ) → IsDistinct m → IsDistinct (remove m k)
unfolding IsDistinct remove
IsDistinct-remove [] k h = ground arith
IsDistinct-remove ((j, v) ∷ m) k h = ground (arith, IsDistinct-remove m k, value-remove m k j)

pub IsDistinct-insert : (m : Hash ℕ) (k v : ℕ) → IsDistinct m → IsDistinct (insert m k v)
unfolding IsDistinct insert
IsDistinct-insert m k v h = ground (arith, IsDistinct-remove m k, value-remove m k k)

count-remove-lt :
    {V : Type 0} (m : Hash V) (k : ℕ) → is_some (value m k) ≡ true → count (remove m k) < count m
unfolding value remove
count-remove-lt [] k e = ground arith
count-remove-lt ((j, v) ∷ m) k e = ground (arith, count-remove-lt m k, count-remove-le m k)

-- Where every entry has a partner in n that knows the entry's key, n has as many entries at least.
pub count-partners :
    {V : Type 0} (m : Hash ℕ) (n : Hash V) (back : ℕ → Option ℕ)
    → IsDistinct m
    → ((a u : ℕ) → value m a ≡ some u → (j : ℕ) × (is_some (value n j) ≡ true) × (back j ≡ some a))
    → count m ≤ count n
unfolding IsDistinct value
count-partners [] n back d partner = omega arith
count-partners ((k, v) ∷ m) n back d partner =
    let (j, there, knows) = partner k v (ground arith) in
    let less = count-remove-lt n j there in
    let rest = count-partners m (remove n j) back d.1 (λ a u e.
      let other : (k == a) ≡ false = ground (arith, d.0, e) in
      let (i, here, e') = partner a u (ground (arith, other)) in
      (i, ground (arith, value-remove n j i), e')) in
    omega arith
