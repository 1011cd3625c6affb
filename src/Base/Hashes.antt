-- ===== src/Base/Hashes.antt =====
-- QHash with numbers as keys (uuids, socket addresses): an association list with one law for each
-- operation. The order of iteration is that of the list; Qt leaves it open.
use Prim.Native.Nat.{ℕ, ◌≤◌}
use mathlib.Core.Path.{◌≡◌, refl}
use mathlib.Core.Bool.{Bool}
use mathlib.Core.Option
use mathlib.Core.Option.{Option, none, some}
use mathlib.Core.List.{List, [], ◌∷◌, map}
use native.Mathlib.Omega.{arith}
use nymea_remoteproxy.Base.Tests.{◌==◌, if◌then◌else◌, is_some}
use nymea_remoteproxy.Base.Lists.{length}

abbrev pub Hash {ℓ} : Type ℓ → Type ℓ
Hash V = List (ℕ × V)

module _ {ℓ} {V : Type ℓ} where
  unfoldable pub value : Hash V → ℕ → Option V
  value [] k = none
  value ((j, v) ∷ m) k = if j == k then some v else value m k

  unfoldable pub contains : Hash V → ℕ → Bool
  contains m k = is_some (value m k)

  unfoldable pub remove : Hash V → ℕ → Hash V
  remove [] k = []
  remove ((j, v) ∷ m) k = let rest = remove m k in if j == k then rest else (j, v) ∷ rest

  unfoldable pub insert : Hash V → ℕ → V → Hash V
  insert m k v = (k, v) ∷ remove m k

  -- A write through the pointer that is stored under `k`.
  unfoldable pub modify : Hash V → ℕ → (V → V) → Hash V
  modify [] k f = []
  modify ((j, v) ∷ m) k f = (if j == k then (j, f v) else (j, v)) ∷ modify m k f

  unfoldable pub keys : Hash V → List ℕ
  keys m = map (λ e. e.0) m

  unfoldable pub values : Hash V → List V
  values m = map (λ e. e.1) m

  abbrev pub count : Hash V → ℕ
  count m = length m

  pub value-remove :
      (m : Hash V) (k j : ℕ) → value (remove m k) j ≡ (if k == j then none else value m j)
  unfolding value remove
  value-remove [] k j = ground arith
  value-remove ((i, v) ∷ m) k j = ground (arith, value-remove m k j)

  pub value-insert :
      (m : Hash V) (k : ℕ) (v : V) (j : ℕ)
      → value (insert m k v) j ≡ (if k == j then some v else value m j)
  unfolding value insert
  value-insert m k v j = ground (arith, value-remove m k j)

  pub value-modify :
      (m : Hash V) (k : ℕ) (f : V → V) (j : ℕ)
      → value (modify m k f) j ≡ (if k == j then Option.map f (value m j) else value m j)
  unfolding value modify
  value-modify [] k f j = ground arith
  value-modify ((i, v) ∷ m) k f j = ground (arith, value-modify m k f j)

  pub contains_lem : (m : Hash V) (k : ℕ) → contains m k ≡ is_some (value m k)
  unfolding contains
  contains_lem m k = refl

  pub count-remove-le : (m : Hash V) (k : ℕ) → count (remove m k) ≤ count m
  unfolding remove
  count-remove-le [] k = omega arith
  count-remove-le ((i, v) ∷ m) k = ground (arith, count-remove-le m k)

  pub count-modify : (m : Hash V) (k : ℕ) (f : V → V) → count (modify m k f) ≡ count m
  unfolding modify
  count-modify [] k f = refl
  count-modify ((i, v) ∷ m) k f = ground (arith, count-modify m k f)

pub ruleset hash_laws = (value-remove, value-insert, value-modify, contains_lem)
