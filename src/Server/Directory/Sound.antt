-- ===== src/Server/Directory/Sound.antt =====
-- The moves of a directory keep what a directory promises.
use nymea_remoteproxy.Base.{
  ℕ, ◌≡◌, ◌≢◌, refl, false, Option, none, some, if◌then◌else◌, ◌==◌, arith, inl, inr, Bool-cases,
}
use nymea_remoteproxy.Server.Directory.{
  Party, unregistered, serving, visiting, Directory, nobody, uuid_in, without_server, Move, arrives,
  becomes_server, becomes_client, leaves, server_leaves, Moves, stays, moves, IsSound,
}

uuid-without_server : (x : ℕ) (p : Option Party) → uuid_in (without_server x p) ≡ uuid_in p
uuid-without_server x none = refl
uuid-without_server x (some unregistered) = refl
uuid-without_server x (some (serving u)) = refl
uuid-without_server x (some (visiting u none)) = refl
uuid-without_server x (some (visiting u (some y))) = ground arith

still_served :
    (x : ℕ) (p : Option Party) (u y : ℕ)
    → without_server x p ≡ some (visiting u (some y))
    → (p ≡ some (visiting u (some y))) × ((y == x) ≡ false)
still_served x none u y e = absurd (ground arith)
still_served x (some unregistered) u y e = absurd (ground arith)
still_served x (some (serving v)) u y e = absurd (ground arith)
still_served x (some (visiting v none)) u y e = absurd (ground arith)
still_served x (some (visiting v (some z))) u y e = ground arith

serving_stays : (x : ℕ) (p : Option Party) (y : ℕ) → p ≡ some (serving y) → without_server x p ≡ p
serving_stays x none y e = refl
serving_stays x (some unregistered) y e = refl
serving_stays x (some (serving u)) y e = refl
serving_stays x (some (visiting u l)) y e = absurd (ground arith)

-- One entry is written, which goes by no uuid that is in use.
module _ (d d' : Directory) (id : ℕ) (p : Option Party) (h : IsSound d)
    (write : (j : ℕ) → d' j ≡ (if id == j then p else d j)) where
  written-IsSound :
      ((j u : ℕ) → uuid_in p ≡ some u → uuid_in (d j) ≢ some u)
      → ((u x : ℕ) → p ≡ some (visiting u (some x)) → (k : ℕ) × (d k ≡ some (serving x)))
      → ((u : ℕ) → d id ≢ some (serving u))
      → IsSound d'
  written-IsSound fresh link before = record {
    one_each =
        λ i j u e f. ground (arith, write i, write j, h.one_each i j u, fresh i u, fresh j u);
    served = λ i u x e. elim (Bool-cases (id == i)) [
      | inl hit ↦ kept x (link u x (ground (arith, hit, write i, e)))
      | inr miss ↦ kept x (h.served i u x (ground (arith, miss, write i, e)))
    ];
  }
    where
      kept : (x : ℕ) → (k : ℕ) × (d k ≡ some (serving x)) → (k : ℕ) × (d' k ≡ some (serving x))
      kept x (k, e) = (k, ground (arith, write k, before x, e))

pub Move-IsSound : {d d' : Directory} → Move d d' → IsSound d → IsSound d'
Move-IsSound {d} {d'} (arrives id e write) h =
    written-IsSound d d' id (some unregistered) h write (λ j u p. absurd (ground arith))
      (λ u x p. absurd (ground arith)) (λ u p. ground (arith, e, p))
Move-IsSound {d} {d'} (becomes_server id u e unused write) h =
    written-IsSound d d' id (some (serving u)) h write (λ j v p. ground (arith, unused j, p))
      (λ v x p. absurd (ground arith)) (λ v p. ground (arith, e, p))
Move-IsSound {d} {d'} (becomes_client id u x k e unused there write) h =
    written-IsSound d d' id (some (visiting u (some x))) h write
      (λ j v p. ground (arith, unused j, p)) (λ v y p. (k, ground (arith, there, p)))
      (λ v p. ground (arith, e, p))
Move-IsSound {d} {d'} (leaves id e write) h =
    written-IsSound d d' id none h write (λ j u p. absurd (ground arith))
      (λ u x p. absurd (ground arith)) e
Move-IsSound {d} {d'} (server_leaves id x e write) h = record {
  one_each = λ i j u f g. ground (
    arith,
    write i,
    write j,
    h.one_each i j u,
    uuid-without_server x (d i),
    uuid-without_server x (d j),
  );
  served = λ i u y f. stays_served i u y f;
}
  where
    stays_served :
        (i u y : ℕ) → d' i ≡ some (visiting u (some y)) → (k : ℕ) × (d' k ≡ some (serving y))
    stays_served i u y f =
        let (before, other) = still_served x (d i) u y (ground (arith, write i, f)) in
        let (k, there) = h.served i u y before in
        (k, ground (arith, write k, there, e, other, serving_stays x (d k) y there))

nobody-IsSound : IsSound nobody
nobody-IsSound = record {
  one_each = λ i j u e f. absurd (ground arith);
  served = λ i u x e. absurd (ground arith);
}

-- A directory that was empty once is sound.
pub Moves-IsSound : {d : Directory} → Moves nobody d → IsSound d
Moves-IsSound stays = nobody-IsSound
Moves-IsSound (moves m step) = Move-IsSound step (Moves-IsSound m)
