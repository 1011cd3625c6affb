-- ===== src/Server/Changed.antt =====
-- What a handler of the server may do to the bookkeeping: it stays consistent, and its directory
-- changes by the moves of a directory.
use nymea_remoteproxy.Base.{◌≡◌, sym, subst}
use nymea_remoteproxy.Server.View.{View}
use nymea_remoteproxy.Server.Consistent.{IsConsistent}
use nymea_remoteproxy.Server.Directory.{Move, Moves, stays, moves, Moves-trans, directory}

pub record Changed (v v' : View) : Type 0 where
  pub consistent : IsConsistent v'
  pub steps : Moves (directory v) (directory v')

pub unchanged : {v : View} → IsConsistent v → Changed v v
unchanged h = record { consistent = h; steps = stays }

pub moved : {v v' : View} → IsConsistent v' → Move (directory v) (directory v') → Changed v v'
moved h m = record { consistent = h; steps = moves stays m }

pub Changed-trans : {v v' v'' : View} → Changed v v' → Changed v' v'' → Changed v v''
Changed-trans c c' = record { consistent = c'.consistent; steps = Moves-trans c.steps c'.steps }

-- The same bookkeeping in another state.
pub kept : {v₀ v v' : View} → v' ≡ v → Changed v₀ v → Changed v₀ v'
kept {v₀} e c = subst (Changed v₀) (sym e) c
