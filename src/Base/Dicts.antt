-- ===== src/Base/Dicts.antt =====
-- QHash with texts as keys: an association list with one law for each operation.
use Prim.Native.String.{String}
use mathlib.Core.Option.{Option, none, some}
use mathlib.Core.List.{List, [], ◌∷◌}
use text.Mathlib.Text.{◌==◌ as str_eq}
use nymea_remoteproxy.Base.Tests.{if◌then◌else◌}

abbrev pub Dict {ℓ} : Type ℓ → Type ℓ
Dict V = List (String × V)

module _ {ℓ} {V : Type ℓ} where
  abbrev pub get : Dict V → String → Option V
  get [] k = none
  get ((j, v) ∷ d) k = if str_eq j k then some v else get d k

  abbrev pub without : Dict V → String → Dict V
  without [] k = []
  without ((j, v) ∷ d) k = let rest = without d k in if str_eq j k then rest else (j, v) ∷ rest

  abbrev pub put : Dict V → String → V → Dict V
  put d k v = (k, v) ∷ without d k
