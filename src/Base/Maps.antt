-- ===== src/Base/Maps.antt =====
-- Hash maps with number keys, as functions.
use Prim.Native.Nat.{ℕ}
use mathlib.Core.Option.{Option, none, some}
use live_streaming.Base.Tests.{◌==◌, if◌then◌else◌}

abbrev pub Map {ℓ} : Type ℓ → Type ℓ
Map V = ℕ → Option V

module _ {ℓ} {V : Type ℓ} where
  abbrev pub empty_map : Map V
  empty_map k = none

  abbrev pub update : Map V → ℕ → V → Map V
  update m k v j = if k == j then some v else m j

  abbrev pub erase_key : Map V → ℕ → Map V
  erase_key m k j = if k == j then none else m j
