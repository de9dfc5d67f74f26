-- ===== src/Prelude/Maps.antt =====
-- Go maps with 128-bit identifiers as keys: lookup with the `ok` flag, assignment and delete.
use Prim.Native.Nat.{ℕ}
use mathlib.Core.Option.{Option, none, some}
use tea_elephant_memory.Prelude.Tests.{◌==◌, if◌then◌else◌}

abbrev pub Map {ℓ} : Type ℓ → Type ℓ
Map V = ℕ → Option V

module _ {ℓ} {V : Type ℓ} where
  -- m[k] = v
  abbrev pub insert : ℕ → V → Map V → Map V
  insert k v m j = if j == k then some v else m j

  -- delete(m, k)
  abbrev pub delete : ℕ → Map V → Map V
  delete k m j = if j == k then none else m j

  -- m[k] with the zero value for a missing key
  abbrev pub get_or : Option V → V → V
  get_or none d = d
  get_or (some v) d = v
