-- ===== src/Prelude/Maps.antt =====
-- Maps with text keys, as functions: `m[k] = v` and `delete(m, k)`.
use Prim.Native.String.{String}
use text.Mathlib.Text.{◌==◌ as str_eq}
use museumscraper.Prelude.{Option, none, some, if◌then◌else◌}

abbrev pub assign {ℓ} : {V : Type ℓ} → String → V → (String → Option V) → String → Option V
assign k v m j = if str_eq k j then some v else m j

abbrev pub delete {ℓ} : {V : Type ℓ} → String → (String → Option V) → String → Option V
delete k m j = if str_eq k j then none else m j
