-- ===== src/Prelude/Strings.antt =====
-- The code points of a native text. `String` has its own `[]` and `∷`.
use hermes_device_protocol.Prelude.{Bool, List, String, [], false, str_eq, ℕ, ◌||◌, ◌∷◌}
use Prim.Native.Char.{code}
use Prim.Native.String.{String}
use Prim.Native.Nat.{ℕ}
use mathlib.Core.Bool.{Bool, false, ◌||◌}
use text.Mathlib.Text.{◌==◌ as str_eq}
use mathlib.Core.List.{List, [], ◌∷◌}

abbrev pub codes : String → List ℕ
codes String.[] = []
codes (String.◌∷◌ c s) = code c ∷ codes s

unfoldable pub contains : String → List String → Bool
contains s [] = false
contains s (x ∷ xs) = str_eq x s || contains s xs
