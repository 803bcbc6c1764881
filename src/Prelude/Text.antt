-- ===== src/Prelude/Text.antt =====
-- Byte strings written as text, for the tests. In `fix_text` a bar stands for the separator SOH.
use Prim.Native.Nat.{ℕ}
use Prim.Native.Char.{code}
use Prim.Native.String.{String}
use mathlib.Core.List.{List, [], ◌∷◌, map}
use vmars.Prelude.Tests.{◌==◌, if◌then◌else◌}

abbrev pub codes : String → List ℕ
codes String.[] = []
codes (String.◌∷◌ c s) = code c ∷ codes s

abbrev pub fix_text : String → List ℕ
fix_text s = map (λ c. if c == b'|' then 1 else c) (codes s)
