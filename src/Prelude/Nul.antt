-- ===== src/Prelude/Nul.antt =====
-- Bytes without a NUL.
use Prim.Native.Nat.{ℕ, zero, suc}
use mathlib.Core.Path.{◌≡◌}
use mathlib.Core.Logic.{◌≢◌}
use mathlib.Core.Bool.{Bool, true, not, ◌&&◌}
use mathlib.Core.List.{List, [], ◌∷◌, ◌++◌}
use native.Mathlib.Omega.{arith}
use vmars.Prelude.Tests.{◌==◌}
use vmars.Prelude.Lists.{take, drop}

abbrev pub HasNoNul : List ℕ → Type 0
HasNoNul [] = Unit
HasNoNul (c ∷ cs) = (c ≢ 0) × HasNoNul cs

pub HasNoNul-append : (xs ys : List ℕ) → HasNoNul xs → HasNoNul ys → HasNoNul (xs ++ ys)
HasNoNul-append [] ys h k = k
HasNoNul-append (x ∷ xs) ys h k = (h.0, HasNoNul-append xs ys h.1 k)

pub HasNoNul-take-drop :
    (k : ℕ) (xs : List ℕ) → HasNoNul xs → HasNoNul (take k xs) × HasNoNul (drop k xs)
HasNoNul-take-drop zero xs h = (tt, h)
HasNoNul-take-drop (suc k) [] h = (tt, tt)
HasNoNul-take-drop (suc k) (x ∷ xs) h = let (a, b) = HasNoNul-take-drop k xs h.1 in ((h.0, a), b)

abbrev pub has_no_nul : List ℕ → Bool
has_no_nul [] = true
has_no_nul (c ∷ cs) = not (c == 0) && has_no_nul cs

pub has_no_nul-HasNoNul : (xs : List ℕ) → has_no_nul xs ≡ true → HasNoNul xs
has_no_nul-HasNoNul [] h = tt
has_no_nul-HasNoNul (c ∷ cs) h = (ground arith, has_no_nul-HasNoNul cs (ground arith))
