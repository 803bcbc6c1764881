-- ===== src/Latency/Samples.antt =====
-- A table and a histogram, for the tests.
use vmars.Prelude.{ℕ, ◌≡◌, ◌↔◌, Bool, true, false, ◌&&◌, ◌==◌, List, [], ◌∷◌, arith}
use vmars.Prelude.Int.{ℤ}
use vmars.KHash.{KHash, association_list}
use vmars.Latency.Defs.{LatencyRecord}

abbrev key_eq : List ℕ → List ℕ → Bool
key_eq [] [] = true
key_eq [] (_ ∷ _) = false
key_eq (_ ∷ _) [] = false
key_eq (a ∷ l) (b ∷ r) = a == b && key_eq l r

pub key_eq_iff : (a b : List ℕ) → (key_eq a b ≡ true) ↔ (a ≡ b)
key_eq_iff [] [] = ground arith
key_eq_iff [] (_ ∷ _) = ground arith
key_eq_iff (_ ∷ _) [] = ground arith
key_eq_iff (a ∷ l) (b ∷ r) = grind (arith, key_eq_iff l r)

abbrev pub table : KHash (List ℕ) LatencyRecord
table = association_list key_eq key_eq_iff

-- The histogram keeps the recorded values.
abbrev pub keep : List ℤ → ℤ → List ℤ
keep h value = value ∷ h
