-- ===== src/Pipeline/Orders.antt =====
-- Summaries in the order in which they are taken off several rings, each with its ring's number.
use mathlib.Core.List.{map-append}
use vmars.Prelude.{
  ℕ, zero, suc, ◌≡◌, refl, ap, ◌∙◌, false, inl, inr, List, [], ◌∷◌, ◌++◌, map, take, drop,
  Bool-cases, ==-refl, ◌==◌, if◌then◌else◌,
}
use vmars.Summary.{Summary}

-- The summaries of one thread, in an order of all.
abbrev pub own : ℕ → List (ℕ × Summary) → List Summary
own i [] = []
own i ((j, s) ∷ order) = let rest = own i order in if i == j then s ∷ rest else rest

pub own-append : (i : ℕ) (xs ys : List (ℕ × Summary)) → own i (xs ++ ys) ≡ own i xs ++ own i ys
own-append i [] ys = refl
own-append i ((j, s) ∷ xs) ys = elim (Bool-cases (i == j)) [
  | inl mine ↦ rw (own, mine, own-append i xs ys) refl
  | inr others ↦ rw (own, others, own-append i xs ys) refl
]

pub own-same : (i : ℕ) (ss : List Summary) → own i (map (λ s. (i, s)) ss) ≡ ss
own-same i [] = refl
own-same i (s ∷ ss) = rw (own, ==-refl i, own-same i ss) refl

pub own-other : (i j : ℕ) (ss : List Summary) → (j == i) ≡ false → own j (map (λ s. (i, s)) ss) ≡ []
own-other i j [] e = refl
own-other i j (s ∷ ss) e = rw (own, e) (own-other i j ss e)

abbrev pub summaries : List (ℕ × Summary) → List Summary
summaries order = map (λ e. e.1) order

summaries-tag : (i : ℕ) (ss : List Summary) → summaries (map (λ s. (i, s)) ss) ≡ ss
summaries-tag i [] = refl
summaries-tag i (s ∷ ss) = ap (λ l. s ∷ l) (summaries-tag i ss)

pub summaries-append :
    (i : ℕ) (order : List (ℕ × Summary)) (ss : List Summary)
    → summaries (order ++ map (λ s. (i, s)) ss) ≡ summaries order ++ ss
summaries-append i order ss =
    map-append (λ e. e.1) order (map (λ s. (i, s)) ss) ∙ rw (summaries-tag i ss) refl

module _ {A : Type 0} where
  pub take-drop : (n : ℕ) (xs : List A) → take n xs ++ drop n xs ≡ xs
  take-drop zero xs = refl
  take-drop (suc n) [] = refl
  take-drop (suc n) (x ∷ xs) = ap (λ l. x ∷ l) (take-drop n xs)
