-- ===== src/Pipeline/Scheduled.antt =====
-- The order in which the latency thread takes records, for records of any kind.
use mathlib.Core.List.{map-append}
use vmars.Prelude.{ℕ, zero, suc, ◌≡◌, refl, ap, List, [], ◌∷◌, ◌++◌, map, take, drop, length, arith}
use vmars.Summary.{Summary}
use vmars.Latency.Decode.{AllFit}
use vmars.Latency.Drain.{round_limit, round_of, left_of, schedule, AreShort}

module _ {A B : Type 0} (f : A → B) where
  pub take-map : (n : ℕ) (xs : List A) → take n (map f xs) ≡ map f (take n xs)
  take-map zero xs = refl
  take-map (suc n) [] = refl
  take-map (suc n) (x ∷ xs) = ap (λ l. f x ∷ l) (take-map n xs)

  pub drop-map : (n : ℕ) (xs : List A) → drop n (map f xs) ≡ map f (drop n xs)
  drop-map zero xs = refl
  drop-map (suc n) [] = refl
  drop-map (suc n) (x ∷ xs) = drop-map n xs

  length-map : (xs : List A) → length (map f xs) ≡ length xs
  length-map [] = refl
  length-map (x ∷ xs) = ap suc (length-map xs)

  round_of-map : (rss : List (List A)) → round_of (map (map f) rss) ≡ map f (round_of rss)
  round_of-map [] = refl
  round_of-map (rs ∷ rss) =
      rw
        (
          take-map round_limit rs,
          round_of-map rss,
          map-append f (take round_limit rs) (round_of rss),
        )
        refl

  left_of-map : (rss : List (List A)) → left_of (map (map f) rss) ≡ map (map f) (left_of rss)
  left_of-map [] = refl
  left_of-map (rs ∷ rss) = rw (drop-map round_limit rs, left_of-map rss) refl

  pub schedule-map :
      (n : ℕ) (rss : List (List A)) → schedule n (map (map f) rss) ≡ map f (schedule n rss)
  schedule-map zero rss = refl
  schedule-map (suc n) rss =
      rw
        (
          round_of-map rss,
          left_of-map rss,
          schedule-map n (left_of rss),
          map-append f (round_of rss) (schedule n (left_of rss)),
        )
        refl

  pub AreShort-map : (n : ℕ) (rss : List (List A)) → AreShort n rss → AreShort n (map (map f) rss)
  AreShort-map n [] short = tt
  AreShort-map n (rs ∷ rss) short =
      (omega (arith, length-map rs, short.0), AreShort-map n rss short.1)

pub AllFit-take : (n : ℕ) (ss : List Summary) → AllFit ss → AllFit (take n ss)
AllFit-take zero ss fit = tt
AllFit-take (suc n) [] fit = tt
AllFit-take (suc n) (s ∷ ss) fit = (fit.0, AllFit-take n ss fit.1)

pub AllFit-drop : (n : ℕ) (ss : List Summary) → AllFit ss → AllFit (drop n ss)
AllFit-drop zero ss fit = fit
AllFit-drop (suc n) [] fit = tt
AllFit-drop (suc n) (s ∷ ss) fit = AllFit-drop n ss fit.1

pub AllFit-append : (ss ts : List Summary) → AllFit ss → AllFit ts → AllFit (ss ++ ts)
AllFit-append [] ts fit others = others
AllFit-append (s ∷ ss) ts fit others = (fit.0, AllFit-append ss ts fit.1 others)

abbrev pub EachFits : List (List Summary) → Type 0
EachFits [] = Unit
EachFits (ss ∷ sss) = AllFit ss × EachFits sss

round_of-AllFit : (sss : List (List Summary)) → EachFits sss → AllFit (round_of sss)
round_of-AllFit [] fit = tt
round_of-AllFit (ss ∷ sss) fit =
    AllFit-append (take round_limit ss) (round_of sss) (AllFit-take round_limit ss fit.0)
      (round_of-AllFit sss fit.1)

left_of-EachFits : (sss : List (List Summary)) → EachFits sss → EachFits (left_of sss)
left_of-EachFits [] fit = tt
left_of-EachFits (ss ∷ sss) fit = (AllFit-drop round_limit ss fit.0, left_of-EachFits sss fit.1)

pub schedule-AllFit : (n : ℕ) (sss : List (List Summary)) → EachFits sss → AllFit (schedule n sss)
schedule-AllFit zero sss fit = tt
schedule-AllFit (suc n) sss fit =
    AllFit-append (round_of sss) (schedule n (left_of sss)) (round_of-AllFit sss fit)
      (schedule-AllFit n (left_of sss) (left_of-EachFits sss fit))
