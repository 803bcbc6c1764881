-- ===== src/Ring/Samples.antt =====
-- Small rings, for the tests.
use vmars.Prelude.{ℕ, ◌≤◌, refl, List, [], ◌∷◌, arith, get_or}
use vmars.Ring.Defs.{Rb}
use vmars.Ring.Valid.{IsValid}
use vmars.Ring.Records.{Contents}

-- Sixteen bytes, at positions `head` to `tail`.
abbrev pub ring : List ℕ → ℕ → ℕ → Rb
ring bytes head tail = record {
  buffer = λ i. get_or bytes i 0;
  capacity = 16;
  tail_cache_position = 0;
  tail_position = tail;
  head_cache_position = 0;
  head_position = head;
}

pub ring-IsValid :
    (bytes : List ℕ) (head tail : ℕ) → head ≤ tail → tail ≤ 16 → IsValid 4 (ring bytes head tail)
ring-IsValid bytes head tail h k = record {
  capacity_is = refl;
  small = omega arith;
  head_cached = omega arith;
  head_le_tail = h;
  tail_cached = omega arith;
  fits = omega arith;
  in_range = omega arith;
}

abbrev pub empty : Rb
empty = ring [] 0 0

pub empty-IsValid : IsValid 4 empty
empty-IsValid = ring-IsValid [] 0 0 (omega arith) (omega arith)

abbrev pub record_bytes : List ℕ
record_bytes = 3 ∷ 0 ∷ 0 ∷ 0 ∷ 7 ∷ 8 ∷ 9 ∷ []

-- One record of three bytes.
abbrev pub one : Rb
one = ring record_bytes 0 7

pub one-IsValid : IsValid 4 one
one-IsValid = ring-IsValid record_bytes 0 7 (omega arith) (omega arith)

abbrev pub seven : List ℕ
seven = 7 ∷ 8 ∷ 9 ∷ []

pub one-Contents : Contents one (seven ∷ [])
one-Contents = ((refl, (refl, (refl, (refl, tt)))), (refl, (refl, (refl, tt))), refl)
