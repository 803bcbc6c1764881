-- ===== src/Parser/Number.antt =====
-- Reading a printed number, a value up to the separator, and one field.
use vmars.Prelude.{
  copy_to, ℕ, zero, suc, ◌+◌, ◌-◌, ◌*◌, ◌/◌, ◌≤◌, ◌<◌, ◌≡◌, refl, ap, ◌∙◌, drop, List, [], ◌∷◌,
  ◌++◌, some, true, false, arith, Pointer, pointer_to, get_or, slice, length, ltb, Bool-cases, inl,
  inr,
}
use vmars.Parser.Defs.{number, soh, is_digit, int_max, read_number, find_soh}
use vmars.Parser.Encode.{print_fuel, print_number, HasNoSoh}

-- The bytes stand in memory from offset `i` on.
abbrev pub Stands : List ℕ → Pointer → ℕ → Type 0
Stands [] buf i = Unit
Stands (x ∷ xs) buf i = (buf i ≡ x) × Stands xs buf (i + 1)

pub Stands-append :
    (xs ys : List ℕ) (buf : Pointer) (i : ℕ)
    → Stands (xs ++ ys) buf i
    → Stands xs buf i × Stands ys buf (i + length xs)
Stands-append [] ys buf i h = (tt, let e : i + 0 ≡ i = omega arith in rw e h)
Stands-append (x ∷ xs) ys buf i h =
    let (a, b) = Stands-append xs ys buf (i + 1) h.1 in
    let e : i + suc (length xs) ≡ i + 1 + length xs = omega arith in ((h.0, a), rw e b)

pub Stands-join :
    (xs ys : List ℕ) (buf : Pointer) (i : ℕ)
    → Stands xs buf i
    → Stands ys buf (i + length xs)
    → Stands (xs ++ ys) buf i
Stands-join [] ys buf i h k = let e : i + 0 ≡ i = omega arith in rw e at k
Stands-join (x ∷ xs) ys buf i h k =
    let e : i + suc (length xs) ≡ i + 1 + length xs = omega arith in
    (h.0, Stands-join xs ys buf (i + 1) h.1 (rw e at k))

pub slice-Stands :
    (xs : List ℕ) (buf : Pointer) (i : ℕ) → Stands xs buf i → slice buf i (length xs) ≡ xs
unfolding slice
slice-Stands [] buf i h = refl
slice-Stands (x ∷ xs) buf i h = rw (h.0, slice-Stands xs buf (i + 1) h.1)

Stands-get_or :
    (xs : List ℕ) (p : Pointer) (i : ℕ) → ((k : ℕ) → p (i + k) ≡ get_or xs k 0) → Stands xs p i
Stands-get_or [] p i h = tt
Stands-get_or (x ∷ xs) p i h =
    let here : i + 0 ≡ i = omega arith in
    let first : p (i + 0) ≡ x = h 0 in
    (
      rw here at first,
      Stands-get_or xs p (i + 1)
          (λ k. let e : i + 1 + k ≡ i + suc k = omega arith in rw e (h (suc k))),
    )

pub Stands-pointer_to : (xs : List ℕ) → Stands xs (pointer_to xs) 0
Stands-pointer_to xs =
    Stands-get_or xs (pointer_to xs) 0 (λ k. let e : 0 + k ≡ k = omega arith in rw e refl)

pub Stands-slice : (xs : List ℕ) (p : Pointer) (i : ℕ) → slice p i (length xs) ≡ xs → Stands xs p i
unfolding slice
Stands-slice [] p i e = tt
Stands-slice (x ∷ xs) p i e =
    (ap (λ l. get_or l 0 0) e, Stands-slice xs p (i + 1) (ap (λ l. drop 1 l) e))

pub Stands-ext :
    (p : List ℕ) (a b : Pointer) (i : ℕ)
    → ((k : ℕ) → i ≤ k → k < i + length p → b k ≡ a k)
    → Stands p a i
    → Stands p b i
Stands-ext [] a b i h s = tt
Stands-ext (x ∷ p) a b i h s = (
  h i (omega arith) (omega arith) ∙ s.0,
  Stands-ext p a b (i + 1) (λ k lo hi. h k (omega arith) (omega arith)) s.1,
)

pub Stands-copy_to : (cs : List ℕ) (buf : Pointer) (i : ℕ) → Stands cs (copy_to buf i cs) i
unfolding copy_to
Stands-copy_to [] buf i = tt
Stands-copy_to (c ∷ cs) buf i = (
  ground arith,
  Stands-ext cs (copy_to buf (i + 1) cs) (copy_to buf i (c ∷ cs)) (i + 1) (λ k lo hi. ground arith)
      (Stands-copy_to cs buf (i + 1)),
)

abbrev pub AreDigits : List ℕ → Type 0
AreDigits [] = Unit
AreDigits (c ∷ cs) = (is_digit c ≡ true) × AreDigits cs

-- The number that the digits extend `n` to.
abbrev pub read_digits : ℕ → List ℕ → ℕ
read_digits n [] = n
read_digits n (c ∷ cs) = read_digits (n * 10 + (c - b'0')) cs

pub le-read_digits : (n : ℕ) (cs : List ℕ) → n ≤ read_digits n cs
le-read_digits n [] = omega arith
le-read_digits n (c ∷ cs) = omega (arith, le-read_digits (n * 10 + (c - b'0')) cs)

read_digits-append :
    (n : ℕ) (xs ys : List ℕ) → read_digits n (xs ++ ys) ≡ read_digits (read_digits n xs) ys
read_digits-append n [] ys = refl
read_digits-append n (x ∷ xs) ys = read_digits-append (n * 10 + (x - b'0')) xs ys

AreDigits-append : (xs ys : List ℕ) → AreDigits xs → AreDigits ys → AreDigits (xs ++ ys)
AreDigits-append [] ys h k = k
AreDigits-append (x ∷ xs) ys h k = (h.0, AreDigits-append xs ys h.1 k)

pub AreDigits-print : (f n : ℕ) → AreDigits (print_fuel f n)
unfolding print_fuel
AreDigits-print zero n = (ground arith, tt)
AreDigits-print (suc f) n = elim (Bool-cases (ltb n 10)) [
  | inl small ↦ rw small (ground arith, tt)
  | inr large ↦ rw large (AreDigits-append _ _ (AreDigits-print f (n / 10)) (ground arith, tt))
]

pub read_digits-print : (f n : ℕ) → n ≤ f → read_digits 0 (print_fuel f n) ≡ n
unfolding print_fuel
read_digits-print zero n h = omega arith
read_digits-print (suc f) n h = elim (Bool-cases (ltb n 10)) [
  | inl small ↦ rw small (omega arith)
  | inr large ↦ rw (large, read_digits-append) (ground (arith, read_digits-print f (n / 10)))
]

read_number-digits :
    (ds rest : List ℕ) (left terminator : ℕ) (buf : Pointer) (position n : ℕ)
    → AreDigits ds
    → Stands (ds ++ (terminator ∷ rest)) buf position
    → is_digit terminator ≡ false
    → read_digits n ds ≤ int_max
    → length ds < left
    → read_number left terminator buf position n
      ≡ some (number (read_digits n ds) (position + length ds + 1))
unfolding read_number
read_number-digits ds rest zero terminator buf position n d s t fits room = absurd (omega arith)
read_number-digits [] rest (suc left) terminator buf position n d s t fits room = ground arith
read_number-digits (c ∷ cs) rest (suc left) terminator buf position n d s t fits room =
    let n' = n * 10 + (c - b'0') in
    let behind =
      read_number-digits cs rest left terminator buf (position + 1) n' d.1 s.1 t fits
        (omega arith) in
    ground (arith, behind, le-read_digits n' cs)

-- A printed number is read back, whatever stands behind its terminator.
pub read_number-print :
    (v : ℕ) (rest : List ℕ) (left terminator : ℕ) (buf : Pointer) (position : ℕ)
    → Stands (print_number v ++ (terminator ∷ rest)) buf position
    → is_digit terminator ≡ false
    → v ≤ int_max
    → length (print_number v) < left
    → read_number left terminator buf position 0
      ≡ some (number v (position + length (print_number v) + 1))
read_number-print v rest left terminator buf position s t fits room =
    let value = read_digits-print v v (omega arith) in
    rw value at (
      read_number-digits (print_number v) rest left terminator buf position 0 (AreDigits-print v v)
        s t (omega (arith, value)) room)

pub find_soh-value :
    (value : List ℕ) (left : ℕ) (buf : Pointer) (position : ℕ)
    → HasNoSoh value
    → Stands (value ++ (soh ∷ [])) buf position
    → length value < left
    → find_soh left buf position ≡ some (position + length value)
unfolding find_soh
find_soh-value value zero buf position h s room = absurd (omega arith)
find_soh-value [] (suc left) buf position h s room = ground arith
find_soh-value (x ∷ xs) (suc left) buf position h s room =
    ground (arith, find_soh-value xs left buf (position + 1) h.1 s.1 (omega arith))
