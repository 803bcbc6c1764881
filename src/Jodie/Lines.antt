-- ===== src/Jodie/Lines.antt =====
-- The lines that `jodie_logGauge` of src/jodie_client.c makes of 64-bit numbers.
use vmars.Prelude.{
  ℕ, zero, suc, ◌+◌, ◌/◌, ◌%◌, ◌^◌, ◌≤◌, ◌<◌, ◌≡◌, refl, ap, Bool, Bool-cases, inl, inr, true, List,
  [], ◌∷◌, ◌++◌, length, length-append, ltb, arith,
}
use native.Mathlib.Nat.{pow-suc}
use vmars.Prelude.Nul.{HasNoNul, has_no_nul, HasNoNul-append, has_no_nul-HasNoNul}
use vmars.Prelude.Text.{codes}
use vmars.Parser.Encode.{print_fuel, print_number}
use vmars.Parser.Number.{AreDigits, AreDigits-print}
use vmars.Jodie.Defs.{packet_size, timestamp_or, format_line}
use vmars.Jodie.Report.{Gauge, line_of, lines_of, AreSendable}

AreDigits-HasNoNul : (ds : List ℕ) → AreDigits ds → HasNoNul ds
AreDigits-HasNoNul [] h = tt
AreDigits-HasNoNul (d ∷ ds) h = (ground arith, AreDigits-HasNoNul ds h.1)

length-print_fuel : (k f n : ℕ) → n < 10 ^ suc k → length (print_fuel f n) ≤ suc k
unfolding print_fuel
length-print_fuel k zero n h = omega arith
length-print_fuel zero (suc f) n h =
    let small : ltb n 10 ≡ true = ground arith in rw small (omega arith)
length-print_fuel (suc k) (suc f) n h = elim (Bool-cases (ltb n 10)) [
  | inl small ↦ rw small (omega arith)
  | inr large ↦
      let rest = length-print_fuel k f (n / 10) (omega (arith, pow-suc 10 (suc k))) in
      rw (large, length-append (print_fuel f (n / 10)) ((b'0' + n % 10) ∷ [])) (omega arith)
]

space_not_nul : b' ' ≡ zero → ⊥
space_not_nul e = absurd (omega (arith, e))

-- A line with a path of up to 64 bytes and two 64-bit numbers.
line_of-ready :
    (now timestamp : ℕ) (g : Gauge)
    → HasNoNul g.datapath
    → length g.datapath ≤ 64
    → g.value < 2 ^ 64
    → timestamp_or now timestamp < 2 ^ 64
    → HasNoNul (line_of now timestamp g) × (length (line_of now timestamp g) ≤ packet_size)
line_of-ready now timestamp g text short v t =
    let value = print_number g.value in
    let stamp = print_number (timestamp_or now timestamp) in
    let suffix = codes " type=gauge\n" in
    let blank = space_not_nul in
    let digits : (n : ℕ) → HasNoNul (print_number n) =
      λ n. AreDigits-HasNoNul (print_number n) (AreDigits-print n n) in
    (
      HasNoNul-append g.datapath _ text (
        blank,
        HasNoNul-append value _ (digits g.value)
            (blank, HasNoNul-append stamp _ (digits _) (has_no_nul-HasNoNul suffix refl)),
      ),
      omega (
        arith,
        length-append g.datapath (b' ' ∷ (value ++ (b' ' ∷ (stamp ++ suffix)))),
        length-append value (b' ' ∷ (stamp ++ suffix)),
        length-append stamp suffix,
        length-print_fuel 19 g.value g.value (omega arith),
        length-print_fuel 19 (timestamp_or now timestamp) (timestamp_or now timestamp)
            (omega arith),
      ),
    )

abbrev pub gauge : Bool → List ℕ → ℕ → Gauge
gauge works datapath value = record { sendto_works = works; datapath = datapath; value = value }

-- Short paths, and 64-bit values.
abbrev pub AreShort : List Gauge → Type 0
AreShort [] = Unit
AreShort (g ∷ gauges) =
    ((g.sendto_works ≡ true)
      × (has_no_nul g.datapath ≡ true)
      × (length g.datapath ≤ 64)
      × (g.value < 2 ^ 64))
    × AreShort gauges

pub AreShort-AreSendable :
    (gauges : List Gauge) (now timestamp : ℕ)
    → timestamp_or now timestamp < 2 ^ 64
    → AreShort gauges
    → AreSendable now timestamp gauges
AreShort-AreSendable [] now timestamp t h = tt
AreShort-AreSendable (g ∷ gauges) now timestamp t h =
    let (line, fits) =
      line_of-ready now timestamp g (has_no_nul-HasNoNul g.datapath h.0.1) h.0.2 h.0.3 t in
    ((h.0.0, omega arith, line, fits), AreShort-AreSendable gauges now timestamp t h.1)

abbrev pub text_of : ℕ → ℕ → List (List ℕ × ℕ) → List ℕ
text_of now timestamp [] = []
text_of now timestamp ((path, value) ∷ rest) =
    format_line path value (timestamp_or now timestamp) (codes " type=gauge\n")
    ++ text_of now timestamp rest

abbrev pub values_of : List Gauge → List (List ℕ × ℕ)
values_of [] = []
values_of (g ∷ gauges) = (g.datapath, g.value) ∷ values_of gauges

pub lines_of-text_of :
    (gauges : List Gauge) (now timestamp : ℕ)
    → lines_of now timestamp gauges ≡ text_of now timestamp (values_of gauges)
lines_of-text_of [] now timestamp = refl
lines_of-text_of (g ∷ gauges) now timestamp =
    ap (λ l. line_of now timestamp g ++ l) (lines_of-text_of gauges now timestamp)
