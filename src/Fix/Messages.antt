-- ===== src/Fix/Messages.antt =====
-- What a packet that holds whole messages is to be, and where the search finds them.
use vmars.Prelude.{
  ℕ, zero, suc, ◌+◌, ◌≤◌, ◌<◌, ◌≡◌, refl, List, [], ◌∷◌, ◌++◌, arith, Pointer, length,
}
use vmars.Prelude.Text.{codes}
use vmars.Counters.{increment}
use vmars.Search.Correct.{Occurs}
use vmars.Parser.Encode.{
  Field, Version, fix42, fix44, header_of, front, trailer, encode, encode_field, encode_fields,
  print_number, AreFields,
}
use vmars.Parser.Defs.{soh}
use vmars.Parser.Number.{Stands, Stands-append}
use vmars.Parser.RoundTrip.{delivered}
use vmars.Fix.Details.{FixDetails, no_details, details_callbacks}
use vmars.Fix.Process.{Context, process_for_latency_measurement}

-- What the capture threads search for.
abbrev pub begin_string : List ℕ
begin_string = codes "8=FIX.4."

-- A message with at least one field.
pub record Message : Type 0 where
  pub version : Version
  pub first : Field
  pub others : List Field

abbrev pub encode_message : Message → List ℕ
encode_message m = encode m.version (m.first ∷ m.others)

abbrev pub IsMessage : Message → Type 0
IsMessage m = AreFields (m.first ∷ m.others)

-- What is written one behind the other, whatever it is.
module _ {X : Type 0} (bytes : X → List ℕ) where
  abbrev pub bytes_of : List X → List ℕ
  bytes_of [] = []
  bytes_of (x ∷ xs) = bytes x ++ bytes_of xs

  -- Behind the start of each part, up to the next one, the pattern stands nowhere before `end`.
  abbrev pub AreSeparate : Pointer → ℕ → ℕ → List X → Type 0
  AreSeparate p end i [] = Unit
  AreSeparate p end i (x ∷ xs) =
      ((o : ℕ)
        → i < o
        → o < i + length (bytes x)
        → o + length begin_string ≤ end
        → ¬ Occurs begin_string p o)
      × AreSeparate p end (i + length (bytes x)) xs

abbrev pub encode_messages : List Message → List ℕ
encode_messages ms = bytes_of encode_message ms

abbrev pub Every : {X : Type 0} → (X → Type 0) → List X → Type 0
Every P [] = Unit
Every P (x ∷ xs) = P x × Every P xs

-- What is left of a context after one thing after the other.
abbrev pub after_all : {C X : Type 0} → (C → X → C) → C → List X → C
after_all after ctx [] = ctx
after_all after ctx (x ∷ xs) = after_all after (after ctx x) xs

abbrev pub AreMessages : List Message → Type 0
AreMessages ms = Every IsMessage ms

-- The fields that the parser hands over, in order, the trailer last.
abbrev pub details_of : Message → FixDetails
details_of m = delivered details_callbacks 0 (λ _. 0) m.version m.first m.others no_details

abbrev pub counted : {Map : Type 0} → Context Map → Context Map
counted ctx = record ctx {
  counters = record ctx.counters { valid_messages = increment ctx.counters.valid_messages };
}

-- A message is counted as valid, and measured.
abbrev pub measured : {Map : Type 0} → ℕ → ℕ → Context Map → Message → Context Map
measured tv_sec tv_nsec ctx m =
    process_for_latency_measurement (counted ctx) tv_sec tv_nsec (details_of m)

abbrev pub measured_all : {Map : Type 0} → ℕ → ℕ → Context Map → List Message → Context Map
measured_all tv_sec tv_nsec ctx ms = after_all (measured tv_sec tv_nsec) ctx ms

abbrev pub AreApart : Pointer → ℕ → ℕ → List Message → Type 0
AreApart p end i ms = AreSeparate encode_message p end i ms

pub Occurs-Stands : (xs : List ℕ) (p : Pointer) (i : ℕ) → Stands xs p i → Occurs xs p i
Occurs-Stands [] p i s j lt = absurd (omega arith)
Occurs-Stands (x ∷ xs) p i s zero lt = let e : i + 0 ≡ i = omega arith in rw e s.0
Occurs-Stands (x ∷ xs) p i s (suc j) lt =
    let e : i + suc j ≡ i + 1 + j = omega arith in
    rw e (Occurs-Stands xs p (i + 1) s.1 j (omega arith))

pub header-begin : (v : Version) → (rest : List ℕ) × (header_of v ≡ begin_string ++ rest)
header-begin fix42 = (_, refl)
header-begin fix44 = (_, refl)

pub encode_message-begin :
    (m : Message) (p : Pointer) (i : ℕ) → Stands (encode_message m) p i → Occurs begin_string p i
encode_message-begin m p i s =
    let (rest, e) = header-begin m.version in
    let fields = m.first ∷ m.others in
    let whole =
      Stands-append (front m.version fields) (encode_field (trailer m.version fields)) p i s in
    let header =
      Stands-append (header_of m.version)
        (print_number (length (encode_fields fields)) ++ (soh ∷ encode_fields fields)) p i
        whole.0 in
    Occurs-Stands begin_string p i (Stands-append begin_string rest p i (rw e at header.0)).0
