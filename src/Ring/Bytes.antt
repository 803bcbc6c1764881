-- ===== src/Ring/Bytes.antt =====
-- Bytes at positions that go round the buffer, and stores that do not disturb them.
use native.Mathlib.Nat.{mod-add-mod, div-add-mod}
use vmars.Prelude.{
  ℕ, ◌+◌, ◌%◌, ◌^◌, ◌≤◌, ◌<◌, ◌≡◌, ◌≢◌, refl, ap, ◌∙◌, sym, List, [], ◌∷◌, arith, length, ◌==◌,
  if◌then◌else◌,
}
use vmars.Ring.Defs.{Rb, store_byte, store_bytes, int32_bytes, load_bytes, record_length}

-- The bytes stand from position `p` on.
abbrev pub BytesAt : ℕ → (ℕ → ℕ) → ℕ → List ℕ → Type 0
BytesAt capacity buffer p [] = Unit
BytesAt capacity buffer p (x ∷ xs) =
    (buffer (p % capacity) ≡ x) × BytesAt capacity buffer (p + 1) xs

-- Two positions less than a round apart are different bytes of the buffer.
mod_ne : (c i j : ℕ) → i < j → j < i + c → i % c ≢ j % c
mod_ne c i j lt near e = grind (arith, div-add-mod i c, div-add-mod j c)

mod_add_cong : (c a b k : ℕ) → a % c ≡ b % c → (a + k) % c ≡ (b + k) % c
mod_add_cong c a b k e = sym (mod-add-mod a c k) ∙ ap (λ m. (m + k) % c) e ∙ mod-add-mod b c k

module _ (c : ℕ) where
  -- A store from position `a` on leaves an earlier byte alone, if it does not come round to it.
  store_bytes-before :
      (ys : List ℕ) (buffer : ℕ → ℕ) (a q : ℕ)
      → q < a
      → a + length ys ≤ q + c
      → store_bytes c buffer a ys (q % c) ≡ buffer (q % c)
  unfolding store_bytes
  store_bytes-before [] buffer a q lt near = refl
  store_bytes-before (y ∷ ys) buffer a q lt near =
      store_bytes-before ys (store_byte c buffer a y) (a + 1) q (omega arith) (omega arith)
      ∙ ground (arith, mod_ne c q a lt (omega arith))

  pub BytesAt-store_other :
      (xs ys : List ℕ) (buffer : ℕ → ℕ) (p a : ℕ)
      → p + length xs ≤ a
      → a + length ys ≤ p + c
      → BytesAt c buffer p xs
      → BytesAt c (store_bytes c buffer a ys) p xs
  BytesAt-store_other [] ys buffer p a before near h = tt
  BytesAt-store_other (x ∷ xs) ys buffer p a before near h = (
    store_bytes-before ys buffer a p (omega arith) near ∙ h.0,
    BytesAt-store_other xs ys buffer (p + 1) a (omega arith) (omega arith) h.1,
  )

  pub BytesAt-store_self :
      (ys : List ℕ) (buffer : ℕ → ℕ) (a : ℕ)
      → length ys ≤ c
      → BytesAt c (store_bytes c buffer a ys) a ys
  unfolding store_bytes
  BytesAt-store_self [] buffer a room = tt
  BytesAt-store_self (y ∷ ys) buffer a room = (
    store_bytes-before ys (store_byte c buffer a y) (a + 1) a (omega arith) (omega arith)
        ∙ ground arith,
    BytesAt-store_self ys (store_byte c buffer a y) (a + 1) (omega arith),
  )

  -- Addresses that are equal modulo the capacity are one place.
  pub store_bytes-cong :
      (ys : List ℕ) (buffer : ℕ → ℕ) (a b : ℕ)
      → a % c ≡ b % c
      → store_bytes c buffer a ys ≡ store_bytes c buffer b ys
  unfolding store_bytes
  store_bytes-cong [] buffer a b e = refl
  store_bytes-cong (y ∷ ys) buffer a b e =
      ap (λ (m : ℕ). store_bytes c (λ i. if i == m then y else buffer i) (a + 1) ys) e
      ∙ store_bytes-cong ys _ (a + 1) (b + 1) (mod_add_cong c a b 1 e)

pub load_bytes-BytesAt :
    (xs : List ℕ) (rb : Rb) (p a : ℕ)
    → a % rb.capacity ≡ p % rb.capacity
    → BytesAt rb.capacity rb.buffer p xs
    → load_bytes rb a (length xs) ≡ xs
unfolding load_bytes
load_bytes-BytesAt [] rb p a e h = refl
load_bytes-BytesAt (x ∷ xs) rb p a e h = cc (
  ap rb.buffer e ∙ h.0,
  load_bytes-BytesAt xs rb (p + 1) (a + 1) (mod_add_cong rb.capacity a p 1 e) h.1,
)

pub record_length-BytesAt :
    (n : ℕ) (rb : Rb) (p a : ℕ)
    → n < 2 ^ 32
    → a % rb.capacity ≡ p % rb.capacity
    → BytesAt rb.capacity rb.buffer p (int32_bytes n)
    → record_length rb a ≡ n
unfolding record_length
record_length-BytesAt n rb p a small e h =
    let c = rb.capacity in
    let at1 : (a + 1) % c ≡ (p + 1) % c = mod_add_cong c a p 1 e in
    let at2 : (a + 2) % c ≡ (p + 1 + 1) % c =
      mod_add_cong c a p 2 e ∙ ap (λ k. k % c) (omega arith) in
    let at3 : (a + 3) % c ≡ (p + 1 + 1 + 1) % c =
      mod_add_cong c a p 3 e ∙ ap (λ k. k % c) (omega arith) in
    omega (
      arith,
      ap rb.buffer e ∙ h.0,
      ap rb.buffer at1 ∙ h.1.0,
      ap rb.buffer at2 ∙ h.1.1.0,
      ap rb.buffer at3 ∙ h.1.1.1.0,
    )
