-- ===== src/Ring/Start.antt =====
-- The ring that `vmars_spsc_rb_init` makes.
use vmars.Prelude.{
  ℕ, zero, suc, ◌^◌, ◌≤◌, ◌<◌, ◌≡◌, refl, Bool, true, ◌&&◌, [], Option, none, some, arith,
  if◌then◌else◌,
}
use vmars.Ring.Defs.{success, enomem, is_power_of_two, vmars_spsc_rb_init}
use vmars.Ring.Valid.{IsValid}
use vmars.Ring.Records.{Contents}
use vmars.Ring.Fifo.{start, start-Inv}

-- Whether the test finds all powers of two below 2^n to be such.
powers_pass : ℕ → Bool
unfolding is_power_of_two
powers_pass zero = true
powers_pass (suc n) = is_power_of_two (2 ^ n) && powers_pass n

powers_pass-lt : (n k : ℕ) → powers_pass n ≡ true → k < n → is_power_of_two (2 ^ k) ≡ true
unfolding powers_pass
powers_pass-lt zero k h lt = absurd (omega arith)
powers_pass-lt (suc n) k h lt = ground (arith, powers_pass-lt n k)

two_pow-IsPower : (k : ℕ) → k ≤ 30 → is_power_of_two (2 ^ k) ≡ true
unfolding powers_pass
two_pow-IsPower k small = powers_pass-lt 31 k refl (omega arith)

-- A ring of 2^k bytes (k at most 30) is made if the operating system gives the memory, whatever the
-- page size; it is empty and valid. Without the memory, of the buffer or of the descriptor, the
-- result is ENOMEM.
pub init-start :
    (k page_size : ℕ) (mapped : Option (ℕ → ℕ)) (allocated : Bool)
    → k ≤ 30
    → (vmars_spsc_rb_init page_size mapped allocated (2 ^ k) ≡ elim mapped [
      | none ↦ (enomem, none)
      | some buffer ↦ if allocated then (success, some (start k buffer).rb) else (enomem, none)
    ])
      × ((buffer : ℕ → ℕ) → IsValid k (start k buffer).rb × Contents (start k buffer).rb [])
unfolding vmars_spsc_rb_init
init-start k page_size mapped allocated small =
    (rw (two_pow-IsPower k small) refl, λ buffer. ((start-Inv k buffer small).valid, refl))
