-- ===== src/DirectIo.antt =====
-- src/directio.c: a program of its own, which writes an image over and over with O_DIRECT and reports
-- how long it took. The system calls are parameters.
use vmars.Prelude.{
  ℕ, zero, suc, ◌+◌, ◌/◌, List, [], ◌∷◌, ◌++◌, Option, none, some, Pointer, slice, copy_to, take,
  replicate, if◌then◌else◌,
}
use vmars.Prelude.Int.{ℤ, pos, negsuc, ◌-ℤ◌}
use vmars.Prelude.Text.{codes}
mod Blocks
mod Tests

abbrev pub blocksize : ℕ
blocksize = 512

-- Black around five rows.
abbrev pub image : List ℕ
image =
    codes "P5 24 7 15\n"
    ++ (replicate 24 0
        ++ ((0 ∷ 3 ∷ 3 ∷ 3 ∷ 3 ∷ 0 ∷ 0 ∷ 7 ∷ 7 ∷ 7 ∷ 7 ∷ 0 ∷ 0 ∷ 11 ∷ 11 ∷ 11 ∷ 11 ∷ 0 ∷ 0 ∷ 15 ∷ 15
              ∷ 15 ∷ 15 ∷ 0 ∷ [])
            ++ ((0 ∷ 3 ∷ 0 ∷ 0 ∷ 0 ∷ 0 ∷ 0 ∷ 7 ∷ 0 ∷ 0 ∷ 0 ∷ 0 ∷ 0 ∷ 11 ∷ 0 ∷ 0 ∷ 0 ∷ 0 ∷ 0 ∷ 15 ∷ 0
                  ∷ 0 ∷ 15 ∷ 0 ∷ [])
                ++ ((0 ∷ 3 ∷ 3 ∷ 3 ∷ 0 ∷ 0 ∷ 0 ∷ 7 ∷ 7 ∷ 7 ∷ 0 ∷ 0 ∷ 0 ∷ 11 ∷ 11 ∷ 11 ∷ 0 ∷ 0 ∷ 0
                      ∷ 15 ∷ 15 ∷ 15 ∷ 15 ∷ 0 ∷ [])
                    ++ ((0 ∷ 3 ∷ 0 ∷ 0 ∷ 0 ∷ 0 ∷ 0 ∷ 7 ∷ 0 ∷ 0 ∷ 0 ∷ 0 ∷ 0 ∷ 11 ∷ 0 ∷ 0 ∷ 0 ∷ 0 ∷ 0
                          ∷ 15 ∷ 0 ∷ 0 ∷ 0 ∷ 0 ∷ [])
                        ++ ((0 ∷ 3 ∷ 0 ∷ 0 ∷ 0 ∷ 0 ∷ 0 ∷ 7 ∷ 7 ∷ 7 ∷ 7 ∷ 0 ∷ 0 ∷ 11 ∷ 11 ∷ 11 ∷ 11
                              ∷ 0 ∷ 0 ∷ 15 ∷ 0 ∷ 0 ∷ 0 ∷ 0 ∷ [])
                            ++ replicate 25 0))))))

-- What the system answers: the memory that posix_memalign gives, with what stood in it, the result of
-- each `write` (`none` for -1), and the seconds of the two clock readings.
pub record DirectSystem : Type 0 where
  pub memalign : Option Pointer
  pub write : ℕ → Option ℕ
  pub t0_sec : ℕ
  pub t1_sec : ℕ

-- The pieces of the file, the messages, the time in seconds, and the two operands of the division
-- of which the rate is the quotient.
pub record DirectResult : Type 0 where
  pub written : List (List ℕ)
  pub errors : ℕ
  pub time : ℤ
  pub rate : ℤ × ℤ

-- A write of fewer bytes is no error, and is not continued.
unfoldable pub write_blocks : (ℕ → Option ℕ) → Pointer → ℕ → ℕ → List (List ℕ) × ℕ
write_blocks write buffer zero i = ([], 0)
write_blocks write buffer (suc n) i =
    let (written, errors) = write_blocks write buffer n (i + 1) in
    elim (write i) [
      | none ↦ (written, suc errors)
      | some k ↦ (take k (slice buffer 0 blocksize) ∷ written, errors)
    ]

abbrev pub iteration : ℕ
iteration = 1000000

-- `main` in the memory that it was given.
abbrev pub write_from : DirectSystem → Pointer → DirectResult
write_from system memory =
    let buffer = copy_to memory 0 image in
    let (written, errors) = write_blocks system.write buffer iteration 0 in
    let time = pos system.t1_sec -ℤ pos system.t0_sec in
    record { written = written; errors = errors; time = time; rate = (pos (iteration / 2), time) }

-- `main`; `none` without memory, where it copies to an address that it was not given.
unfoldable pub write_image : DirectSystem → Option DirectResult
write_image system = elim system.memalign [
  | none ↦ none
  | some memory ↦ some (write_from system memory)
]
