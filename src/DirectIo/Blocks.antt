-- ===== src/DirectIo/Blocks.antt =====
-- What src/directio.c writes.
use vmars.Prelude.{
  ap, ℕ, zero, suc, ◌+◌, ◌-◌, ◌≡◌, refl, ◌∙◌, List, [], ◌∷◌, ◌++◌, Option, none, some, Pointer,
  slice, slice-add, slice-ext, copy_to, copy_to-after, take, length, arith, Option-cases, inl, inr,
}
use vmars.Parser.Number.{slice-Stands, Stands-copy_to}
use vmars.Prelude.Int.{sub_ℕ, ◌-ℤ◌}
use vmars.DirectIo.{
  blocksize, image, DirectSystem, DirectResult, write_blocks, iteration, write_image, write_from,
}

-- The image, and what stood in the memory behind it.
abbrev pub block_of : Pointer → List ℕ
block_of memory = image ++ slice memory (length image) (blocksize - length image)

slice-block_of : (memory : Pointer) → slice (copy_to memory 0 image) 0 blocksize ≡ block_of memory
slice-block_of memory =
    let buffer = copy_to memory 0 image in
    let split = slice-add buffer 0 (length image) (blocksize - length image) in
    let first = slice-Stands image buffer 0 (Stands-copy_to image memory 0) in
    let second =
      slice-ext buffer memory (length image) (blocksize - length image)
        (λ k lo hi. copy_to-after image memory 0 k (omega arith)) in
    split ∙ rw (first, second) refl

-- What the system answers to `n` writes from the `i`-th on.
unfoldable pub answers_of : (ℕ → Option ℕ) → ℕ → ℕ → List (Option ℕ)
answers_of write i zero = []
answers_of write i (suc n) = write i ∷ answers_of write (i + 1) n

-- What a file holds behind writes of a block with these answers, and how many of them failed.
unfoldable pub pieces_of : List ℕ → List (Option ℕ) → List (List ℕ)
pieces_of block [] = []
pieces_of block (none ∷ answers) = pieces_of block answers
pieces_of block (some k ∷ answers) = take k block ∷ pieces_of block answers

unfoldable pub failures_of : List (Option ℕ) → ℕ
failures_of [] = 0
failures_of (none ∷ answers) = suc (failures_of answers)
failures_of (some k ∷ answers) = failures_of answers

write_blocks-pieces :
    (write : ℕ → Option ℕ) (buffer : Pointer) (n i : ℕ)
    → let answers = answers_of write i n in
      write_blocks write buffer n i
      ≡ (pieces_of (slice buffer 0 blocksize) answers, failures_of answers)
unfolding write_blocks answers_of pieces_of failures_of
write_blocks-pieces write buffer zero i = refl
write_blocks-pieces write buffer (suc n) i =
    let rest = write_blocks-pieces write buffer n (i + 1) in
    elim (Option-cases (write i)) [
      | inl failed ↦ rw (write_blocks, failed, rest) refl
      | inr (k, done) ↦ rw (write_blocks, done, rest) refl
    ]

-- With memory for its buffer the program makes a million writes of one block, and the file holds, in
-- their order, what each that succeeded has put into it: as many bytes of the block, from its
-- beginning on, as the system answered; as many errors are reported as writes failed. The block is
-- the image, and behind it what happened to stand in the memory. The time is the difference of the
-- two clock readings. Without memory the program is undefined.
pub write_image_lem :
    (system : DirectSystem)
    → (system.memalign ≡ none → write_image system ≡ none)
      × ((memory : Pointer)
          → system.memalign ≡ some memory
          → let answers = answers_of system.write 0 1000000 in
            (r : DirectResult) × (write_image system ≡ some r)
            × (r.written ≡ pieces_of (block_of memory) answers)
            × (r.errors ≡ failures_of answers)
            × (r.time ≡ sub_ℕ system.t1_sec system.t0_sec))
unfolding write_image ◌-ℤ◌
write_image_lem system = (
  λ missing. rw (write_image, missing) refl,
  λ memory given.
      let buffer = copy_to memory 0 image in
      let done = write_blocks-pieces system.write buffer iteration 0 in
      (
        write_from system memory,
        rw (write_image, given) refl,
        rw (ap (λ r. r.0) done, slice-block_of memory) refl,
        ap (λ r. r.1) done,
        ground arith,
      ),
)
