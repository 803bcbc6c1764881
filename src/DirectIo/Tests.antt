-- ===== src/DirectIo/Tests.antt =====
-- The image measured, and a few writes.
use vmars.Prelude.{
  ◌+◌, ◌*◌, ◌≡◌, refl, [], ◌∷◌, none, some, Pointer, slice, copy_to, length, ◌==◌, if◌then◌else◌,
}
use vmars.Prelude.Int.{pos}
use vmars.DirectIo.{image, DirectSystem, DirectResult, write_blocks, write_image}
use vmars.DirectIo.Blocks.{block_of, answers_of, pieces_of, failures_of, write_image_lem}

-- The header, 24 times 7 pixels, and a byte more.
image_size : length image ≡ 11 + 24 * 7 + 1
image_size = refl

abbrev memory : Pointer
memory i = 255

abbrev system : DirectSystem
system = record { memalign = some memory; write = λ i. some 512; t0_sec = 3; t1_sec = 7 }

writes_two :
    write_blocks (λ i. if i == 1 then none else some 2) (copy_to memory 0 image) 3 0
    ≡ ((80 ∷ 53 ∷ []) ∷ (80 ∷ 53 ∷ []) ∷ [], 1)
unfolding write_blocks slice copy_to
writes_two = refl

write_image_lem_example :
    (system.memalign ≡ none → write_image system ≡ none)
    × ((memory : Pointer)
        → system.memalign ≡ some memory
        → let answers = answers_of system.write 0 1000000 in
          (r : DirectResult) × (write_image system ≡ some r)
          × (r.written ≡ pieces_of (block_of memory) answers)
          × (r.errors ≡ failures_of answers)
          × (r.time ≡ pos 4))
write_image_lem_example = write_image_lem system
