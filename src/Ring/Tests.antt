-- ===== src/Ring/Tests.antt =====
-- Small rings at work.
use mathlib.Core.Option.{some-injective}
use vmars.Prelude.Int.{pos}
use vmars.Prelude.{sym, true, ℕ, ◌≡◌, refl, List, [], ◌∷◌, ◌++◌, none, some, arith}
use vmars.Ring.Defs.{
  vmars_spsc_rb_init, is_power_of_two, is_multiple_of_page_size, Rb, success, store_bytes,
  claim_record, available_capacity, vmars_spsc_rb_claim,
}
use vmars.Ring.Valid.{IsValid}
use vmars.Ring.Records.{Contents}
use vmars.Ring.Produce.{Claimed, claim_record-Claimed}
use vmars.Ring.Interleave.{System, Step, claimed, Reach, here, next}
use vmars.Ring.Samples.{ring, empty, empty-IsValid, record_bytes}
use vmars.Ring.Buffer.{
  mmap_anonymous, mkstemp, ftruncate, mmap_fixed, close, unlink, MapOs, IsMirror, map_buffer,
  map_file, map_halves, map_buffer-IsMirror,
}
use vmars.Ring.Start.{init-start}
use vmars.Ring.Fifo.{start, fifo}

abbrev claimed_ring : Rb
unfolding claim_record
claimed_ring = (claim_record empty 3).1

claimed_ring-Claimed : Claimed 4 claimed_ring [] 3
unfolding claim_record
claimed_ring-Claimed = claim_record-Claimed 4 empty [] 3 empty-IsValid refl (omega arith)

abbrev one_unpublished : Rb
one_unpublished = ring record_bytes 0 0

abbrev zero_bytes : ℕ → ℕ
zero_bytes i = 0

abbrev claimed_system : System
claimed_system = record (start 4 zero_bytes) {
  rb = record (start 4 zero_bytes).rb { buffer = store_bytes 16 zero_bytes 0 (3 ∷ 0 ∷ 0 ∷ 0 ∷ []) };
  producer = claimed 0 3;
}

claimed_system-Reach : Reach (start 4 zero_bytes) claimed_system
unfolding vmars_spsc_rb_claim claim_record available_capacity
claimed_system-Reach = next here (Step.claim 3 0 claimed_system.rb refl (omega arith) refl)

fifo_example :
    (pending : List (List ℕ)) × (claimed_system.published ≡ claimed_system.consumed ++ pending)
    × Contents claimed_system.rb pending
fifo_example = fifo 4 zero_bytes (omega arith) claimed_system-Reach

-- Neither a power of two nor a multiple of the page size.
accepts_any : (vmars_spsc_rb_init 4096 (some zero_bytes) true 100).0 ≡ success
unfolding vmars_spsc_rb_init is_power_of_two is_multiple_of_page_size
accepts_any = refl

init-start_example :
    (vmars_spsc_rb_init 4096 (some zero_bytes) true 4096 ≡ (success, some (start 12 zero_bytes).rb))
    × ((buffer : ℕ → ℕ) → IsValid 12 (start 12 buffer).rb × Contents (start 12 buffer).rb [])
init-start_example = init-start 12 4096 (some zero_bytes) true (omega arith)

-- Every mapping is made where it was asked for, the first one at 65536.
abbrev map_os : MapOs
map_os = record {
  address = λ calls c. elim c [
    | mmap_fixed a fd n ↦ some a
    | mmap_anonymous n ↦ some 65536
    | mkstemp ↦ none
    | ftruncate fd n ↦ none
    | close fd ↦ none
    | unlink ↦ none
  ];
  opened = λ calls. pos 5;
}

map_buffer-IsMirror_example :
    let reserved = mmap_anonymous 8192 ∷ [] in
    (fd : ℕ) × (map_os.opened reserved ≡ pos fd)
    × (map_os.address [] (mmap_anonymous 8192) ≡ some 65536)
    × ((map_buffer map_os 4096 []).1
        ≡ unlink
          ∷ close fd
          ∷ mmap_fixed 69632 fd 4096
          ∷ mmap_fixed 65536 fd 4096
          ∷ ftruncate fd 4096
          ∷ mkstemp
          ∷ reserved)
    × IsMirror (map_buffer map_os 4096 []).1 65536 fd 4096
unfolding map_buffer map_file map_halves
map_buffer-IsMirror_example =
    map_buffer-IsMirror map_os 4096 [] 65536 (λ calls a fd n b e. sym (some-injective _ _ e))
      (omega arith) refl
