-- ===== src/Ring/Buffer.antt =====
-- `map_buffer` of src/spsc_rb.c. The system calls are parameters: each answers to the calls that
-- were made before it, the last one first. Messages are left out.
use vmars.Prelude.{
  ℕ, ◌+◌, ◌-◌, ◌*◌, ◌%◌, ◌^◌, ◌<◌, ◌≡◌, refl, sym, ap, ◌∙◌, ◌&&◌, List, [], ◌∷◌, Option, none, some,
  ltb, leb, if◌then◌else◌, arith, Option-cases, inl, inr,
}
use vmars.Prelude.Int.{ℤ, pos, negsuc}

-- The mappings of `mmap`: an anonymous one, and one of a file at a fixed address, from the file's
-- beginning on.
pub data MapCall : Type 0 where
  mmap_anonymous : ℕ → MapCall
  mkstemp : MapCall
  ftruncate : ℕ → ℕ → MapCall
  mmap_fixed : ℕ → ℕ → ℕ → MapCall
  close : ℕ → MapCall
  unlink : MapCall

-- `address` is what mmap returns, `none` for MAP_FAILED; `opened` what mkstemp does.
pub record MapOs : Type 0 where
  pub address : List MapCall → MapCall → Option ℕ
  pub opened : List MapCall → ℤ

abbrev cleanup : Option ℕ → ℕ → List MapCall → Option ℕ × List MapCall
cleanup address fd calls = (address, unlink ∷ close fd ∷ calls)

module _ (os : MapOs) where
  open os use {address, opened}

  -- The two mappings of the file into the memory at `full_address`.
  unfoldable pub map_halves : ℕ → ℕ → ℕ → List MapCall → Option ℕ × List MapCall
  map_halves full_address fd length calls =
      let first = mmap_fixed full_address fd length in
      let second = mmap_fixed (full_address + length) fd length in
      elim (address calls first) [
        | none ↦ cleanup none fd (first ∷ calls)
        | some first_half_address ↦ elim (address (first ∷ calls) second) [
          | none ↦ cleanup none fd (second ∷ first ∷ calls)
          | some _ ↦ cleanup (some first_half_address) fd (second ∷ first ∷ calls)
        ]
      ]

  unfoldable pub map_file : ℕ → ℤ → ℕ → List MapCall → Option ℕ × List MapCall
  map_file full_address (negsuc _) length calls = (none, calls)
  map_file full_address (pos fd) length calls =
      map_halves full_address fd length (ftruncate fd length ∷ calls)

  -- `none` is NULL.
  unfoldable pub map_buffer : ℕ → List MapCall → Option ℕ × List MapCall
  map_buffer length calls =
      let anonymous = mmap_anonymous (length * 2 % 2 ^ 64) in
      elim (address calls anonymous) [
        | none ↦ (none, anonymous ∷ calls)
        | some full_address ↦
            map_file full_address (opened (anonymous ∷ calls)) length (mkstemp ∷ anonymous ∷ calls)
      ]

-- Which byte of which file stands at an address: that of the last mapping over it.
abbrev pub mapped_at : List MapCall → ℕ → Option (ℕ × ℕ)
mapped_at [] a = none
mapped_at (mmap_fixed b fd n ∷ calls) a =
    if leb b a && ltb a (b + n) then some (fd, a - b) else mapped_at calls a
mapped_at (mmap_anonymous n ∷ calls) a = mapped_at calls a
mapped_at (mkstemp ∷ calls) a = mapped_at calls a
mapped_at (ftruncate fd n ∷ calls) a = mapped_at calls a
mapped_at (close fd ∷ calls) a = mapped_at calls a
mapped_at (unlink ∷ calls) a = mapped_at calls a

-- A fixed mapping is made where it was asked for.
abbrev pub IsFixed : MapOs → Type 0
IsFixed os =
    (calls : List MapCall) (a fd n b : ℕ) → os.address calls (mmap_fixed a fd n) ≡ some b → b ≡ a

-- Twice the same file in a row.
abbrev pub IsMirror : List MapCall → ℕ → ℕ → ℕ → Type 0
IsMirror calls a fd length =
    (i : ℕ)
    → i < length
    → (mapped_at calls (a + i) ≡ some (fd, i)) × (mapped_at calls (a + length + i) ≡ some (fd, i))

-- The calls with which both halves are mapped.
abbrev two_halves : ℕ → ℕ → ℕ → List MapCall → List MapCall
two_halves full fd length calls =
    unlink ∷ close fd ∷ mmap_fixed (full + length) fd length ∷ mmap_fixed full fd length ∷ calls

module _ (os : MapOs) where
  open os use {address, opened}

  halves-IsMirror :
      (full fd length : ℕ) (calls : List MapCall)
      → IsMirror (two_halves full fd length calls) full fd length
  halves-IsMirror full fd length calls i lt = (ground arith, ground arith)

  map_halves_inv :
      (full fd length : ℕ) (calls : List MapCall) (a : ℕ)
      → IsFixed os
      → (map_halves os full fd length calls).0 ≡ some a
      → (full ≡ a) × ((map_halves os full fd length calls).1 ≡ two_halves full fd length calls)
  unfolding map_halves
  map_halves_inv full fd length calls a fixed e =
      let first = mmap_fixed full fd length in
      let second = mmap_fixed (full + length) fd length in
      elim (Option-cases (address calls first)) [
        | inl failed ↦ absurd (ground arith)
        | inr (b, one) ↦ elim (Option-cases (address (first ∷ calls) second)) [
          | inl failed ↦ absurd (ground arith)
          | inr (c, two) ↦
              let at_full = fixed calls full fd length b one in
              let same : b ≡ a = ground arith in
              (sym at_full ∙ same, simp (map_halves, one, two) refl)
        ]
      ]

  map_file-IsMirror :
      (full length : ℕ) (r : ℤ) (calls : List MapCall) (a : ℕ)
      → IsFixed os
      → (map_file os full r length calls).0 ≡ some a
      → (fd : ℕ) × (full ≡ a)
        × (r ≡ pos fd)
        × ((map_file os full r length calls).1
            ≡ two_halves a fd length (ftruncate fd length ∷ calls))
  unfolding map_file
  map_file-IsMirror full length (negsuc n) calls a fixed e = absurd (ground arith)
  map_file-IsMirror full length (pos fd) calls a fixed e =
      let (same, made) = map_halves_inv full fd length (ftruncate fd length ∷ calls) a fixed e in
      (fd, same, refl, rw (sym same) made)

  map_buffer-made :
      (length : ℕ) (calls : List MapCall) (a : ℕ)
      → IsFixed os
      → (map_buffer os length calls).0 ≡ some a
      → let anonymous = mmap_anonymous (length * 2 % 2 ^ 64) in
        (fd : ℕ) × (opened (anonymous ∷ calls) ≡ pos fd)
        × (address calls anonymous ≡ some a)
        × ((map_buffer os length calls).1
            ≡ two_halves a fd length (ftruncate fd length ∷ mkstemp ∷ anonymous ∷ calls))
  unfolding map_buffer
  map_buffer-made length calls a fixed e =
      let anonymous = mmap_anonymous (length * 2 % 2 ^ 64) in
      elim (Option-cases (address calls anonymous)) [
        | inl failed ↦ absurd (ground arith)
        | inr (full, mapped) ↦
            let calls' = mkstemp ∷ anonymous ∷ calls in
            let made = map_file os full (opened (anonymous ∷ calls)) length calls' in
            let same : map_buffer os length calls ≡ made = simp (map_buffer, mapped) refl in
            let (fd, at_a, given, all) =
              map_file-IsMirror full length (opened (anonymous ∷ calls)) calls' a fixed
                (rw same at e) in
            (fd, given, mapped ∙ ap some at_a, rw same all)
      ]

  -- A buffer that was mapped is there twice in a row: byte i of it and byte i behind its end are
  -- both byte i of the one file that mkstemp made for it, so that what is written past the end
  -- reappears at the beginning. Both halves lie in memory of twice the length that was reserved for
  -- them, at whose address the buffer begins; the file was given the buffer's length before it was
  -- mapped, and is closed and unlinked behind the mappings. A fixed mapping is made where it was
  -- asked for, and twice the length fits 64 bits.
  pub map_buffer-IsMirror :
      (length : ℕ) (calls : List MapCall) (a : ℕ)
      → IsFixed os
      → length * 2 < 2 ^ 64
      → (map_buffer os length calls).0 ≡ some a
      → let reserved = mmap_anonymous (length * 2) ∷ calls in
        (fd : ℕ) × (opened reserved ≡ pos fd)
        × (address calls (mmap_anonymous (length * 2)) ≡ some a)
        × ((map_buffer os length calls).1
            ≡ unlink
              ∷ close fd
              ∷ mmap_fixed (a + length) fd length
              ∷ mmap_fixed a fd length
              ∷ ftruncate fd length
              ∷ mkstemp
              ∷ reserved)
        × IsMirror (map_buffer os length calls).1 a fd length
  map_buffer-IsMirror length calls a fixed small e =
      let twice : length * 2 % 2 ^ 64 ≡ length * 2 = omega arith in
      let (fd, given, reserved, all) = rw twice at (map_buffer-made length calls a fixed e) in
      (
        fd,
        given,
        reserved,
        all,
        rw all (
            halves-IsMirror a fd length
              (ftruncate fd length ∷ mkstemp ∷ mmap_anonymous (length * 2) ∷ calls)),
      )
