-- ===== src/Ring/Records.antt =====
-- The records that a ring holds, oldest first: the queue that it implements.
use vmars.Prelude.{ℕ, ◌+◌, ◌≤◌, ◌≡◌, refl, List, [], ◌∷◌, ◌++◌, arith, length}
use vmars.Ring.Defs.{Rb, store_bytes, int32_bytes, header_size}
use vmars.Ring.Bytes.{BytesAt, BytesAt-store_other}

-- The bytes that the records take.
abbrev pub span : List (List ℕ) → ℕ
span [] = 0
span (r ∷ rs) = header_size + length r + span rs

-- From position `p` to `end` there stand the records, each behind its length.
abbrev pub Records : ℕ → (ℕ → ℕ) → ℕ → List (List ℕ) → ℕ → Type 0
Records c buffer p [] end = p ≡ end
Records c buffer p (r ∷ rs) end =
    BytesAt c buffer p (int32_bytes (length r))
    × BytesAt c buffer (p + header_size) r
    × Records c buffer (p + header_size + length r) rs end

abbrev pub Contents : Rb → List (List ℕ) → Type 0
Contents rb rs = Records rb.capacity rb.buffer rb.head_position rs rb.tail_position

module _ (c : ℕ) where
  pub Records-span :
      (rs : List (List ℕ)) (buffer : ℕ → ℕ) (p end : ℕ)
      → Records c buffer p rs end
      → p + span rs ≡ end
  Records-span [] buffer p end h = omega arith
  Records-span (r ∷ rs) buffer p end h =
      omega (arith, Records-span rs buffer (p + header_size + length r) end h.2)

  pub Records-store :
      (rs : List (List ℕ)) (ys : List ℕ) (buffer : ℕ → ℕ) (p a end : ℕ)
      → end ≤ a
      → a + length ys ≤ p + c
      → Records c buffer p rs end
      → Records c (store_bytes c buffer a ys) p rs end
  Records-store [] ys buffer p a end before near h = h
  Records-store (r ∷ rs) ys buffer p a end before near h =
      let size = Records-span rs buffer (p + header_size + length r) end h.2 in
      (
        BytesAt-store_other c (int32_bytes (length r)) ys buffer p a (omega (arith, size)) near h.0,
        BytesAt-store_other c r ys buffer (p + header_size) a (omega (arith, size)) (omega arith)
            h.1,
        Records-store rs ys buffer (p + header_size + length r) a end before (omega arith) h.2,
      )

  pub Records-snoc :
      (rs : List (List ℕ)) (r : List ℕ) (buffer : ℕ → ℕ) (p end : ℕ)
      → Records c buffer p rs end
      → BytesAt c buffer end (int32_bytes (length r))
      → BytesAt c buffer (end + header_size) r
      → Records c buffer p (rs ++ (r ∷ [])) (end + header_size + length r)
  Records-snoc [] r buffer p end h length_there data_there = rw h (length_there, data_there, refl)
  Records-snoc (x ∷ rs) r buffer p end h length_there data_there = (
    h.0,
    h.1,
    Records-snoc rs r buffer (p + header_size + length x) end h.2 length_there data_there,
  )
