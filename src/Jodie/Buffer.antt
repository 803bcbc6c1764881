-- ===== src/Jodie/Buffer.antt =====
-- What a log call does to the buffer, and what it sends.
use vmars.Prelude.{
  copy_to, copy_to-before, copy_to-after, ℕ, zero, suc, ◌+◌, ◌≤◌, ◌<◌, ◌≡◌, refl, ◌∙◌, true, false,
  List, [], ◌∷◌, ◌++◌, none, some, Pointer, length, length-append, ltb, arith, Bool-cases, inl, inr,
}
use vmars.Parser.Number.{Stands-ext, Stands-copy_to, Stands, Stands-join}
use vmars.Prelude.Nul.{HasNoNul, HasNoNul-append}
use vmars.Jodie.Defs.{
  Jodie, Outcome, buffer_size, packet_size, cleared, c_string_at, jodie_flush, append_line,
  log_line,
}

-- The buffer holds the text `p`, and zeros behind it.
pub record Holds (j : Jodie) (p : List ℕ) : Type 0 where
  pub index : j.send_index ≡ length p
  pub text : Stands p j.send_buffer 0
  pub no_nul : HasNoNul p
  pub clear : (i : ℕ) → length p ≤ i → j.send_buffer i ≡ 0

c_string_at-Stands :
    (p : List ℕ) (n : ℕ) (buf : Pointer) (i : ℕ)
    → Stands p buf i
    → HasNoNul p
    → buf (i + length p) ≡ 0
    → length p < n
    → c_string_at n buf i ≡ some p
unfolding c_string_at
c_string_at-Stands p zero buf i s h e room = absurd (omega arith)
c_string_at-Stands [] (suc n) buf i s h e room = ground arith
c_string_at-Stands (c ∷ cs) (suc n) buf i s h e room =
    let next : i + suc (length cs) ≡ i + 1 + length cs = omega arith in
    ground (arith, c_string_at-Stands cs n buf (i + 1) s.1 h.1 (rw next at e) (omega arith))

-- The state that appending leaves.
abbrev extended : Jodie → List ℕ → Jodie
extended j line = record {
  send_index = j.send_index + length line;
  send_buffer = copy_to j.send_buffer j.send_index line;
}

extended-Holds :
    (j : Jodie) (p line : List ℕ) → Holds j p → HasNoNul line → Holds (extended j line) (p ++ line)
extended-Holds j p line h n =
    let size = length-append p line in
    let buf = copy_to j.send_buffer j.send_index line in
    record {
      index = omega (arith, h.index, size);
      text =
          Stands-join p line buf 0
            (Stands-ext p j.send_buffer buf 0
              (λ k lo hi. copy_to-before line j.send_buffer j.send_index k (omega (arith, h.index)))
              h.text)
            (let e : 0 + length p ≡ j.send_index = omega (arith, h.index) in
              rw e (Stands-copy_to line j.send_buffer j.send_index));
      no_nul = HasNoNul-append p line h.no_nul n;
      clear = λ i le.
          copy_to-after line j.send_buffer j.send_index i (omega (arith, h.index, size))
          ∙ h.clear i (omega (arith, size));
    }

pub init-Holds : Holds cleared []
init-Holds = record { index = refl; text = tt; no_nul = tt; clear = λ i le. refl }

pub flush_lem :
    (j : Jodie) (p : List ℕ)
    → Holds j p
    → length p < buffer_size
    → (jodie_flush true j ≡ some (record { jodie = cleared; succeeded = true; sent = p ∷ [] }))
      × (jodie_flush false j ≡ some (record { jodie = j; succeeded = false; sent = [] }))
unfolding jodie_flush
flush_lem j p h room =
    let payload =
      c_string_at-Stands p buffer_size j.send_buffer 0 h.text h.no_nul
        (h.clear (0 + length p) (omega arith)) room in
    (rw (jodie_flush, payload), rw (jodie_flush, payload))

-- What a log call does to the text in the buffer while the network takes the datagrams: with room
-- in a packet it is appended to and nothing is sent, otherwise the old text is sent whole as one
-- datagram, and the line begins the next one. Neither the old text nor the line is longer than a
-- packet.
pub log_line-sent :
    (j : Jodie) (p line : List ℕ)
    → Holds j p
    → HasNoNul line
    → length p ≤ packet_size
    → length line ≤ packet_size
    → (o : Outcome) × (log_line true j line ≡ some o)
      × (length p + length line ≤ packet_size → (o.sent ≡ []) × Holds o.jodie (p ++ line))
      × (packet_size < length p + length line → (o.sent ≡ p ∷ []) × Holds o.jodie line)
unfolding log_line append_line
log_line-sent j p line h n small fits =
    elim (Bool-cases (ltb packet_size (length line + j.send_index))) [
      | inr room ↦ (
        record { jodie = extended j line; succeeded = true; sent = [] },
        rw room (ground (arith, h.index)),
        λ _. (refl, extended-Holds j p line h n),
        λ over. absurd (ground (arith, h.index)),
      )
      | inl full ↦ (
        record { jodie = extended cleared line; succeeded = true; sent = p ∷ [] },
        rw (full, (flush_lem j p h (omega arith)).0) (ground arith),
        λ under. absurd (ground (arith, h.index)),
        λ _. (refl, extended-Holds cleared [] line init-Holds n),
      )
    ]

-- While the network refuses datagrams a line is appended to the text in the buffer, past the
-- packet's limit too, as long as the buffer has room for it; a line for which it has none is written
-- past the buffer's end. The old text does not fill the buffer.
pub log_line-refused :
    (j : Jodie) (p line : List ℕ)
    → Holds j p
    → HasNoNul line
    → length p < buffer_size
    → (length p + length line ≤ buffer_size
        → (o : Outcome) × (log_line false j line ≡ some o)
          × (o.sent ≡ [])
          × Holds o.jodie (p ++ line))
      × (buffer_size < length p + length line → log_line false j line ≡ none)
unfolding log_line append_line
log_line-refused j p line h n small =
    let refused = (flush_lem j p h small).1 in
    (
      λ fits. (
        record { jodie = extended j line; succeeded = true; sent = [] },
        (elim (Bool-cases (ltb packet_size (length line + j.send_index))) [
          | inr room ↦ rw room (ground (arith, h.index))
          | inl full ↦ rw (full, refused) (ground (arith, h.index))
        ]),
        refl,
        extended-Holds j p line h n,
      ),
      λ over. elim (Bool-cases (ltb packet_size (length line + j.send_index))) [
        | inr room ↦ rw room (ground (arith, h.index))
        | inl full ↦ rw (full, refused) (ground (arith, h.index))
      ],
    )
