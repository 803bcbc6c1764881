-- ===== src/Ring/Invariant.antt =====
-- What holds of a ring at work, and how it carries over when the ring changes.
use mathlib.Core.List.{concat-ne-nil}
use vmars.Prelude.{ℕ, ◌≡◌, ◌≢◌, refl, List, [], ◌∷◌, ◌++◌, ◌⊎◌, inl, inr, length}
use vmars.Ring.Defs.{Rb, tail_index, head_index}
use vmars.Ring.Valid.{IsValid}
use vmars.Ring.Records.{Contents}
use vmars.Ring.Produce.{Claimed, Written}
use vmars.Ring.Consume.{polled, released}
use vmars.Ring.Interleave.{Producer, idle, claimed, written, Consumer, waiting, reading, System}

abbrev pub ProducerInv : ℕ → Rb → List (List ℕ) → Producer → Type 0
ProducerInv k rb rs idle = Unit
ProducerInv k rb rs (claimed a n) = (a ≡ tail_index rb) × Claimed k rb rs n
ProducerInv k rb rs (written a xs) = (a ≡ tail_index rb) × Written k rb rs xs

abbrev pub ConsumerInv : Rb → List (List ℕ) → Consumer → Type 0
ConsumerInv rb rs waiting = Unit
ConsumerInv rb rs (reading a) = (a ≡ head_index rb) × (rs ≢ [])

-- The ring holds the records published and not yet read.
pub record Inv (k : ℕ) (s : System) : Type 0 where
  pub pending : List (List ℕ)
  pub valid : IsValid k s.rb
  pub contents : Contents s.rb pending
  pub queue : s.published ≡ s.consumed ++ pending
  pub producer_inv : ProducerInv k s.rb pending s.producer
  pub consumer_inv : ConsumerInv s.rb pending s.consumer

pub List-cases {ℓ} :
    {A : Type ℓ} (xs : List A) → (xs ≡ []) ⊎ ((y : A) × (ys : List A) × (xs ≡ y ∷ ys))
List-cases [] = inl refl
List-cases (y ∷ ys) = inr (y, ys, refl)

-- The producer's steps leave the consumer's position alone.
pub ConsumerInv-cong :
    (rb rb' : Rb) (rs : List (List ℕ)) (c : Consumer)
    → rb'.head_position ≡ rb.head_position
    → rb'.capacity ≡ rb.capacity
    → ConsumerInv rb rs c
    → ConsumerInv rb' rs c
ConsumerInv-cong rb rb' rs waiting eh ec h = tt
ConsumerInv-cong rb rb' rs (reading a) eh ec h = (cc (h.0, eh, ec), h.1)

pub ConsumerInv-snoc :
    (rb : Rb) (rs : List (List ℕ)) (x : List ℕ) (c : Consumer)
    → ConsumerInv rb rs c
    → ConsumerInv rb (rs ++ (x ∷ [])) c
ConsumerInv-snoc rb rs x waiting h = tt
ConsumerInv-snoc rb rs x (reading a) h = (h.0, concat-ne-nil x rs)

module _ {k : ℕ} (rb : Rb) (rs : List (List ℕ)) where
  pub Claimed-polled :
      (n : ℕ) → IsValid k (polled rb) → Claimed k rb rs n → Claimed k (polled rb) rs n
  Claimed-polled n v w = record {
    valid = v;
    contents = w.contents;
    room = w.room;
    header = w.header;
  }

  pub ProducerInv-polled :
      (p : Producer)
      → IsValid k (polled rb)
      → ProducerInv k rb rs p
      → ProducerInv k (polled rb) rs p
  ProducerInv-polled idle v h = tt
  ProducerInv-polled (claimed a n) v h = (h.0, Claimed-polled n v h.1)
  ProducerInv-polled (written a xs) v h =
      (h.0, record { claimed = Claimed-polled (length xs) v h.1.claimed; bytes = h.1.bytes })

module _ {k : ℕ} (rb : Rb) (r : List ℕ) (rs : List (List ℕ)) where
  pub Claimed-released :
      (n : ℕ)
      → IsValid k (released rb r)
      → Contents (released rb r) rs
      → Claimed k rb (r ∷ rs) n
      → Claimed k (released rb r) rs n
  Claimed-released n v c w = record { valid = v; contents = c; room = w.room; header = w.header }

  pub ProducerInv-released :
      (p : Producer)
      → IsValid k (released rb r)
      → Contents (released rb r) rs
      → ProducerInv k rb (r ∷ rs) p
      → ProducerInv k (released rb r) rs p
  ProducerInv-released idle v c h = tt
  ProducerInv-released (claimed a n) v c h = (h.0, Claimed-released n v c h.1)
  ProducerInv-released (written a xs) v c h =
      (h.0, record { claimed = Claimed-released (length xs) v c h.1.claimed; bytes = h.1.bytes })
