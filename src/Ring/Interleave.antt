-- ===== src/Ring/Interleave.antt =====
-- One producer and one consumer at work on a ring, their calls interleaved in any order. Each call
-- reads or writes one shared position once, so that a call is one step.
use vmars.Prelude.{ℕ, ◌+◌, ◌^◌, ◌<◌, ◌≡◌, List, [], ◌∷◌, ◌++◌, none, some, length}
use vmars.Ring.Defs.{
  Rb, Status, header_size, record_data, write_data, vmars_spsc_rb_claim, vmars_spsc_rb_publish,
  vmars_spsc_rb_poll, vmars_spsc_rb_release,
}

-- Where the producer stands: between records, with a claimed record, with one filled in.
pub data Producer : Type 0 where
  idle : Producer
  claimed : ℕ → ℕ → Producer
  written : ℕ → List ℕ → Producer

-- Where the consumer stands: between records, or with the address of one.
pub data Consumer : Type 0 where
  waiting : Consumer
  reading : ℕ → Consumer

-- The two lists are history: the records published, and those read, in order.
pub record System : Type 0 where
  pub rb : Rb
  pub producer : Producer
  pub consumer : Consumer
  pub published : List (List ℕ)
  pub consumed : List (List ℕ)

pub data Step (s : System) : System → Type 0 where
  claim :
      (n a : ℕ) (rb' : Rb)
      → s.producer ≡ idle
      → n < 2 ^ 63
      → vmars_spsc_rb_claim s.rb n ≡ (some a, rb')
      → Step s (record s { rb = rb'; producer = claimed a n })
  claim_fails :
      (n : ℕ) (rb' : Rb)
      → s.producer ≡ idle
      → n < 2 ^ 63
      → vmars_spsc_rb_claim s.rb n ≡ (none, rb')
      → Step s (record s { rb = rb' })
  write :
      (a : ℕ) (xs : List ℕ)
      → s.producer ≡ claimed a (length xs)
      → Step s (record s { rb = write_data s.rb a xs; producer = written a xs })
  publish :
      (a : ℕ) (xs : List ℕ) (status : Status) (rb' : Rb)
      → s.producer ≡ written a xs
      → s.rb.tail_position + header_size + length xs < 2 ^ 62
      → vmars_spsc_rb_publish s.rb a ≡ (status, rb')
      → Step s (record s { rb = rb'; producer = idle; published = s.published ++ (xs ∷ []) })
  poll :
      (a : ℕ) (rb' : Rb)
      → s.consumer ≡ waiting
      → vmars_spsc_rb_poll s.rb ≡ (some a, rb')
      → Step s (record s { rb = rb'; consumer = reading a })
  poll_fails :
      (rb' : Rb)
      → s.consumer ≡ waiting
      → vmars_spsc_rb_poll s.rb ≡ (none, rb')
      → Step s (record s { rb = rb' })
  release :
      (a : ℕ) (status : Status) (rb' : Rb)
      → s.consumer ≡ reading a
      → vmars_spsc_rb_release s.rb a ≡ (status, rb')
      → Step s (record s {
        rb = rb';
        consumer = waiting;
        consumed = s.consumed ++ (record_data s.rb a ∷ []);
      })

pub data Reach (s : System) : System → Type 0 where
  here : Reach s s
  next : {t u : System} → Reach s t → Step t u → Reach s u
