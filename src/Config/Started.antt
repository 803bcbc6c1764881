-- ===== src/Config/Started.antt =====
-- What stands in the arrays of `main` when its loops are through.
use vmars.Prelude.{
  ℕ, zero, suc, ◌+◌, ◌*◌, ◌<◌, ◌≡◌, refl, sym, ap, ◌∙◌, Bool, true, false, List, [], ◌∷◌, ◌++◌, map,
  Option, none, some, replicate, length, length-append, arith, append_assoc,
}
use vmars.Prelude.Int.{ℤ, pos, ltb_ℤ}
use vmars.Ring.Defs.{Rb, Status, einval, vmars_spsc_rb_init, success, enomem}
use vmars.Ring.Fifo.{start}
use vmars.Ring.Start.{init-start}
use vmars.Config.Defs.{ThreadContext, interface_threads, all_threads}
use vmars.Config.Plan.{length-interface_threads}
use vmars.Config.Threads.{
  Slot, Event, create_capture, State, System, write_at, rb_capacity, status_code, exit_failure,
  running, store, start_thread, start_each, allocated,
}

-- Contexts numbered from `k` on.
abbrev pub AreNumbered : ℕ → List ThreadContext → Type 0
AreNumbered k [] = Unit
AreNumbered k (t ∷ ts) = (t.thread_num ≡ k) × AreNumbered (suc k) ts

AreNumbered-append :
    (ts us : List ThreadContext) (k : ℕ)
    → AreNumbered k ts
    → AreNumbered (k + length ts) us
    → AreNumbered k (ts ++ us)
AreNumbered-append [] us k n m = let e : k + 0 ≡ k = omega arith in rw e at m
AreNumbered-append (t ∷ ts) us k n m =
    let e : k + suc (length ts) ≡ suc k + length ts = omega arith in
    (n.0, AreNumbered-append ts us (suc k) n.1 (rw e at m))

module _ (num_threads : ℕ) (port : ℤ) (affinity : List (List ℕ)) where
  interface_threads-AreNumbered :
      (n i j : ℕ) (name : List ℕ)
      → AreNumbered (j * num_threads + i) (interface_threads num_threads port affinity n i j name)
  unfolding interface_threads
  interface_threads-AreNumbered zero i j name = tt
  interface_threads-AreNumbered (suc n) i j name =
      let e : j * num_threads + (i + 1) ≡ suc (j * num_threads + i) = omega arith in
      (refl, rw e at (interface_threads-AreNumbered n (i + 1) j name))

  pub all_threads-AreNumbered :
      (names : List (List ℕ)) (j : ℕ)
      → AreNumbered (j * num_threads) (all_threads num_threads port affinity j names)
  unfolding all_threads
  all_threads-AreNumbered [] j = tt
  all_threads-AreNumbered (name ∷ names) j =
      let own = interface_threads num_threads port affinity num_threads 0 j name in
      let size = length-interface_threads num_threads port affinity num_threads 0 j name in
      let first : j * num_threads + 0 ≡ j * num_threads = omega arith in
      let second : (j + 1) * num_threads ≡ j * num_threads + length own = omega (arith, size) in
      AreNumbered-append own (all_threads num_threads port affinity (j + 1) names) (j * num_threads)
        (rw first at (interface_threads-AreNumbered num_threads 0 j name))
        (rw second at (all_threads-AreNumbered names (j + 1)))

module _ {ℓ} {A : Type ℓ} where
  write_at-append :
      (xs ys : List A) (x v : A) → write_at (xs ++ (x ∷ ys)) (length xs) v ≡ some (xs ++ (v ∷ ys))
  unfolding write_at
  write_at-append [] ys x v = refl
  write_at-append (y ∷ xs) ys x v = rw (write_at-append xs ys x v) refl

  -- The next free place of an array that is filled in order.
  write_at_next :
      (xs : List A) (x : A) (k n : ℕ) (v : A)
      → length xs ≡ k
      → write_at (xs ++ replicate (suc n) x) k v ≡ some (xs ++ (v ∷ []) ++ replicate n x)
  write_at_next xs x k n v size =
      rw (append_assoc xs (v ∷ []) (replicate n x), sym size)
        (write_at-append xs (replicate n x) x v)

-- A ring, as far as there is memory for it.
abbrev pub ring_if : Option (ℕ → ℕ) → Bool → Option Rb
ring_if none allocated = none
ring_if (some buffer) true = some (start 12 buffer).rb
ring_if (some buffer) false = none

init-ring_if :
    (page_size : ℕ) (mapped : Option (ℕ → ℕ)) (allocated : Bool)
    → (vmars_spsc_rb_init page_size mapped allocated rb_capacity).1 ≡ ring_if mapped allocated
init-ring_if page_size none allocated =
    ap (λ r. r.1) (init-start 12 page_size none allocated (omega arith)).0
init-ring_if page_size (some buffer) true =
    ap (λ r. r.1) (init-start 12 page_size (some buffer) true (omega arith)).0
init-ring_if page_size (some buffer) false =
    ap (λ r. r.1) (init-start 12 page_size (some buffer) false (omega arith)).0

module _ (system : System) where
  open system use {calloc, page_size, mapped, descriptor}

  abbrev pub ring_of : ℕ → Option Rb
  ring_of idx = ring_if (mapped idx) (descriptor idx)

  abbrev pub slot_of : ThreadContext → Option Slot
  slot_of t = some (record { context = t; rb = ring_of t.thread_num })

  abbrev pub number_of : ThreadContext → Option ℕ
  number_of t = some t.thread_num

  abbrev pub creations : List ThreadContext → List Event → List Event
  creations [] events = events
  creations (t ∷ ts) events = creations ts (create_capture t.thread_num ∷ events)

  -- Arrays with what was written so far, and `n` places left.
  abbrev filled : List (Option Slot) → List (Option ℕ) → ℕ → List Event → State
  filled slots numbers n events = record {
    thread_contexts = slots ++ replicate n none;
    polling_threads = numbers ++ replicate n none;
    ring_buffers = numbers ++ replicate n none;
    counters = numbers ++ replicate n none;
    events = events;
  }

  status_code-positive : (status : Status) → ltb_ℤ (status_code status) (pos 0) ≡ false
  status_code-positive success = refl
  status_code-positive einval = refl
  status_code-positive enomem = refl

  start_thread-filled :
      (t : ThreadContext) (slots : List (Option Slot)) (numbers : List (Option ℕ)) (n : ℕ)
      (events : List Event)
      → calloc t.thread_num ≡ true
      → length slots ≡ t.thread_num
      → length numbers ≡ t.thread_num
      → start_thread system (filled slots numbers (suc n) events) t
        ≡ running (
            filled
              (slots ++ (slot_of t ∷ []))
              (numbers ++ (number_of t ∷ []))
              n
              (create_capture t.thread_num ∷ events))
  unfolding start_thread store
  start_thread-filled t slots numbers n events given a b =
      rw
        (
          status_code-positive
              (vmars_spsc_rb_init page_size (mapped t.thread_num) (descriptor t.thread_num)
                rb_capacity).0,
          given,
          init-ring_if page_size (mapped t.thread_num) (descriptor t.thread_num),
          write_at_next slots none t.thread_num n (slot_of t) a,
          write_at_next numbers none t.thread_num n (number_of t) b,
        )
        refl

  -- The rest of the contexts.
  start_each-filled :
      (ts : List ThreadContext) (k : ℕ) (slots : List (Option Slot)) (numbers : List (Option ℕ))
      (events : List Event)
      → AreNumbered k ts
      → ((idx : ℕ) → idx < k + length ts → calloc idx ≡ true)
      → length slots ≡ k
      → length numbers ≡ k
      → start_each system (filled slots numbers (length ts) events) ts
        ≡ running (record {
          thread_contexts = slots ++ map slot_of ts;
          polling_threads = numbers ++ map number_of ts;
          ring_buffers = numbers ++ map number_of ts;
          counters = numbers ++ map number_of ts;
          events = creations ts events;
        })
  unfolding start_each
  start_each-filled [] k slots numbers events numbered given a b = refl
  start_each-filled (t ∷ ts) k slots numbers events numbered given a b =
      let one =
        start_thread-filled t slots numbers (length ts) events
          (given t.thread_num (omega (arith, numbered.0))) (a ∙ sym numbered.0)
          (b ∙ sym numbered.0) in
      let rest =
        start_each-filled ts (suc k) (slots ++ (slot_of t ∷ [])) (numbers ++ (number_of t ∷ []))
          (create_capture t.thread_num ∷ events) numbered.1 (λ idx lt. given idx (omega arith))
          (omega (arith, length-append slots (slot_of t ∷ []), a))
          (omega (arith, length-append numbers (number_of t ∷ []), b)) in
      rw (start_each, one)
        (rw
          (
            append_assoc slots (slot_of t ∷ []) (map slot_of ts),
            append_assoc numbers (number_of t ∷ []) (map number_of ts),
          )
          at rest)

  -- A structure that cannot be allocated ends the loops there.
  start_each-exit :
      (ts us : List ThreadContext) (t : ThreadContext) (k : ℕ) (slots : List (Option Slot))
      (numbers : List (Option ℕ)) (events : List Event)
      → AreNumbered k (ts ++ (t ∷ us))
      → ((idx : ℕ) → idx < k + length ts → calloc idx ≡ true)
      → calloc t.thread_num ≡ false
      → length slots ≡ k
      → length numbers ≡ k
      → start_each system (filled slots numbers (length (ts ++ (t ∷ us))) events) (ts ++ (t ∷ us))
        ≡ exit_failure (creations ts events)
  unfolding start_each start_thread
  start_each-exit [] us t k slots numbers events numbered given missing a b =
      rw (start_each, start_thread, missing) refl
  start_each-exit (x ∷ ts) us t k slots numbers events numbered given missing a b =
      let one =
        start_thread-filled x slots numbers (length (ts ++ (t ∷ us))) events
          (given x.thread_num (omega (arith, numbered.0))) (a ∙ sym numbered.0)
          (b ∙ sym numbered.0) in
      let rest =
        start_each-exit ts us t (suc k) (slots ++ (slot_of x ∷ [])) (numbers ++ (number_of x ∷ []))
          (create_capture x.thread_num ∷ events) numbered.1 (λ idx lt. given idx (omega arith))
          missing (omega (arith, length-append slots (slot_of x ∷ []), a))
          (omega (arith, length-append numbers (number_of x ∷ []), b)) in
      rw (start_each, one) rest

  pub start_each-missing :
      (ts us : List ThreadContext) (t : ThreadContext)
      → AreNumbered 0 (ts ++ (t ∷ us))
      → ((idx : ℕ) → idx < length ts → calloc idx ≡ true)
      → calloc t.thread_num ≡ false
      → start_each system (allocated (length (ts ++ (t ∷ us)))) (ts ++ (t ∷ us))
        ≡ exit_failure (creations ts [])
  start_each-missing ts us t numbered given missing =
      start_each-exit ts us t 0 [] [] [] numbered (λ idx lt. given idx (omega arith)) missing refl
        refl

  -- The arrays when all threads are started.
  abbrev pub all_started : List ThreadContext → State
  all_started ts = record {
    thread_contexts = map slot_of ts;
    polling_threads = map number_of ts;
    ring_buffers = map number_of ts;
    counters = map number_of ts;
    events = creations ts [];
  }

  -- The arrays have exactly the places that the loops write.
  pub start_each-all :
      (ts : List ThreadContext)
      → AreNumbered 0 ts
      → ((idx : ℕ) → idx < length ts → calloc idx ≡ true)
      → start_each system (allocated (length ts)) ts ≡ running (all_started ts)
  start_each-all ts numbered given =
      start_each-filled ts 0 [] [] [] numbered (λ idx lt. given idx (omega arith)) refl refl
