-- ===== src/Config/Threads.antt =====
-- `main` of src/main.c behind its options: the rings, the threads that it starts, and its end. The
-- memory for its arrays and rings and the system calls are parameters.
use vmars.Prelude.{
  ℕ, zero, suc, ◌-◌, ◌*◌, ◌^◌, Bool, not, List, [], ◌∷◌, Option, none, some, replicate, length,
  if◌then◌else◌,
}
use vmars.Prelude.Int.{ℤ, pos, negsuc, ltb_ℤ}
use vmars.Parser.Defs.{◌>>=◌}
use vmars.Ring.Defs.{Rb, Status, success, einval, enomem, vmars_spsc_rb_init}
use vmars.Jodie.Defs.{Server, jodie_init, jodie_dup}
use vmars.Config.Defs.{
  Config, set_default_config, read_options, ThreadContext, MainResult, usage, refused, undefined,
  started, main,
}
use vmars.Config.Text.{split_string}

-- An element of `thread_contexts` with its ring, whose parts are NULL (`none`) when it could not be
-- initialised. The other fields are the zeros of `calloc`.
pub record Slot : Type 0 where
  pub context : ThreadContext
  pub rb : Option Rb

-- The calls that start and join threads, each capture thread by the number of its context; the
-- latency and the counter thread with the rings and counters that they are given.
pub data Event : Type 0 where
  create_capture : ℕ → Event
  create_latency : List (Option ℕ) → Event
  create_counters : List (Option ℕ) → Event
  join_capture : ℕ → Event
  join_latency : Event
  join_counters : Event
  close : ℤ → Event

-- The arrays, with `none` where nothing was written yet; `ring_buffers` and `counters` point into
-- the contexts, by their number. The events, the last one first.
pub record State : Type 0 where
  pub thread_contexts : List (Option Slot)
  pub polling_threads : List (Option ℕ)
  pub ring_buffers : List (Option ℕ)
  pub counters : List (Option ℕ)
  pub events : List Event

-- What the system gives: the arrays, and for each thread its ring's structure, the mapped memory
-- of its buffer and its descriptor; the address of a host, and a socket.
pub record System : Type 0 where
  pub arrays : Bool
  pub calloc : ℕ → Bool
  pub page_size : ℕ
  pub mapped : ℕ → Option (ℕ → ℕ)
  pub descriptor : ℕ → Bool
  pub inet_aton : List ℕ → Option ℕ
  pub socket : ℤ

-- A write out of bounds is undefined.
unfoldable pub write_at {ℓ} : {A : Type ℓ} → List A → ℕ → A → Option (List A)
write_at [] i v = none
write_at (x ∷ xs) zero v = some (v ∷ xs)
write_at (x ∷ xs) (suc i) v = write_at xs i v >>= λ ys. some (x ∷ ys)

-- The numbers of the errors on Linux.
abbrev pub status_code : Status → ℤ
status_code success = pos 0
status_code einval = pos 22
status_code enomem = pos 12

abbrev pub rb_capacity : ℕ
rb_capacity = 4096

-- How far `main` comes.
pub data Progress : Type 0 where
  exit_failure : List Event → Progress
  out_of_bounds : Progress
  running : State → Progress

unfoldable pub store : State → ℕ → Slot → Option State
store s idx slot = do
  thread_contexts ← write_at s.thread_contexts idx (some slot)
  ring_buffers ← write_at s.ring_buffers idx (some idx)
  counters ← write_at s.counters idx (some idx)
  polling_threads ← write_at s.polling_threads idx (some idx)
  some (record {
    thread_contexts = thread_contexts;
    polling_threads = polling_threads;
    ring_buffers = ring_buffers;
    counters = counters;
    events = create_capture idx ∷ s.events;
  })

module _ (system : System) where
  open system use {arrays, calloc, page_size, mapped, descriptor, inet_aton, socket}

  -- The body of the loops, for the context that it fills in.
  unfoldable pub start_thread : State → ThreadContext → Progress
  start_thread s context =
      let idx = context.thread_num in
      let (status, rb) = vmars_spsc_rb_init page_size (mapped idx) (descriptor idx) rb_capacity in
      let next : Progress = elim (store s idx (record { context = context; rb = rb })) [
        | none ↦ out_of_bounds
        | some s' ↦ running s'
      ] in
      if not (calloc idx)
      then exit_failure s.events
      else if ltb_ℤ (status_code status) (pos 0)
      then exit_failure s.events
      else next

  unfoldable pub start_each : State → List ThreadContext → Progress
  start_each s [] = running s
  start_each s (context ∷ contexts) = elim (start_thread s context) [
    | exit_failure events ↦ exit_failure events
    | out_of_bounds ↦ out_of_bounds
    | running s' ↦ start_each s' contexts
  ]

-- The arrays as `calloc` gives them.
abbrev pub allocated : ℕ → State
allocated total_threads = record {
  thread_contexts = replicate total_threads none;
  polling_threads = replicate total_threads none;
  ring_buffers = replicate total_threads none;
  counters = replicate total_threads none;
  events = [];
}

-- Joins the first `n` threads of an array; it is undefined to read past the array, or to join
-- what is no thread.
unfoldable pub join_threads : ℕ → List (Option ℕ) → List Event → Option (List Event)
join_threads zero threads events = some events
join_threads (suc n) [] events = none
join_threads (suc n) (none ∷ threads) events = none
join_threads (suc n) (some idx ∷ threads) events =
    join_threads n threads (join_capture idx ∷ events)

-- An `int` as `htons` and `jodie_init` read it.
abbrev pub bits_of : ℤ → ℕ
bits_of (pos n) = n
bits_of (negsuc n) = 2 ^ 32 - 1 - n

-- How `main` ends.
pub data End : Type 0 where
  exited : List Event → End
  bad : End
  returned : State → Server → Server → List Event → End

-- The two reporting threads are started, the threads joined, the socket closed. The result of
-- `jodie_init` is not looked at. `latency` and `monitoring` are what stood on the stack.
unfoldable pub finish : System → Server → Server → List ℕ → ℤ → ℕ → State → End
finish system latency monitoring udp_host udp_port num_threads s =
    let jodie_for_latency =
      (jodie_init system.inet_aton system.socket udp_host (bits_of udp_port) latency).1 in
    let jodie_for_monitoring = jodie_dup jodie_for_latency monitoring in
    let events = create_counters s.counters ∷ create_latency s.ring_buffers ∷ s.events in
    elim (join_threads num_threads s.polling_threads events) [
      | none ↦ bad
      | some joined ↦
          returned s jodie_for_latency jodie_for_monitoring
            (close jodie_for_latency.jodie_socket ∷ join_counters ∷ join_latency ∷ joined)
    ]

unfoldable pub run_threads :
    System → Server → Server → List ℕ → ℤ → ℕ → ℕ → List ThreadContext → End
run_threads system latency monitoring udp_host udp_port num_threads total_threads contexts =
    let end : End = elim (start_each system (allocated total_threads) contexts) [
      | exit_failure events ↦ exited events
      | out_of_bounds ↦ bad
      | running s ↦ finish system latency monitoring udp_host udp_port num_threads s
    ] in
    if system.arrays then end else bad

-- With the options that were tested: they name interfaces, a host and a positive number.
unfoldable pub run_config : System → Server → Server → Option Config → List ThreadContext → End
run_config system latency monitoring none contexts = bad
run_config system latency monitoring (some config) contexts = elim config.udp_host [
  | none ↦ bad
  | some udp_host ↦ elim config.interfaces [
    | none ↦ bad
    | some interfaces ↦ elim config.num_threads [
      | negsuc n ↦ bad
      | pos num_threads ↦
          run_threads system latency monitoring udp_host config.udp_port num_threads
            (length (split_string interfaces) * num_threads) contexts
    ]
  ]
]

abbrev run_result : System → Server → Server → Option Config → MainResult → End
run_result system latency monitoring config usage = exited []
run_result system latency monitoring config (refused refusal) = exited []
run_result system latency monitoring config undefined = bad
run_result system latency monitoring config (started contexts) =
    run_config system latency monitoring config contexts

-- The whole of `main`; `exited []` where it refuses its options.
unfoldable pub run_main : System → Server → Server → List (ℕ × List ℕ) → End
run_main system latency monitoring options =
    run_result system latency monitoring (read_options options set_default_config) (main options)
