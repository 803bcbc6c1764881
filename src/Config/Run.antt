-- ===== src/Config/Run.antt =====
-- `main` of src/main.c from its options to its end.
use vmars.Prelude.{
  ℕ, zero, suc, ◌*◌, ◌≤◌, ◌<◌, ◌≡◌, ◌++◌, false, refl, sym, ◌∙◌, inl, inr, true, List, [], ◌∷◌, map,
  none, some, length, arith, Option-cases,
}
use vmars.Prelude.Int.{ℤ, pos}
use vmars.Jodie.Defs.{Server, jodie_init, jodie_dup}
use vmars.Config.Servers.{IsServer, jodie_init-IsServer, IsCopy, jodie_dup-IsCopy}
use vmars.Config.Text.{split_string}
use vmars.Config.Defs.{Config, set_default_config, refuse, ThreadContext, started, main}
use vmars.Config.Options.{overridden, read_options_lem}
use vmars.Config.Plan.{main_inv, main-started, start_threads_inv, thread_contexts_inv}
use vmars.Config.Started.{
  AreNumbered, all_threads-AreNumbered, number_of, creations, all_started, start_each-all,
  start_each-missing,
}
use vmars.Config.Threads.{
  bits_of, exited, Event, create_latency, create_counters, join_capture, join_latency,
  join_counters, close, System, join_threads, returned, finish, run_threads, run_config, run_main,
}

-- The joins of `n` threads from number `k` on, the last one first.
abbrev pub joins : ℕ → ℕ → List Event → List Event
joins k zero events = events
joins k (suc n) events = joins (suc k) n (join_capture k ∷ events)

join_threads-joins :
    (system : System) (n k : ℕ) (ts : List ThreadContext) (events : List Event)
    → AreNumbered k ts
    → n ≤ length ts
    → join_threads n (map (number_of system) ts) events ≡ some (joins k n events)
unfolding join_threads
join_threads-joins system zero k ts events numbered few = refl
join_threads-joins system (suc n) k [] events numbered few = absurd (omega arith)
join_threads-joins system (suc n) k (t ∷ ts) events numbered few =
    rw numbered.0
      (join_threads-joins system n (suc k) ts (join_capture k ∷ events) numbered.1 (omega arith))

le_product : (l n total : ℕ) → total ≡ l * n → 0 < total → n ≤ total
le_product zero n total e some_interface = absurd (omega arith)
le_product (suc l) n total e some_interface = omega arith

refuse-host :
    (config : Config) → refuse config ≡ none → (host : List ℕ) × (config.udp_host ≡ some host)
unfolding refuse
refuse-host config fine = elim (Option-cases config.udp_host) [
  | inl missing ↦ absurd (ground arith)
  | inr (host, found) ↦ (host, found)
]

main-AreNumbered :
    (options : List (ℕ × List ℕ)) (threads : List ThreadContext)
    → main options ≡ started threads
    → AreNumbered 0 threads
main-AreNumbered options threads e =
    let config = overridden set_default_config options in
    let (known, fine, run) = main_inv options threads e in
    let (interfaces, n, given, count, made) =
      start_threads_inv config config.interfaces config.num_threads threads run in
    let numbered =
      all_threads-AreNumbered n config.capture_port (split_string config.affinity)
        (split_string interfaces) 0 in
    let zero_first : 0 * n ≡ 0 = omega arith in
    rw (thread_contexts_inv config interfaces n threads made) (rw zero_first at numbered)

module _ (system : System) (latency monitoring : Server) where
  open system use {arrays, calloc, inet_aton, socket}

  abbrev pub events_of : ℕ → List ThreadContext → ℤ → List Event
  events_of n ts jodie_socket =
      let numbers = map (number_of system) ts in
      close jodie_socket
      ∷ join_counters
      ∷ join_latency
      ∷ joins 0 n (create_counters numbers ∷ create_latency numbers ∷ creations system ts [])

  finish-returned :
      (host : List ℕ) (port : ℤ) (n : ℕ) (ts : List ThreadContext)
      → AreNumbered 0 ts
      → n ≤ length ts
      → let server = (jodie_init inet_aton socket host (bits_of port) latency).1 in
        finish system latency monitoring host port n (all_started system ts)
        ≡ returned
            (all_started system ts)
            server
            (jodie_dup server monitoring)
            (events_of n ts server.jodie_socket)
  unfolding finish
  finish-returned host port n ts numbered few =
      let numbers = map (number_of system) ts in
      let joined =
        join_threads-joins system n 0 ts
          (create_counters numbers ∷ create_latency numbers ∷ creations system ts []) numbered
          few in
      rw (finish, joined) refl

  run_threads-returned :
      (host : List ℕ) (port : ℤ) (n total : ℕ) (ts : List ThreadContext)
      → arrays ≡ true
      → ((idx : ℕ) → idx < length ts → calloc idx ≡ true)
      → AreNumbered 0 ts
      → length ts ≡ total
      → n ≤ length ts
      → let server = (jodie_init inet_aton socket host (bits_of port) latency).1 in
        run_threads system latency monitoring host port n total ts
        ≡ returned
            (all_started system ts)
            server
            (jodie_dup server monitoring)
            (events_of n ts server.jodie_socket)
  unfolding run_threads
  run_threads-returned host port n total ts memory given numbered size few =
      rw (run_threads, sym size, start_each-all system ts numbered given)
        (simp memory (finish-returned host port n ts numbered few))

  -- What the options come to.
  run_main-run_threads :
      (options : List (ℕ × List ℕ)) (threads : List ThreadContext)
      → main options ≡ started threads
      → let config = overridden set_default_config options in
        (n : ℕ) × (l : ℕ) × (host : List ℕ) × (config.num_threads ≡ pos n)
        × (config.udp_host ≡ some host)
        × (length threads ≡ l * n)
        × (run_main system latency monitoring options
            ≡ run_threads system latency monitoring host config.udp_port n (l * n) threads)
  unfolding run_main run_config
  run_main-run_threads options threads e =
      let config = overridden set_default_config options in
      let (known, fine, _) = main_inv options threads e in
      let (interfaces, n, _, named, count, _, size, _) = main-started options threads e in
      let (host, hosted) = refuse-host config fine in
      (
        n,
        length (split_string interfaces),
        host,
        count,
        hosted,
        size,
        rw
            (
              run_main,
              e,
              read_options_lem options set_default_config,
              known,
              run_config,
              hosted,
              named,
              count,
            )
            refl,
      )

  -- With options that are accepted and name an interface, and memory for the arrays and for the
  -- structure of each ring, `main` writes every place of its arrays, and no other: for each context
  -- in order a ring of 4096 bytes, empty, if its buffer and its descriptor could be allocated, and
  -- otherwise, unnoticed, none. It starts one capture thread per context, then the latency thread
  -- with the rings of all contexts and the counter thread with the counters of all; it joins as many
  -- capture threads as -t says, the first ones, then the two others, and closes the socket. The
  -- latency thread's server has the address and the port of the options, the socket and an empty
  -- buffer, as far as the system gave an address and a socket, and is else what its memory held. The
  -- counter thread's server has the address, the port, the socket and the send index of the latency
  -- thread's, whether or not this could be set up, and the send buffer that its memory held.
  pub run_main-returned :
      (options : List (ℕ × List ℕ)) (threads : List ThreadContext)
      → main options ≡ started threads
      → 0 < length threads
      → arrays ≡ true
      → ((idx : ℕ) → idx < length threads → calloc idx ≡ true)
      → let config = overridden set_default_config options in
        (n : ℕ) × (host : List ℕ) × (config.num_threads ≡ pos n)
        × (config.udp_host ≡ some host)
        × ((server copy : Server) × (run_main system latency monitoring options
              ≡ returned
                  (all_started system threads)
                  server
                  copy
                  (events_of n threads server.jodie_socket))
            × IsServer inet_aton socket host (bits_of config.udp_port) latency server
            × IsCopy server monitoring copy)
        × AreNumbered 0 threads
  run_main-returned options threads e some_interface memory given =
      let config = overridden set_default_config options in
      let (n, l, host, count, hosted, size, run) = run_main-run_threads options threads e in
      let numbered = main-AreNumbered options threads e in
      let few = le_product l n (length threads) size some_interface in
      let done =
        run_threads-returned host config.udp_port n (l * n) threads memory given numbered size
          few in
      let server = (jodie_init inet_aton socket host (bits_of config.udp_port) latency).1 in
      (
        n,
        host,
        count,
        hosted,
        (
          server,
          jodie_dup server monitoring,
          run ∙ done,
          jodie_init-IsServer inet_aton socket host (bits_of config.udp_port) latency,
          jodie_dup-IsCopy server monitoring,
        ),
        numbered,
      )

  run_threads-exited :
      (host : List ℕ) (port : ℤ) (n total : ℕ) (ts us : List ThreadContext) (t : ThreadContext)
      → arrays ≡ true
      → ((idx : ℕ) → idx < length ts → calloc idx ≡ true)
      → calloc t.thread_num ≡ false
      → AreNumbered 0 (ts ++ (t ∷ us))
      → length (ts ++ (t ∷ us)) ≡ total
      → run_threads system latency monitoring host port n total (ts ++ (t ∷ us))
        ≡ exited (creations system ts [])
  unfolding run_threads
  run_threads-exited host port n total ts us t memory given missing numbered size =
      rw (run_threads, sym size, start_each-missing system ts us t numbered given missing)
        (simp memory refl)

  -- If the structure of a ring cannot be allocated, `main` exits there: the capture threads before
  -- it were started, in their order, and nothing else happened.
  pub run_main-exited :
      (options : List (ℕ × List ℕ)) (ts us : List ThreadContext) (t : ThreadContext)
      → main options ≡ started (ts ++ (t ∷ us))
      → arrays ≡ true
      → ((idx : ℕ) → idx < length ts → calloc idx ≡ true)
      → calloc t.thread_num ≡ false
      → run_main system latency monitoring options ≡ exited (creations system ts [])
  run_main-exited options ts us t e memory given missing =
      let config = overridden set_default_config options in
      let (n, l, host, _, _, size, run) = run_main-run_threads options (ts ++ (t ∷ us)) e in
      run
      ∙ run_threads-exited host config.udp_port n (l * n) ts us t memory given missing
          (main-AreNumbered options (ts ++ (t ∷ us)) e) size
