-- ===== src/Config/Defs.antt =====
-- `main` of src/main.c up to the start of its threads. `getopt_long` gives one option after the
-- other, each a character with its argument; output is left out.
use vmars.Prelude.{
  ℕ, zero, suc, ◌+◌, ◌*◌, Bool, true, false, List, [], ◌∷◌, ◌++◌, Option, none, some, ltb, ◌==◌,
  if◌then◌else◌, length,
}
use vmars.Prelude.Int.{ℤ, pos, negsuc, ltb_ℤ, eqb_ℤ}
use vmars.Parser.Defs.{◌>>=◌, int_max}
use vmars.CLib.{atoi}
use vmars.Config.Text.{split_string, parse_cpu_id}

-- `vmars_config_t`; a pointer may be NULL.
pub record Config : Type 0 where
  pub udp_host : Option (List ℕ)
  pub udp_port : ℤ
  pub capture_port : ℤ
  pub interfaces : Option (List ℕ)
  pub num_threads : ℤ
  pub affinity : List ℕ
  pub use_hw_timestamps : Bool

abbrev pub set_default_config : Config
set_default_config = record {
  udp_host = none;
  udp_port = pos 0;
  capture_port = pos 0;
  interfaces = none;
  num_threads = pos 0;
  affinity = [];
  use_hw_timestamps = false;
}

-- The switch. There is no `break` after case 'a'. `none` is the exit with the usage.
unfoldable pub set_option : Config → ℕ → List ℕ → Option Config
set_option config opt optarg =
    if opt == b'i'
    then some (record config { interfaces = some optarg })
    else if opt == b't'
    then some (record config { num_threads = atoi optarg })
    else if opt == b'a'
    then some (record config { affinity = optarg; capture_port = atoi optarg })
    else if opt == b'c'
    then some (record config { capture_port = atoi optarg })
    else if opt == b'h'
    then some (record config { udp_host = some optarg })
    else if opt == b'p'
    then some (record config { udp_port = atoi optarg })
    else if opt == b'H'
    then some (record config { use_hw_timestamps = true })
    else none

unfoldable pub read_options : List (ℕ × List ℕ) → Config → Option Config
read_options [] config = some config
read_options ((opt, optarg) ∷ options) config =
    set_option config opt optarg >>= read_options options

-- What is wrong with the options, in the order of the tests.
pub data Refusal : Type 0 where
  not_positive_threads no_interface no_capture_port no_udp_host no_udp_port : Refusal

unfoldable pub refuse : Config → Option Refusal
refuse config =
    if ltb_ℤ config.num_threads (pos 1) then some not_positive_threads else elim config.interfaces [
      | none ↦ some no_interface
      | some _ ↦
          if eqb_ℤ config.capture_port (negsuc 0)
          then some no_capture_port
          else elim config.udp_host [
            | none ↦ some no_udp_host
            | some _ ↦ if eqb_ℤ config.udp_port (pos 0) then some no_udp_port else none
          ]
    ]

-- What a capture thread is given.
pub record ThreadContext : Type 0 where
  pub thread_num : ℕ
  pub fanout_id : ℕ
  pub interface : List ℕ
  pub port : ℤ
  pub cpu_num : ℤ

abbrev pub cpu_at : List (List ℕ) → ℕ → ℤ
cpu_at [] i = negsuc 0
cpu_at (s ∷ affinity) zero = parse_cpu_id s
cpu_at (s ∷ affinity) (suc i) = cpu_at affinity i

module _ (num_threads : ℕ) (port : ℤ) (affinity : List (List ℕ)) where
  -- The inner loop, from `i` on, for `n` rounds.
  unfoldable pub interface_threads : ℕ → ℕ → ℕ → List ℕ → List ThreadContext
  interface_threads zero i j interface = []
  interface_threads (suc n) i j interface =
      record {
        thread_num = j * num_threads + i;
        fanout_id = 1111 * (j + 1);
        interface = interface;
        port = port;
        cpu_num = cpu_at affinity i;
      }
      ∷ interface_threads n (i + 1) j interface

  -- The outer loop, from the interface `j` on.
  unfoldable pub all_threads : ℕ → List (List ℕ) → List ThreadContext
  all_threads j [] = []
  all_threads j (interface ∷ interfaces) =
      interface_threads num_threads 0 j interface ++ all_threads (j + 1) interfaces

-- The threads that are started for options that are not refused; a count of threads, or a number
-- for a group of them, that is no `int` is undefined.
unfoldable pub thread_contexts : Config → List ℕ → ℕ → Option (List ThreadContext)
thread_contexts config interfaces num_threads =
    let names = split_string interfaces in
    let total_threads = length names * num_threads in
    let threads =
      all_threads num_threads config.capture_port (split_string config.affinity) 0 names in
    if ltb int_max total_threads
    then none
    else if ltb int_max (1111 * length names)
    then none
    else some threads

-- What `main` does with its options.
pub data MainResult : Type 0 where
  usage : MainResult
  refused : Refusal → MainResult
  undefined : MainResult
  started : List ThreadContext → MainResult

abbrev pub start_threads : Config → Option (List ℕ) → ℤ → MainResult
start_threads config none n = undefined
start_threads config (some interfaces) (negsuc n) = undefined
start_threads config (some interfaces) (pos n) = elim (thread_contexts config interfaces n) [
  | none ↦ undefined
  | some threads ↦ started threads
]

abbrev pub start_if : Config → Option Refusal → MainResult
start_if config (some refusal) = refused refusal
start_if config none = start_threads config config.interfaces config.num_threads

abbrev pub check_options : Option Config → MainResult
check_options none = usage
check_options (some config) = start_if config (refuse config)

unfoldable pub main : List (ℕ × List ℕ) → MainResult
main options = check_options (read_options options set_default_config)
