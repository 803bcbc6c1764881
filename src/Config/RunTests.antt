-- ===== src/Config/RunTests.antt =====
-- `main` run with two interfaces, with too little memory, and with no interface.
use vmars.Prelude.{ℕ, ◌≡◌, refl, true, List, [], ◌∷◌, some, arith, take, drop, ltb}
use vmars.Prelude.Text.{codes}
use vmars.Prelude.Int.{pos}
use vmars.Jodie.Defs.{Server, zero_buffer}
use vmars.CLib.{skip_spaces, read_decimal, strtol, atoi}
use vmars.Config.Text.{tokens_from, split_string, parse_cpu_id}
use vmars.Config.Defs.{
  set_default_config, set_option, read_options, refuse, interface_threads, all_threads,
  thread_contexts, main,
}
use vmars.Config.Options.{overridden}
use vmars.Config.Samples.{options, thread, threads, starts}
use vmars.Config.Started.{AreNumbered, all_started}
use vmars.Config.Threads.{
  create_capture, System, exited, bad, returned, start_each, join_threads, bits_of, finish,
  run_threads, run_config, run_main,
}
use vmars.Config.Servers.{IsServer, IsCopy}
use vmars.Config.Run.{events_of, run_main-returned, run_main-exited}

abbrev system : System
system = record {
  arrays = true;
  calloc = λ idx. true;
  page_size = 4096;
  mapped = λ idx. some (λ i. 0);
  descriptor = λ idx. true;
  inet_aton = λ host. some 16777343;
  socket = pos 4;
}

-- The third ring cannot be allocated.
abbrev scarce : System
scarce = record system { calloc = λ idx. ltb idx 2 }

abbrev server : Server
server = record {
  sin_addr = 0;
  sin_port = 0;
  jodie_socket = pos 0;
  jodie = record { send_index = 0; send_buffer = zero_buffer };
}

run_main-returned_example :
    let config = overridden set_default_config options in
    (n : ℕ) × (host : List ℕ) × (config.num_threads ≡ pos n)
    × (config.udp_host ≡ some host)
    × ((latency copy : Server) × (run_main system server server options
          ≡ returned
              (all_started system threads)
              latency
              copy
              (events_of system server server n threads latency.jodie_socket))
        × IsServer system.inet_aton system.socket host (bits_of config.udp_port) server latency
        × IsCopy latency server copy)
    × AreNumbered 0 threads
run_main-returned_example =
    run_main-returned system server server options threads starts (omega arith) refl
      (λ idx lt. refl)

run_main-exited_example :
    run_main scarce server server options ≡ exited (create_capture 1 ∷ create_capture 0 ∷ [])
run_main-exited_example =
    run_main-exited scarce server server options (take 2 threads) (drop 3 threads)
      (thread 2 2222 (codes "eth1") (pos 1)) starts refl (λ idx lt. ground arith) refl

abbrev no_interface : List (ℕ × List ℕ)
no_interface =
    (b'i', codes ",") ∷ (b't', codes "1") ∷ (b'h', codes "127.0.0.1") ∷ (b'p', codes "5000") ∷ []

-- With a list of interfaces that names none, `main` joins a thread that its array has no place for.
joins_none : run_main system server server no_interface ≡ bad
unfolding run_main run_config run_threads start_each finish join_threads main read_options
    set_option refuse thread_contexts all_threads interface_threads split_string tokens_from atoi
    parse_cpu_id strtol skip_spaces read_decimal
joins_none = refl
