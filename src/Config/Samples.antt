-- ===== src/Config/Samples.antt =====
-- A command line and the threads that it asks for, for the tests.
use vmars.Prelude.{ℕ, ◌≡◌, refl, List, [], ◌∷◌}
use vmars.Prelude.Text.{codes}
use vmars.Prelude.Int.{ℤ, pos}
use vmars.CLib.{skip_spaces, read_decimal, strtol, atoi}
use vmars.Config.Text.{tokens_from, split_string, parse_cpu_id}
use vmars.Config.Defs.{
  set_option, read_options, refuse, ThreadContext, interface_threads, all_threads, thread_contexts,
  started, main,
}

abbrev pub options : List (ℕ × List ℕ)
options =
    (b'i', codes "eth0,eth1")
    ∷ (b't', codes "2")
    ∷ (b'a', codes "1,3")
    ∷ (b'c', codes "9999")
    ∷ (b'h', codes "127.0.0.1")
    ∷ (b'p', codes "5000")
    ∷ (b'H', [])
    ∷ []

abbrev pub thread : ℕ → ℕ → List ℕ → ℤ → ThreadContext
thread k group interface cpu = record {
  thread_num = k;
  fanout_id = group;
  interface = interface;
  port = pos 9999;
  cpu_num = cpu;
}

abbrev pub threads : List ThreadContext
threads =
    thread 0 1111 (codes "eth0") (pos 1)
    ∷ thread 1 1111 (codes "eth0") (pos 3)
    ∷ thread 2 2222 (codes "eth1") (pos 1)
    ∷ thread 3 2222 (codes "eth1") (pos 3)
    ∷ []

pub starts : main options ≡ started threads
unfolding main read_options set_option refuse thread_contexts all_threads interface_threads
    split_string tokens_from atoi parse_cpu_id strtol skip_spaces read_decimal
starts = refl
