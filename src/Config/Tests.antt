-- ===== src/Config/Tests.antt =====
-- Command lines read.
use vmars.Prelude.{
  ℕ, ◌+◌, ◌*◌, ◌<◌, ◌≡◌, refl, true, List, [], ◌∷◌, some, none, length, get_elem?, if◌then◌else◌,
}
use vmars.Prelude.Text.{codes}
use vmars.Prelude.Int.{pos, negsuc}
use vmars.CLib.{skip_spaces, read_decimal, strtol, atoi}
use vmars.Config.Text.{tokens_from, split_string, parse_cpu_id}
use vmars.Config.Defs.{
  set_default_config, set_option, read_options, refuse, interface_threads, all_threads,
  thread_contexts, started, main,
}
use vmars.Config.Samples.{options, threads, starts}
use vmars.Config.Options.{are_known, overridden, read_options_lem}
use vmars.Config.Plan.{thread_at, main-started}

numbers :
    (atoi (codes "  42x") ≡ pos 42)
    × (atoi (codes "-7") ≡ negsuc 6)
    × (atoi (codes "4294967297") ≡ pos 1)
    × (atoi (codes "eth0") ≡ pos 0)
    × (parse_cpu_id (codes "3") ≡ pos 3)
    × (parse_cpu_id (codes "3a") ≡ negsuc 0)
unfolding atoi parse_cpu_id strtol skip_spaces read_decimal
numbers = (refl, refl, refl, refl, refl, refl)

lists : split_string (codes ",eth0,,eth1,") ≡ codes "eth0" ∷ codes "eth1" ∷ []
unfolding split_string tokens_from
lists = refl

main-started_example :
    let config = overridden set_default_config options in
    (interfaces : List ℕ) × (n : ℕ) × (are_known options ≡ true)
    × (config.interfaces ≡ some interfaces)
    × (config.num_threads ≡ pos n)
    × (0 < n)
    × (length threads ≡ length (split_string interfaces) * n)
    × ((j i : ℕ) (name : List ℕ)
        → get_elem? (split_string interfaces) j ≡ some name
        → i < n
        → get_elem? threads (j * n + i)
          ≡ some (thread_at n config.capture_port (split_string config.affinity) i j name))
main-started_example = main-started options threads starts

read_options_lem_example :
    read_options options set_default_config
    ≡ (if are_known options then some (overridden set_default_config options) else none)
read_options_lem_example = read_options_lem options set_default_config

-- Without -c the port is 0, and nothing is refused: the test for a missing port compares with -1.
abbrev no_port : List (ℕ × List ℕ)
no_port =
    (b'i', codes "eth0") ∷ (b't', codes "1") ∷ (b'h', codes "127.0.0.1") ∷ (b'p', codes "5000") ∷ []

starts_without_port :
    main no_port
    ≡ started (
        record {
          thread_num = 0;
          fanout_id = 1111;
          interface = codes "eth0";
          port = pos 0;
          cpu_num = negsuc 0;
        }
        ∷ [])
unfolding main read_options set_option refuse thread_contexts all_threads interface_threads
    split_string tokens_from atoi parse_cpu_id strtol skip_spaces read_decimal
starts_without_port = refl
