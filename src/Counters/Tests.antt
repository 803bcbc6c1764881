-- ===== src/Counters/Tests.antt =====
-- The totals of two threads.
use vmars.Prelude.{refl, true, some, none, ℕ, arith, ◌≡◌, List, [], ◌∷◌}
use vmars.Jodie.Defs.{cleared}
use vmars.Jodie.Buffer.{init-Holds}
use vmars.Jodie.Report.{concat}
use vmars.Counters.Turns.{Turn, turns_text, vmars_poll_counters, vmars_poll_counters-sent}
use vmars.Counters.{Counters, no_counters, aggregate, Stats}
use vmars.Counters.Totals.{parsing_errors-aggregate}

abbrev threads : List Counters
threads =
    record no_counters { fd = 3; valid_messages = 3; parsing_errors = 2 }
    ∷ record no_counters { valid_messages = 4; corrupt_messages = 1 }
    ∷ []

parsing_errors-aggregate_example : (aggregate no_counters threads).parsing_errors ≡ 0
parsing_errors-aggregate_example = parsing_errors-aggregate threads no_counters

abbrev stats : Stats
stats = record { tp_packets = 5; tp_drops = 1; tp_freeze_q_cnt = 0 }

abbrev first : Turn
first = record {
  counters_vec = threads;
  getsockopt = λ fd. some stats;
  works = λ i. true;
  now = 7000;
  tv_sec = 7;
  tv_usec = 1500;
}

-- The second turn finds a message more, and the kernel has no statistics.
abbrev second : Turn
second = record first {
  counters_vec = record no_counters { valid_messages = 1 } ∷ threads;
  getsockopt = λ fd. none;
  tv_sec = 8;
}

vmars_poll_counters-sent_example :
    (sent : List (List ℕ)) × (vmars_poll_counters (first ∷ second ∷ []) cleared
      ≡ some (cleared, sent))
    × (concat sent ≡ turns_text (first ∷ second ∷ []))
vmars_poll_counters-sent_example =
    vmars_poll_counters-sent first (second ∷ []) cleared [] init-Holds (omega arith) (
      (λ i. refl),
      omega arith,
      omega arith,
      omega arith,
      ((λ i. refl), omega arith, omega arith, omega arith, tt),
    )
