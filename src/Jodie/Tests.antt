-- ===== src/Jodie/Tests.antt =====
-- Lines sent, and lines refused.
use vmars.Prelude.Nul.{HasNoNul}
use vmars.Prelude.{
  copy_to, ℕ, ◌≤◌, ◌<◌, ◌≡◌, true, false, List, [], ◌∷◌, none, some, arith, refl, pointer_to,
}
use vmars.Prelude.Text.{codes}
use vmars.Jodie.Defs.{
  Outcome, buffer_size, packet_size, cleared, log_line, Server, jodie_init, jodie_dup, append_line,
  jodie_flush, c_string_at,
}
use vmars.Prelude.Int.{pos}
use vmars.Parser.Defs.{◌>>=◌}
use vmars.Jodie.Buffer.{Holds, init-Holds, log_line-sent, log_line-refused}

abbrev line : List ℕ
line = codes "a 1\n"

line-HasNoNul : HasNoNul line
line-HasNoNul = (
  (λ e. absurd (omega (arith, e))),
  (
    (λ e. absurd (omega (arith, e))),
    ((λ e. absurd (omega (arith, e))), ((λ e. absurd (omega (arith, e))), tt)),
  ),
)

log_line-sent_example :
    (o : Outcome) × (log_line true cleared line ≡ some o)
    × (4 ≤ packet_size → (o.sent ≡ []) × Holds o.jodie line)
    × (packet_size < 4 → (o.sent ≡ [] ∷ []) × Holds o.jodie line)
log_line-sent_example =
    log_line-sent cleared [] line init-Holds line-HasNoNul (omega arith) (omega arith)

log_line-refused_example :
    (4 ≤ buffer_size
      → (o : Outcome) × (log_line false cleared line ≡ some o) × (o.sent ≡ []) × Holds o.jodie line)
    × (buffer_size < 4 → log_line false cleared line ≡ none)
log_line-refused_example = log_line-refused cleared [] line init-Holds line-HasNoNul (omega arith)

-- The server of the counter thread, as `main` makes it: a copy into memory that is not cleared.
abbrev latency : Server
latency = record { sin_addr = 16777343; sin_port = 10400; jodie_socket = pos 4; jodie = cleared }

abbrev dirty : Server
dirty = record {
  sin_addr = 0;
  sin_port = 0;
  jodie_socket = pos 0;
  jodie = record { send_index = 7; send_buffer = pointer_to (codes "xxxxxx") };
}

inits : jodie_init (λ host. some 16777343) (pos 4) (codes "127.0.0.1") 0 dirty ≡ (pos 0, latency)
unfolding jodie_init
inits = refl

-- What the memory held follows the first line.
sends_what_was_there :
    (log_line true (jodie_dup latency dirty).jodie line >>= λ (o : Outcome).
    jodie_flush true o.jodie >>= λ (o' : Outcome). some o'.sent)
    ≡ some (codes "a 1\nxx" ∷ [])
unfolding jodie_dup log_line append_line copy_to jodie_flush c_string_at
sends_what_was_there = refl
