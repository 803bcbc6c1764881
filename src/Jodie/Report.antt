-- ===== src/Jodie/Report.antt =====
-- A report: gauges logged one after the other, and a flush.
use vmars.Prelude.Nul.{HasNoNul}
use vmars.Prelude.{
  ℕ, ◌+◌, ◌≤◌, ◌≡◌, refl, sym, ap, ◌∙◌, Bool, true, false, List, [], ◌∷◌, ◌++◌, append_assoc,
  append-nil, Option, some, length, length-append, ltb, arith, ◌/◌,
}
use native.Mathlib.Decide.{dec_lt}
use vmars.Prelude.Text.{codes}
use vmars.Parser.Defs.{◌>>=◌}
use vmars.Jodie.Defs.{
  Jodie, Outcome, buffer_size, packet_size, cleared, jodie_flush, timestamp_or, format_line,
  log_with, jodie_log_gauge,
}
use vmars.Jodie.Buffer.{Holds, flush_lem, log_line-sent}

-- A call of jodie_logGauge; whether `sendto` would succeed in it is the system's.
pub record Gauge : Type 0 where
  pub sendto_works : Bool
  pub datapath : List ℕ
  pub value : ℕ

-- The calls in order, with all datagrams that they send; their results are ignored.
unfoldable pub log_gauges : ℕ → ℕ → Jodie → List Gauge → Option Outcome
log_gauges now timestamp j [] = some (record { jodie = j; succeeded = true; sent = [] })
log_gauges now timestamp j (g ∷ gauges) =
    jodie_log_gauge now g.sendto_works j g.datapath g.value timestamp >>= λ (o : Outcome).
    log_gauges now timestamp o.jodie gauges >>= λ (o' : Outcome).
    some (record o' { sent = o.sent ++ o'.sent })

unfoldable pub report_gauges : ℕ → ℕ → Bool → Jodie → List Gauge → Option Outcome
report_gauges now timestamp flush_works j gauges =
    log_gauges now timestamp j gauges >>= λ (o : Outcome).
    jodie_flush flush_works o.jodie >>= λ (o' : Outcome).
    some (record o' { sent = o.sent ++ o'.sent })

abbrev pub concat : List (List ℕ) → List ℕ
concat [] = []
concat (xs ∷ xss) = xs ++ concat xss

pub concat-append : (xss yss : List (List ℕ)) → concat (xss ++ yss) ≡ concat xss ++ concat yss
concat-append [] yss = refl
concat-append (xs ∷ xss) yss =
    ap (λ l. xs ++ l) (concat-append xss yss) ∙ sym (append_assoc xs (concat xss) (concat yss))

abbrev pub line_of : ℕ → ℕ → Gauge → List ℕ
line_of now timestamp g =
    format_line g.datapath g.value (timestamp_or now timestamp) (codes " type=gauge\n")

abbrev pub lines_of : ℕ → ℕ → List Gauge → List ℕ
lines_of now timestamp [] = []
lines_of now timestamp (g ∷ gauges) = line_of now timestamp g ++ lines_of now timestamp gauges

-- The network takes the datagrams, and each line is text that fits a packet.
abbrev pub AreSendable : ℕ → ℕ → List Gauge → Type 0
AreSendable now timestamp [] = Unit
AreSendable now timestamp (g ∷ gauges) =
    ((g.sendto_works ≡ true)
      × (length g.datapath ≤ 1024)
      × HasNoNul (line_of now timestamp g)
      × (length (line_of now timestamp g) ≤ packet_size))
    × AreSendable now timestamp gauges

log_gauge-sent :
    (now timestamp : ℕ) (j : Jodie) (p : List ℕ) (g : Gauge)
    → Holds j p
    → length p ≤ packet_size
    → (g.sendto_works ≡ true)
      × (length g.datapath ≤ 1024)
      × HasNoNul (line_of now timestamp g)
      × (length (line_of now timestamp g) ≤ packet_size)
    → (o : Outcome) × (q : List ℕ) × (jodie_log_gauge now g.sendto_works j g.datapath g.value
          timestamp
        ≡ some o)
      × Holds o.jodie q
      × (length q ≤ packet_size)
      × (concat o.sent ++ q ≡ p ++ line_of now timestamp g)
unfolding log_with
log_gauge-sent now timestamp j p g h small ready =
    let line = line_of now timestamp g in
    let (o, logged, room, full) = log_line-sent j p line h ready.2 small ready.3 in
    let short : ltb (buffer_size / 2) (length g.datapath) ≡ false = ground arith in
    elim (dec_lt packet_size (length p + length line)) [
      | no fits ↦
          let (nothing, holds) = room (omega arith) in
          (
            o,
            p ++ line,
            rw (ready.0, short, logged) refl,
            holds,
            omega (arith, length-append p line),
            rw nothing refl,
          )
      | yes over ↦
          let (one, holds) = full over in
          (
            o,
            line,
            rw (ready.0, short, logged) refl,
            holds,
            ready.3,
            rw one (ap (λ l. l ++ line) (append-nil p)),
          )
    ]

log_gauges-sent :
    (gauges : List Gauge) (now timestamp : ℕ) (j : Jodie) (p : List ℕ)
    → Holds j p
    → length p ≤ packet_size
    → AreSendable now timestamp gauges
    → (o : Outcome) × (q : List ℕ) × (log_gauges now timestamp j gauges ≡ some o)
      × Holds o.jodie q
      × (length q ≤ packet_size)
      × (concat o.sent ++ q ≡ p ++ lines_of now timestamp gauges)
unfolding log_gauges
log_gauges-sent [] now timestamp j p h small ready = (_, p, refl, h, small, sym (append-nil p))
log_gauges-sent (g ∷ gauges) now timestamp j p h small ready =
    let (o1, q1, logged, h1, small1, e1) = log_gauge-sent now timestamp j p g h small ready.0 in
    let (o2, q2, rest, h2, small2, e2) =
      log_gauges-sent gauges now timestamp o1.jodie q1 h1 small1 ready.1 in
    (
      record o2 { sent = o1.sent ++ o2.sent },
      q2,
      rw (logged, rest) refl,
      h2,
      small2,
      ap (λ l. l ++ q2) (concat-append o1.sent o2.sent)
          ∙ append_assoc (concat o1.sent) (concat o2.sent) q2
          ∙ ap (λ l. concat o1.sent ++ l) e2
          ∙ sym (append_assoc (concat o1.sent) q1 (lines_of now timestamp gauges))
          ∙ ap (λ l. l ++ lines_of now timestamp gauges) e1
          ∙ append_assoc p (line_of now timestamp g) (lines_of now timestamp gauges),
    )

-- A report whose datagrams the network takes: what is sent, one datagram behind the other, is the
-- text that was in the buffer, followed by the lines of the gauges in their order, and the buffer
-- is empty again. Neither the old text nor a line is longer than a packet, and no path is longer
-- than half the buffer.
pub report_gauges-sent :
    (gauges : List Gauge) (now timestamp : ℕ) (j : Jodie) (p : List ℕ)
    → Holds j p
    → length p ≤ packet_size
    → AreSendable now timestamp gauges
    → (o : Outcome) × (report_gauges now timestamp true j gauges ≡ some o)
      × (concat o.sent ≡ p ++ lines_of now timestamp gauges)
      × (o.jodie ≡ cleared)
unfolding report_gauges
report_gauges-sent gauges now timestamp j p h small ready =
    let (o, q, logged, holds, small', e) = log_gauges-sent gauges now timestamp j p h small ready in
    let flushed = (flush_lem o.jodie q holds (omega arith)).0 in
    (
      record { jodie = cleared; succeeded = true; sent = o.sent ++ (q ∷ []) },
      rw (logged, flushed) refl,
      concat-append o.sent (q ∷ []) ∙ ap (λ l. concat o.sent ++ l) (append-nil q) ∙ e,
      refl,
    )
