-- ===== src/Counters/Turns.antt =====
-- The loop of `vmars_poll_counters` of src/counter_handler.c, as the turns that it makes until a
-- signal stops it.
use vmars.Prelude.{
  ◌*◌, ◌+◌, ◌/◌, ℕ, ◌^◌, ◌≤◌, ◌<◌, ◌≡◌, refl, ap, ◌∙◌, Bool, true, List, [], ◌∷◌, ◌++◌, Option,
  some, length, arith, append_assoc,
}
use vmars.Parser.Defs.{◌>>=◌}
use vmars.Jodie.Defs.{Jodie, Outcome, packet_size, cleared, timestamp_or, jodie_get_millis}
use vmars.Jodie.Buffer.{Holds, init-Holds}
use vmars.Jodie.Report.{concat, concat-append}
use vmars.Jodie.Lines.{text_of}
use vmars.Counters.{Counters, Stats}
use vmars.Counters.Statistics.{statistics, gather_all-statistics}
use vmars.Counters.Report.{counters_turn, counters_turn-sent, reported}

-- What a turn finds: the counters as the capture threads have left them, what the kernel says of
-- their sockets, whether `sendto` works, the clock of the line's default time and gettimeofday.
pub record Turn : Type 0 where
  pub counters_vec : List Counters
  pub getsockopt : ℕ → Option Stats
  pub works : ℕ → Bool
  pub now : ℕ
  pub tv_sec : ℕ
  pub tv_usec : ℕ

abbrev pub timestamp_of : Turn → ℕ
timestamp_of t = jodie_get_millis t.tv_sec t.tv_usec

unfoldable pub vmars_poll_counters : List Turn → Jodie → Option (Jodie × List (List ℕ))
vmars_poll_counters [] j = some (j, [])
vmars_poll_counters (t ∷ ts) j =
    counters_turn t.getsockopt t.works t.now (timestamp_of t) j t.counters_vec >>= λ (o : Outcome).
    vmars_poll_counters ts o.jodie >>= λ (r : Jodie × List (List ℕ)). some (r.0, o.sent ++ r.1)

-- The network takes the datagrams, and the clocks are in range.
abbrev pub AreOnline : List Turn → Type 0
AreOnline [] = Unit
AreOnline (t ∷ ts) =
    ((i : ℕ) → t.works i ≡ true)
    × (t.now < 2 ^ 64)
    × (t.tv_sec < 2 ^ 32)
    × (t.tv_usec < 1000000)
    × AreOnline ts

-- The whole milliseconds of the time of a turn.
abbrev pub milliseconds : Turn → ℕ
milliseconds t = (t.tv_sec * 1000000 + t.tv_usec) / 1000

-- The text of a turn: the sums of the counters and of the statistics, each on its line.
abbrev pub turn_text : Turn → List ℕ
turn_text t =
    text_of t.now (milliseconds t)
      (reported t.counters_vec (statistics t.getsockopt t.counters_vec))

abbrev pub turns_text : List Turn → List ℕ
turns_text [] = []
turns_text (t ∷ ts) = turn_text t ++ turns_text ts

timestamp-milliseconds :
    (t : Turn) → t.tv_sec < 2 ^ 32 → t.tv_usec < 1000000 → timestamp_of t ≡ milliseconds t
unfolding jodie_get_millis
timestamp-milliseconds t sec usec = omega arith

timestamp-lt : (t : Turn) → t.now < 2 ^ 64 → timestamp_or t.now (timestamp_of t) < 2 ^ 64
unfolding jodie_get_millis
timestamp-lt t lt = ground arith

-- A turn sends its text behind the text that was in the buffer.
turn-sent :
    (t : Turn) (j : Jodie) (p : List ℕ)
    → Holds j p
    → length p ≤ packet_size
    → AreOnline (t ∷ [])
    → (o : Outcome) × (counters_turn t.getsockopt t.works t.now (timestamp_of t) j t.counters_vec
        ≡ some o)
      × (concat o.sent ≡ p ++ turn_text t)
      × (o.jodie ≡ cleared)
turn-sent t j p h small online =
    let (o, turn, text, empty) =
      counters_turn-sent t.getsockopt t.works t.now (timestamp_of t) j p t.counters_vec h small
        online.0 (timestamp-lt t online.1) in
    let all = gather_all-statistics t.getsockopt t.counters_vec in
    let told =
      ap
        (λ (ms : ℕ).
          text_of t.now ms (reported t.counters_vec (statistics t.getsockopt t.counters_vec)))
        (timestamp-milliseconds t online.2 online.3) in
    (
      o,
      turn,
      text
          ∙ ap (λ stats. p ++ text_of t.now (timestamp_of t) (reported t.counters_vec stats)) all
          ∙ ap (λ l. p ++ l) told,
      empty,
    )

poll_counters-cleared :
    (ts : List Turn)
    → AreOnline ts
    → (sent : List (List ℕ)) × (vmars_poll_counters ts cleared ≡ some (cleared, sent))
      × (concat sent ≡ turns_text ts)
unfolding vmars_poll_counters
poll_counters-cleared [] online = ([], refl, refl)
poll_counters-cleared (t ∷ ts) online =
    let (o, turn, text, empty) =
      turn-sent t cleared [] init-Holds (omega arith)
        (online.0, online.1, online.2, online.3, tt) in
    let (sent, rest, texts) = poll_counters-cleared ts online.4 in
    (
      o.sent ++ sent,
      rw (turn, empty, rest) refl,
      concat-append o.sent sent
          ∙ ap (λ l. l ++ concat sent) text
          ∙ ap (λ l. turn_text t ++ l) texts,
    )

-- The turns of the counter thread while the network takes its datagrams: first goes the text that
-- was in the buffer, which is no longer than a packet, and then, turn by turn, thirteen lines of
-- that turn alone: the totals over all capture threads as they stand then, each the sum of that
-- counter modulo 2^64, and the three sums, modulo 2^32, of what the kernel says of their sockets,
-- with the turn's time in whole milliseconds, or that of the default clock for a time of 0. Nothing
-- is carried over from a turn to the next, and the buffer is empty after each. Seconds fit 32 bits,
-- microseconds are less than a million, and the default clock fits 64 bits.
pub vmars_poll_counters-sent :
    (t : Turn) (ts : List Turn) (j : Jodie) (p : List ℕ)
    → Holds j p
    → length p ≤ packet_size
    → AreOnline (t ∷ ts)
    → (sent : List (List ℕ)) × (vmars_poll_counters (t ∷ ts) j ≡ some (cleared, sent))
      × (concat sent ≡ p ++ turns_text (t ∷ ts))
unfolding vmars_poll_counters
vmars_poll_counters-sent t ts j p h small online =
    let (o, turn, text, empty) =
      turn-sent t j p h small (online.0, online.1, online.2, online.3, tt) in
    let (sent, rest, texts) = poll_counters-cleared ts online.4 in
    (
      o.sent ++ sent,
      rw (turn, empty, rest) refl,
      concat-append o.sent sent
          ∙ ap (λ l. l ++ concat sent) text
          ∙ ap (λ l. (p ++ turn_text t) ++ l) texts
          ∙ append_assoc p (turn_text t) (turns_text ts),
    )
