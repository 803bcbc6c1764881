-- ===== src/Counters/Statistics.antt =====
-- What `gather_socket_stats` of src/counter_handler.c adds up over the sockets of all threads.
use vmars.Prelude.{
  ℕ, ◌+◌, ◌%◌, ◌^◌, ◌<◌, ◌≡◌, refl, List, [], ◌∷◌, Option, none, some, arith, ◌==◌, if◌then◌else◌,
}
use vmars.Counters.{Counters, Stats, no_stats, gather_socket_stats, gather_all}

-- A number of a thread's socket; 0 without a socket, or if the kernel does not answer.
abbrev pub stat_of : (Stats → ℕ) → (ℕ → Option Stats) → ℕ → ℕ
stat_of f getsockopt fd =
    if fd == 0 then 0 else elim (getsockopt fd) [ none ↦ 0 | some stats ↦ f stats ]

abbrev pub stats_sum : (Stats → ℕ) → (ℕ → Option Stats) → List Counters → ℕ
stats_sum f getsockopt [] = 0
stats_sum f getsockopt (c ∷ cs) = stat_of f getsockopt c.fd + stats_sum f getsockopt cs

-- The sums over the sockets of all threads, each modulo 2^32.
abbrev pub statistics : (ℕ → Option Stats) → List Counters → Stats
statistics getsockopt cs = record {
  tp_packets = stats_sum (λ s. s.tp_packets) getsockopt cs % 2 ^ 32;
  tp_drops = stats_sum (λ s. s.tp_drops) getsockopt cs % 2 ^ 32;
  tp_freeze_q_cnt = stats_sum (λ s. s.tp_freeze_q_cnt) getsockopt cs % 2 ^ 32;
}

module _ (f : Stats → ℕ) (getsockopt : ℕ → Option Stats)
    (step : (s : Stats) (fd : ℕ)
      → f s < 2 ^ 32
      → f (gather_socket_stats getsockopt fd s) ≡ (f s + stat_of f getsockopt fd) % 2 ^ 32) where
  gather_all-field :
      (cs : List Counters) (s : Stats)
      → f s < 2 ^ 32
      → f (gather_all getsockopt s cs) ≡ (f s + stats_sum f getsockopt cs) % 2 ^ 32
  unfolding gather_all
  gather_all-field [] s lt = omega arith
  gather_all-field (c ∷ cs) s lt =
      let first = step s c.fd lt in
      omega (
        arith,
        first,
        gather_all-field cs (gather_socket_stats getsockopt c.fd s) (omega (arith, first)),
      )

  gather_all-total :
      (cs : List Counters)
      → f no_stats ≡ 0
      → f (gather_all getsockopt no_stats cs) ≡ stats_sum f getsockopt cs % 2 ^ 32
  gather_all-total cs start = omega (arith, gather_all-field cs no_stats (omega arith))

pub gather_all-statistics :
    (getsockopt : ℕ → Option Stats) (cs : List Counters)
    → gather_all getsockopt no_stats cs ≡ statistics getsockopt cs
unfolding gather_socket_stats
gather_all-statistics getsockopt cs =
    let packets =
      gather_all-total (λ s. s.tp_packets) getsockopt (λ s fd lt. ground arith) cs refl in
    let drops = gather_all-total (λ s. s.tp_drops) getsockopt (λ s fd lt. ground arith) cs refl in
    let freezes =
      gather_all-total (λ s. s.tp_freeze_q_cnt) getsockopt (λ s fd lt. ground arith) cs refl in
    λ i. record { tp_packets = packets i; tp_drops = drops i; tp_freeze_q_cnt = freezes i }
