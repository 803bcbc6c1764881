-- ===== src/Config/Plan.antt =====
-- Which capture threads `main` of src/main.c starts.
use vmars.Prelude.{
  ℕ, zero, suc, ◌+◌, ◌*◌, ◌<◌, ◌≡◌, refl, ap, ◌∙◌, true, List, [], ◌∷◌, Option, none, some, length,
  length-append, get_elem?, get_elem?-append_left, get_elem?-append_right, arith, Option-cases,
  Bool-cases, inl, inr,
}
use mathlib.Core.Option.{some-injective}
use vmars.Prelude.Int.{ℤ, pos, negsuc}
use vmars.Config.Text.{split_string}
use vmars.Config.Defs.{
  Config, set_default_config, refuse, ThreadContext, cpu_at, interface_threads, all_threads,
  thread_contexts, started, start_threads, start_if, main,
}
use vmars.Config.Options.{are_known, overridden, read_options_lem}

module _ (num_threads : ℕ) (port : ℤ) (affinity : List (List ℕ)) where
  -- The `i`-th thread of the `j`-th interface. Its processor does not depend on the interface.
  abbrev pub thread_at : ℕ → ℕ → List ℕ → ThreadContext
  thread_at i j name = record {
    thread_num = j * num_threads + i;
    fanout_id = 1111 * (j + 1);
    interface = name;
    port = port;
    cpu_num = cpu_at affinity i;
  }

  pub length-interface_threads :
      (n i j : ℕ) (name : List ℕ)
      → length (interface_threads num_threads port affinity n i j name) ≡ n
  unfolding interface_threads
  length-interface_threads zero i j name = refl
  length-interface_threads (suc n) i j name = ap suc (length-interface_threads n (i + 1) j name)

  get_elem?-interface_threads :
      (n i j k : ℕ) (name : List ℕ)
      → k < n
      → get_elem? (interface_threads num_threads port affinity n i j name) k
        ≡ some (thread_at (i + k) j name)
  unfolding interface_threads
  get_elem?-interface_threads zero i j k name lt = absurd (omega arith)
  get_elem?-interface_threads (suc n) i j zero name lt =
      let e : i + 0 ≡ i = omega arith in rw e refl
  get_elem?-interface_threads (suc n) i j (suc k) name lt =
      let e : i + suc k ≡ i + 1 + k = omega arith in
      rw e (get_elem?-interface_threads n (i + 1) j k name (omega arith))

  pub length-all_threads :
      (names : List (List ℕ)) (j : ℕ)
      → length (all_threads num_threads port affinity j names) ≡ length names * num_threads
  unfolding all_threads
  length-all_threads [] j = omega arith
  length-all_threads (name ∷ names) j =
      let first = interface_threads num_threads port affinity num_threads 0 j name in
      let rest = all_threads num_threads port affinity (j + 1) names in
      let one = length-interface_threads num_threads 0 j name in
      length-append first rest ∙ rw (one, length-all_threads names (j + 1)) (omega arith)

  get_elem?-all_threads :
      (names : List (List ℕ)) (j k i : ℕ) (name : List ℕ)
      → get_elem? names k ≡ some name
      → i < num_threads
      → get_elem? (all_threads num_threads port affinity j names) (k * num_threads + i)
        ≡ some (thread_at i (j + k) name)
  unfolding all_threads
  get_elem?-all_threads [] j k i name e lt = absurd (ground arith)
  get_elem?-all_threads (first ∷ names) j zero i name e lt =
      let own = interface_threads num_threads port affinity num_threads 0 j first in
      let others = all_threads num_threads port affinity (j + 1) names in
      let size = length-interface_threads num_threads 0 j first in
      let same : first ≡ name = some-injective _ _ e in
      let start : 0 * num_threads + i ≡ i = omega arith in
      let at_i : 0 + i ≡ i = omega arith in
      let at_j : j + 0 ≡ j = omega arith in
      rw (start, at_j)
        (get_elem?-append_left own others i (omega arith)
          ∙ rw at_i at (get_elem?-interface_threads num_threads 0 j i first lt)
          ∙ ap (λ n. some (thread_at i j n)) same)
  get_elem?-all_threads (first ∷ names) j (suc k) i name e lt =
      let own = interface_threads num_threads port affinity num_threads 0 j first in
      let others = all_threads num_threads port affinity (j + 1) names in
      let size = length-interface_threads num_threads 0 j first in
      let start : suc k * num_threads + i ≡ num_threads + (k * num_threads + i) = omega arith in
      let at_j : j + suc k ≡ j + 1 + k = omega arith in
      rw (start, at_j)
        (rw size at (get_elem?-append_right own others (k * num_threads + i))
          ∙ get_elem?-all_threads names (j + 1) k i name e lt)

pub thread_contexts_inv :
    (config : Config) (interfaces : List ℕ) (n : ℕ) (threads : List ThreadContext)
    → thread_contexts config interfaces n ≡ some threads
    → threads
      ≡ all_threads n config.capture_port (split_string config.affinity) 0 (split_string interfaces)
unfolding thread_contexts
thread_contexts_inv config interfaces n threads e = ground arith

pub start_threads_inv :
    (config : Config) (interfaces : Option (List ℕ)) (n : ℤ) (threads : List ThreadContext)
    → start_threads config interfaces n ≡ started threads
    → (names : List ℕ) × (k : ℕ) × (interfaces ≡ some names)
      × (n ≡ pos k)
      × (thread_contexts config names k ≡ some threads)
start_threads_inv config none n threads e = absurd (ground arith)
start_threads_inv config (some names) (negsuc n) threads e = absurd (ground arith)
start_threads_inv config (some names) (pos n) threads e =
    elim (Option-cases (thread_contexts config names n)) [
      | inl nothing ↦ absurd (ground arith)
      | inr (ts, found) ↦ (names, n, refl, refl, ground arith)
    ]

start_if_inv :
    (config : Config) (threads : List ThreadContext)
    → start_if config (refuse config) ≡ started threads
    → (refuse config ≡ none)
      × (start_threads config config.interfaces config.num_threads ≡ started threads)
start_if_inv config threads e = elim (Option-cases (refuse config)) [
  | inl fine ↦ (fine, rw fine at e)
  | inr (refusal, bad) ↦ let e' = rw bad at e in absurd (ground arith)
]

positive : (config : Config) (n : ℕ) → refuse config ≡ none → config.num_threads ≡ pos n → 0 < n
unfolding refuse
positive config zero fine count = absurd (ground arith)
positive config (suc n) fine count = omega arith

pub main_inv :
    (options : List (ℕ × List ℕ)) (threads : List ThreadContext)
    → main options ≡ started threads
    → let config = overridden set_default_config options in
      (are_known options ≡ true)
      × (refuse config ≡ none)
      × (start_threads config config.interfaces config.num_threads ≡ started threads)
unfolding main
main_inv options threads e =
    let config = overridden set_default_config options in
    let e' = rw (read_options_lem options set_default_config) at e in
    elim (Bool-cases (are_known options)) [
      | inl known ↦
          let (fine, run) = start_if_inv config threads (rw known at e') in (known, fine, run)
      | inr other ↦ let e'' = rw other at e' in absurd (ground arith)
    ]

-- When `main` starts its threads, all options were known, and the last -i and the last -t say which:
-- for each of the named interfaces as many threads as -t says, numbered without gaps; the i-th
-- thread of the j-th interface has number j times that count plus i, the number of its interface's
-- group, the port of the last -c or -a, and the i-th processor of the last -a, whichever the
-- interface, or none.
pub main-started :
    (options : List (ℕ × List ℕ)) (threads : List ThreadContext)
    → main options ≡ started threads
    → let config = overridden set_default_config options in
      (interfaces : List ℕ) × (n : ℕ) × (are_known options ≡ true)
      × (config.interfaces ≡ some interfaces)
      × (config.num_threads ≡ pos n)
      × (0 < n)
      × (length threads ≡ length (split_string interfaces) * n)
      × ((j i : ℕ) (name : List ℕ)
          → get_elem? (split_string interfaces) j ≡ some name
          → i < n
          → get_elem? threads (j * n + i)
            ≡ some (thread_at n config.capture_port (split_string config.affinity) i j name))
main-started options threads e =
    let config = overridden set_default_config options in
    let (known, fine, run) = main_inv options threads e in
    let (interfaces, n, given, count, made) =
      start_threads_inv config config.interfaces config.num_threads threads run in
    let names = split_string interfaces in
    let cpus = split_string config.affinity in
    let same = thread_contexts_inv config interfaces n threads made in
    (
      interfaces,
      n,
      known,
      given,
      count,
      positive config n fine count,
      ap length same ∙ length-all_threads n config.capture_port cpus names 0,
      λ j i name found lt.
          let start : 0 + j ≡ j = omega arith in
          ap (λ ts. get_elem? ts (j * n + i)) same
          ∙ rw start at
              (get_elem?-all_threads n config.capture_port cpus names 0 j i name found lt),
    )
