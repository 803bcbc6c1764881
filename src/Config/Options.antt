-- ===== src/Config/Options.antt =====
-- The options of src/main.c, and which of several counts.
use vmars.Prelude.{
  ℕ, ◌≡◌, refl, Bool, true, false, ◌||◌, ◌&&◌, List, [], ◌∷◌, Option, none, some, ◌==◌,
  if◌then◌else◌, arith, Bool-cases, inl, inr,
}
use vmars.CLib.{atoi}
use vmars.Config.Defs.{Config, set_option, read_options}

abbrev pub or_this : Option (List ℕ) → Option (List ℕ) → Option (List ℕ)
or_this (some s) this = some s
or_this none this = this

abbrev pub last_arg : (ℕ → Bool) → List (ℕ × List ℕ) → Option (List ℕ)
last_arg p [] = none
last_arg p ((opt, optarg) ∷ options) =
    or_this (last_arg p options) (if p opt then some optarg else none)

abbrev pub value_of {ℓ} : {A : Type ℓ} → (List ℕ → A) → A → Option (List ℕ) → A
value_of f default none = default
value_of f default (some s) = f s

-- What the last option of a kind says, and the default if there is none.
abbrev pub chosen {ℓ} : {A : Type ℓ} → (List ℕ → A) → (ℕ → Bool) → A → List (ℕ × List ℕ) → A
chosen f p default options = value_of f default (last_arg p options)

abbrev pub is_known : ℕ → Bool
is_known opt =
    opt == b'i'
    || opt == b't'
    || opt == b'a'
    || opt == b'c'
    || opt == b'h'
    || opt == b'p'
    || opt == b'H'

abbrev pub are_known : List (ℕ × List ℕ) → Bool
are_known [] = true
are_known ((opt, optarg) ∷ options) = is_known opt && are_known options

-- The capture port is that of the last -c or -a.
abbrev pub sets_port : ℕ → Bool
sets_port opt = opt == b'c' || opt == b'a'

abbrev pub overridden : Config → List (ℕ × List ℕ) → Config
overridden config options = record {
  udp_host = chosen some (λ o. o == b'h') config.udp_host options;
  udp_port = chosen atoi (λ o. o == b'p') config.udp_port options;
  capture_port = chosen atoi sets_port config.capture_port options;
  interfaces = chosen some (λ o. o == b'i') config.interfaces options;
  num_threads = chosen atoi (λ o. o == b't') config.num_threads options;
  affinity = chosen (λ s. s) (λ o. o == b'a') config.affinity options;
  use_hw_timestamps = chosen (λ s. true) (λ o. o == b'H') config.use_hw_timestamps options;
}

value_of-this {ℓ} :
    {A : Type ℓ} (f : List ℕ → A) (default : A) (optarg : List ℕ) (later : Option (List ℕ))
    (b : Bool)
    → value_of f (if b then f optarg else default) later
      ≡ value_of f default (or_this later (if b then some optarg else none))
value_of-this f default optarg (some s) b = refl
value_of-this f default optarg none true = refl
value_of-this f default optarg none false = refl

chosen-cons {ℓ} :
    {A : Type ℓ} (f : List ℕ → A) (p : ℕ → Bool) (default : A) (opt : ℕ) (optarg : List ℕ)
    (options : List (ℕ × List ℕ))
    → chosen f p (if p opt then f optarg else default) options
      ≡ chosen f p default ((opt, optarg) ∷ options)
chosen-cons f p default opt optarg options =
    value_of-this f default optarg (last_arg p options) (p opt)

abbrev after_option : Config → ℕ → List ℕ → Config
after_option config opt optarg = record {
  udp_host = if opt == b'h' then some optarg else config.udp_host;
  udp_port = if opt == b'p' then atoi optarg else config.udp_port;
  capture_port = if sets_port opt then atoi optarg else config.capture_port;
  interfaces = if opt == b'i' then some optarg else config.interfaces;
  num_threads = if opt == b't' then atoi optarg else config.num_threads;
  affinity = if opt == b'a' then optarg else config.affinity;
  use_hw_timestamps = if opt == b'H' then true else config.use_hw_timestamps;
}

set_option_lem :
    (config : Config) (opt : ℕ) (optarg : List ℕ)
    → set_option config opt optarg
      ≡ (if is_known opt then some (after_option config opt optarg) else none)
unfolding set_option
set_option_lem config opt optarg = ground arith

overridden-cons :
    (config : Config) (opt : ℕ) (optarg : List ℕ) (options : List (ℕ × List ℕ))
    → overridden (after_option config opt optarg) options
      ≡ overridden config ((opt, optarg) ∷ options)
overridden-cons config opt optarg options i = record {
  udp_host = chosen-cons some (λ o. o == b'h') config.udp_host opt optarg options i;
  udp_port = chosen-cons atoi (λ o. o == b'p') config.udp_port opt optarg options i;
  capture_port = chosen-cons atoi sets_port config.capture_port opt optarg options i;
  interfaces = chosen-cons some (λ o. o == b'i') config.interfaces opt optarg options i;
  num_threads = chosen-cons atoi (λ o. o == b't') config.num_threads opt optarg options i;
  affinity = chosen-cons (λ s. s) (λ o. o == b'a') config.affinity opt optarg options i;
  use_hw_timestamps =
      chosen-cons (λ s. true) (λ o. o == b'H') config.use_hw_timestamps opt optarg options i;
}

-- The options are read exactly if all of them are known, and then the last one of each kind counts:
-- the capture port is that of the last -c or -a, since -a sets it too.
pub read_options_lem :
    (options : List (ℕ × List ℕ)) (config : Config)
    → read_options options config
      ≡ (if are_known options then some (overridden config options) else none)
unfolding read_options
read_options_lem [] config = refl
read_options_lem ((opt, optarg) ∷ options) config =
    let one = set_option_lem config opt optarg in
    elim (Bool-cases (is_known opt)) [
      | inl known ↦
          let rest = read_options_lem options (after_option config opt optarg) in
          rw (one, known, rest, overridden-cons config opt optarg options) refl
      | inr other ↦ rw (one, other) refl
    ]
