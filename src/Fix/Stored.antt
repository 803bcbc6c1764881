-- ===== src/Fix/Stored.antt =====
-- The fragment of a stream, in the map and out of it.
use vmars.Prelude.{
  ℕ, ◌≤◌, ◌≡◌, refl, sym, ◌∙◌, List, [], ◌∷◌, ◌++◌, none, some, arith, Pointer, slice, length,
  Option-cases, inl, inr,
}
use vmars.Prelude.Nul.{HasNoNul}
use vmars.KHash.{KHash}
use vmars.Parser.Number.{Stands, slice-Stands}
use vmars.Fix.Details.{FixDetails}
use vmars.Fix.Process.{Context, strncpy, process_for_latency_measurement}
use vmars.Fix.Fragments.{
  Ipv4Stream, Fragment, fragment_capacity, get_fragment, put_fragment, append_fragment,
  remove_fragment,
}

pub strncpy-HasNoNul : (xs : List ℕ) → HasNoNul xs → strncpy xs ≡ xs
unfolding strncpy
strncpy-HasNoNul [] h = refl
strncpy-HasNoNul (c ∷ cs) h = ground (arith, strncpy-HasNoNul cs)

pub strncpy-slice :
    (xs : List ℕ) (p : Pointer) → Stands xs p 0 → HasNoNul xs → strncpy (slice p 0 (length xs)) ≡ xs
strncpy-slice xs p s h = rw (slice-Stands xs p 0 s) (strncpy-HasNoNul xs h)

module _ (table : KHash Ipv4Stream Fragment) where
  open table use {
    Map, key_equal, key_equal_iff, kh_init, kh_get, kh_put, kh_del, get-init, get-put, get-del,
  }

  -- The fragments of a thread; it has none before the first one is put.
  abbrev pub fragments_of : Context Map → Map
  fragments_of ctx = elim ctx.state [ none ↦ kh_init | some m ↦ m ]

  abbrev pub with_fragments : Context Map → Map → Context Map
  with_fragments ctx m = record ctx { state = some m }

  pub get_fragment_lem :
      (ctx : Context Map) (id : Ipv4Stream)
      → get_fragment table ctx id ≡ kh_get (fragments_of ctx) id
  unfolding get_fragment
  get_fragment_lem ctx id = elim (Option-cases ctx.state) [
    | inl new ↦ ground (arith, get-init id)
    | inr (m, old) ↦ ground arith
  ]

  -- A first fragment is kept as it stands, if it fits and holds no NUL.
  pub put_fragment-new :
      (ctx : Context Map) (id : Ipv4Stream) (xs : List ℕ) (p : Pointer)
      → get_fragment table ctx id ≡ none
      → Stands xs p 0
      → HasNoNul xs
      → length xs ≤ fragment_capacity
      → put_fragment table ctx id p (length xs)
        ≡ some (
            with_fragments ctx
              (kh_put (fragments_of ctx) id (record { capacity = fragment_capacity; s = xs })))
  unfolding put_fragment
  put_fragment-new ctx id xs p new s h fits =
      let absent : kh_get (fragments_of ctx) id ≡ none = sym (get_fragment_lem ctx id) ∙ new in
      rw (absent, strncpy-slice xs p s h) (ground arith)

  pub append_fragment_lem :
      (ctx : Context Map) (m : Map) (id : Ipv4Stream) (f : Fragment) (xs : List ℕ) (p : Pointer)
      → ctx.state ≡ some m
      → Stands xs p 0
      → HasNoNul xs
      → append_fragment table ctx id f p (length xs) ≡ (
        with_fragments ctx (kh_put m id (record f { s = f.s ++ xs })),
        record f { s = f.s ++ xs },
      )
  unfolding append_fragment
  append_fragment_lem ctx m id f xs p old s h =
      simp (append_fragment, old, strncpy-slice xs p s h) refl

  pub remove_fragment_lem :
      (ctx : Context Map) (m : Map) (id : Ipv4Stream) (f : Fragment)
      → ctx.state ≡ some m
      → kh_get m id ≡ some f
      → remove_fragment table ctx id ≡ with_fragments ctx (kh_del m id)
  unfolding remove_fragment
  remove_fragment_lem ctx m id f old found = ground arith

module _ {Map : Type 0} where
  pub process-state :
      (ctx : Context Map) (s n : ℕ) (d : FixDetails)
      → (process_for_latency_measurement ctx s n d).state ≡ ctx.state
  unfolding process_for_latency_measurement
  process-state ctx s n d = ground arith
