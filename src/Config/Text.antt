-- ===== src/Config/Text.antt =====
-- The texts that src/main.c reads: lists and numbers. A C string is its bytes, without the NUL.
use vmars.Prelude.{ℕ, List, [], ◌∷◌, ◌++◌, ◌==◌, if◌then◌else◌}
use vmars.Prelude.Int.{ℤ, negsuc}
use vmars.CLib.{strtol, as_int}

-- A token of strtok, which is never empty, before the others.
abbrev pub add_token : List ℕ → List (List ℕ) → List (List ℕ)
add_token [] tokens = tokens
add_token (c ∷ token) tokens = (c ∷ token) ∷ tokens

-- The calls of `strtok` with ",", in the middle of a token.
unfoldable pub tokens_from : List ℕ → List ℕ → List (List ℕ)
tokens_from token [] = add_token token []
tokens_from token (c ∷ s) =
    let next = tokens_from [] s in
    let longer = tokens_from (token ++ (c ∷ [])) s in
    if c == b',' then add_token token next else longer

unfoldable pub split_string : List ℕ → List (List ℕ)
split_string s = tokens_from [] s

abbrev pub cpu_id_or : ℤ → List ℕ → ℤ
cpu_id_or cpu_id [] = as_int cpu_id
cpu_id_or cpu_id (c ∷ rest) = negsuc 0

-- -1 for a text that is not a number and nothing else.
unfoldable pub parse_cpu_id : List ℕ → ℤ
parse_cpu_id s = let r = strtol s in cpu_id_or r.0 r.1
