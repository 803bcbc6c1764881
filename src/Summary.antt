-- ===== src/Summary.antt =====
-- `vmars_fix_message_summary_t` of src/fix.h: what a capture thread writes into its ring and the
-- latency thread reads back, with its layout in memory.
use vmars.Prelude.{ℕ, zero, suc, ◌+◌, ◌*◌, ◌/◌, ◌%◌, List, [], ◌∷◌, ◌++◌, length}

-- The times are `int64_t` made from `uint32_t`; the key is without its NUL, as `key_len` counts it.
pub record Summary : Type 0 where
  pub tv_sec : ℕ
  pub tv_nsec : ℕ
  pub msg_type : ℕ
  pub key : List ℕ

-- `sizeof(vmars_fix_message_summary_t)`
abbrev pub summary_header_len : ℕ
summary_header_len = 24

-- The `n` bytes of a number, least significant first.
unfoldable pub little_endian : ℕ → ℕ → List ℕ
little_endian zero x = []
little_endian (suc n) x = x % 256 ∷ little_endian n (x / 256)

unfoldable pub from_little_endian : List ℕ → ℕ
from_little_endian [] = 0
from_little_endian (b ∷ bs) = b + 256 * from_little_endian bs

-- The struct behind its pointer, with the key and the NUL behind the key.
abbrev pub encode_summary : Summary → List ℕ
encode_summary s =
    little_endian 8 s.tv_sec
    ++ (little_endian 8 s.tv_nsec
        ++ (little_endian 4 s.msg_type ++ (little_endian 4 (length s.key) ++ (s.key ++ (0 ∷ [])))))
