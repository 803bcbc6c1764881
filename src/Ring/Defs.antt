-- ===== src/Ring/Defs.antt =====
-- The definitions of src/spsc_rb.c. A `size_t` or `int64_t` is its bit pattern below 2^64.
use Prim.Native.Nat.{bit_and}
use vmars.Prelude.{
  ℕ, zero, suc, ◌+◌, ◌-◌, ◌*◌, ◌/◌, ◌%◌, ◌^◌, Bool, not, ◌&&◌, ◌||◌, List, [], ◌∷◌, Option, none,
  some, ltb, leb, ◌==◌, if◌then◌else◌,
}
use vmars.Prelude.Int.{ℤ, pos, negsuc, ◌-ℤ◌, ltb_ℤ}

-- `vmars_spsc_rb_t` with its descriptor. The buffer's file is mapped twice in a row, so that
-- address `a` is byte `a % capacity` of the file.
pub record Rb : Type 0 where
  pub buffer : ℕ → ℕ
  pub capacity : ℕ
  pub tail_cache_position : ℕ
  pub tail_position : ℕ
  pub head_cache_position : ℕ
  pub head_position : ℕ

pub data Status : Type 0 where
  success einval enomem : Status

abbrev pub word : ℕ → ℕ
word x = x % 2 ^ 64

abbrev pub sub_word : ℕ → ℕ → ℕ
sub_word a b = (a + 2 ^ 64 - b) % 2 ^ 64

-- `(int32_t) x` of a word, and an `int32_t` as a word
abbrev pub to_int32 : ℕ → ℤ
to_int32 x = let w = x % 2 ^ 32 in if ltb w (2 ^ 31) then pos w else negsuc (2 ^ 32 - w - 1)

abbrev pub sign_extend : ℕ → ℕ
sign_extend x = let w = x % 2 ^ 32 in if ltb w (2 ^ 31) then w else w + (2 ^ 64 - 2 ^ 32)

-- 0 >= a - b over `int64_t`
abbrev pub not_after : ℕ → ℕ → Bool
not_after a b = let d = sub_word a b in d == 0 || leb (2 ^ 63) d

-- `sizeof(vmars_rb_record_t)`: the length alone
abbrev pub header_size : ℕ
header_size = 4

abbrev pub store_byte : ℕ → (ℕ → ℕ) → ℕ → ℕ → ℕ → ℕ
store_byte capacity buffer a v i = if i == a % capacity then v else buffer i

unfoldable pub store_bytes : ℕ → (ℕ → ℕ) → ℕ → List ℕ → ℕ → ℕ
store_bytes capacity buffer a [] = buffer
store_bytes capacity buffer a (x ∷ xs) =
    store_bytes capacity (store_byte capacity buffer a x) (a + 1) xs

-- An `int32_t` in memory, least significant byte first.
abbrev pub int32_bytes : ℕ → List ℕ
int32_bytes n = n % 256 ∷ n / 256 % 256 ∷ n / 65536 % 256 ∷ n / 16777216 % 256 ∷ []

abbrev pub load_byte : Rb → ℕ → ℕ
load_byte rb a = rb.buffer (a % rb.capacity)

-- `record->length`, of the record at address `a`
unfoldable pub record_length : Rb → ℕ → ℕ
record_length rb a =
    load_byte rb a
    + 256 * load_byte rb (a + 1)
    + 65536 * load_byte rb (a + 2)
    + 16777216 * load_byte rb (a + 3)

-- The record's `data`, which its user reads and writes.
unfoldable pub load_bytes : Rb → ℕ → ℕ → List ℕ
load_bytes rb a zero = []
load_bytes rb a (suc n) = load_byte rb a ∷ load_bytes rb (a + 1) n

unfoldable pub record_data : Rb → ℕ → List ℕ
record_data rb a = load_bytes rb (a + header_size) (record_length rb a)

unfoldable pub write_data : Rb → ℕ → List ℕ → Rb
write_data rb a xs = record rb { buffer = store_bytes rb.capacity rb.buffer (a + header_size) xs }

-- ~value + 1 is 2^64 - value.
unfoldable pub is_power_of_two : ℕ → Bool
is_power_of_two value = ltb 0 value && bit_and value (sub_word 0 value) == value

unfoldable pub is_multiple_of_page_size : ℕ → ℕ → Bool
is_multiple_of_page_size page_size value = bit_and (page_size - 1) value == 0

-- `map_buffer` and `calloc` are the operating system's: the buffer, `none` for NULL, and whether
-- the descriptor was allocated. The ring is that which `rb` points at on a return of 0.
unfoldable pub vmars_spsc_rb_init : ℕ → Option (ℕ → ℕ) → Bool → ℕ → Status × Option Rb
vmars_spsc_rb_init page_size mapped allocated capacity =
    if not (is_power_of_two capacity) && is_multiple_of_page_size page_size capacity
    then (einval, none)
    else elim mapped [
      | none ↦ (enomem, none)
      | some buffer ↦
          if allocated
          then (
            success,
            some (record {
              buffer = buffer;
              capacity = capacity;
              tail_cache_position = 0;
              tail_position = 0;
              head_cache_position = 0;
              head_position = 0;
            }),
          )
          else (enomem, none)
    ]

abbrev pub tail_index : Rb → ℕ
tail_index rb = bit_and rb.tail_position (sub_word rb.capacity 1)

-- `(int32_t) head & (capacity - 1)`
abbrev pub head_index : Rb → ℕ
head_index rb = bit_and (sign_extend rb.head_position) (sub_word rb.capacity 1)

-- record->length = (int32_t) length
unfoldable pub claim_record : Rb → ℕ → Option ℕ × Rb
claim_record rb length =
    let a = tail_index rb in
    (
      some a,
      record rb { buffer = store_bytes rb.capacity rb.buffer a (int32_bytes (length % 2 ^ 32)) },
    )

-- `available_capacity`
unfoldable pub available_capacity : Rb → ℤ
unfolding ◌-ℤ◌
available_capacity rb =
    to_int32 rb.capacity -ℤ to_int32 (sub_word rb.tail_position rb.head_cache_position)

unfoldable pub vmars_spsc_rb_claim : Rb → ℕ → Option ℕ × Rb
vmars_spsc_rb_claim rb length =
    let required_capacity = word (length + header_size) in
    let head = rb.head_position in
    if ltb rb.capacity length
    then (none, rb)
    else if ltb_ℤ (available_capacity rb) (to_int32 required_capacity)
    then if ltb (sub_word rb.capacity (sub_word rb.tail_position head)) required_capacity
      then (none, rb)
      else claim_record (record rb { head_cache_position = head }) length
    else claim_record rb length

unfoldable pub vmars_spsc_rb_publish : Rb → ℕ → Status × Rb
vmars_spsc_rb_publish rb to_publish = if not (to_publish == tail_index rb) then (einval, rb) else (
  success,
  record rb {
    tail_position =
        word (rb.tail_position + sign_extend (record_length rb to_publish) + header_size);
  },
)

unfoldable pub vmars_spsc_rb_poll : Rb → Option ℕ × Rb
vmars_spsc_rb_poll rb =
    let head = rb.head_position in
    let tail = rb.tail_position in
    if not_after rb.tail_cache_position head
    then if not_after tail head
      then (none, rb)
      else (some (head_index rb), record rb { tail_cache_position = tail })
    else (some (head_index rb), rb)

unfoldable pub vmars_spsc_rb_release : Rb → ℕ → Status × Rb
vmars_spsc_rb_release rb to_release = if not (to_release == head_index rb) then (einval, rb) else (
  success,
  record rb {
    head_position =
        word (rb.head_position + header_size + sign_extend (record_length rb to_release));
  },
)
