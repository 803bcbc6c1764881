-- ===== src/Jodie/Defs.antt =====
-- The definitions of src/jodie_client.c. `sendto` is the system's: each call is given whether it
-- succeeds. `none` is undefined behaviour: a write past the buffer.
use vmars.Prelude.{
  copy_to, ℕ, zero, suc, ◌+◌, ◌*◌, ◌/◌, ◌%◌, Bool, true, false, List, [], ◌∷◌, ◌++◌, Option, none,
  some, Pointer, length, ltb, ◌^◌, ◌==◌, if◌then◌else◌,
}
use vmars.Prelude.Int.{ℤ, pos, negsuc, eqb_ℤ}
use vmars.Prelude.Text.{codes}
use vmars.Parser.Encode.{print_number}

abbrev pub buffer_size : ℕ
buffer_size = 2048

abbrev pub packet_size : ℕ
packet_size = 1400

-- `struct jodie`, less the address and the socket.
pub record Jodie : Type 0 where
  pub send_index : ℕ
  pub send_buffer : Pointer

abbrev pub zero_buffer : Pointer
zero_buffer i = 0

-- What `jodie_init` and a flush leave of the buffer.
abbrev pub cleared : Jodie
cleared = record { send_index = 0; send_buffer = zero_buffer }

-- `struct jodie` with its address, in the network's byte order, and its socket.
pub record Server : Type 0 where
  pub sin_addr : ℕ
  pub sin_port : ℕ
  pub jodie_socket : ℤ
  pub jodie : Jodie

abbrev pub jodie_port : ℕ
jodie_port = 41000

-- `htons` of an `int`
abbrev pub port_bytes : ℕ → ℕ
port_bytes x = x % 256 * 256 + x / 256 % 256

-- `inet_aton` is the system's, `none` for a text that is no address; so is the result of `socket`.
unfoldable pub jodie_init : (List ℕ → Option ℕ) → ℤ → List ℕ → ℕ → Server → ℤ × Server
jodie_init inet_aton socket host port server = elim (inet_aton host) [
  | none ↦ (negsuc 0, server)
  | some addr ↦
      let named : Server = record server {
        sin_addr = addr;
        sin_port = port_bytes (if port == 0 then jodie_port else port);
        jodie_socket = socket;
      } in
      if eqb_ℤ socket (negsuc 0)
      then (negsuc 0, named)
      else (pos 0, record named { jodie = cleared })
]

-- The copy's buffer is not written: it is what stood in the memory of `dst`.
unfoldable pub jodie_dup : Server → Server → Server
jodie_dup src dst = record src { jodie = record dst.jodie { send_index = src.jodie.send_index } }

-- `strlen` and the bytes before the NUL; `none` if there is none in the buffer.
unfoldable pub c_string_at : ℕ → Pointer → ℕ → Option (List ℕ)
c_string_at zero buf i = none
c_string_at (suc n) buf i =
    let rest : Option (List ℕ) = elim (c_string_at n buf (i + 1)) [
      | none ↦ none
      | some cs ↦ some (buf i ∷ cs)
    ] in
    if buf i == 0 then some [] else rest

-- What a call does: its return value's sign, and the datagrams sent.
pub record Outcome : Type 0 where
  pub jodie : Jodie
  pub succeeded : Bool
  pub sent : List (List ℕ)

unfoldable pub jodie_flush : Bool → Jodie → Option Outcome
jodie_flush sendto_works j = elim (c_string_at buffer_size j.send_buffer 0) [
  | none ↦ none
  | some payload ↦ some (
      if sendto_works
      then record { jodie = cleared; succeeded = true; sent = payload ∷ [] }
      else record { jodie = j; succeeded = false; sent = [] })
]

-- strncpy to `send_buffer + send_index`, and `send_index += size_estimate`
unfoldable pub append_line : List ℕ → Outcome → Option Outcome
append_line line o =
    let j = o.jodie in
    if ltb buffer_size (j.send_index + length line)
    then none
    else some (record o {
      jodie = record {
        send_index = j.send_index + length line;
        send_buffer = copy_to j.send_buffer j.send_index line;
      };
      succeeded = true;
    })

-- The tail that the five jodie_log functions share.
unfoldable pub log_line : Bool → Jodie → List ℕ → Option Outcome
log_line sendto_works j line =
    let flushed : Option Outcome = elim (jodie_flush sendto_works j) [
      | none ↦ none
      | some o ↦ append_line line o
    ] in
    if ltb packet_size (length line + j.send_index)
    then flushed
    else append_line line (record { jodie = j; succeeded = true; sent = [] })

-- The time that gettimeofday gives, in milliseconds.
unfoldable pub jodie_get_millis : ℕ → ℕ → ℕ
jodie_get_millis tv_sec tv_usec = (tv_sec * 1000 + tv_usec / 1000) % 2 ^ 64

-- `jodie_getMillis` stands for a timestamp of 0.
abbrev pub timestamp_or : ℕ → ℕ → ℕ
timestamp_or now timestamp = if timestamp == 0 then now else timestamp

-- sprintf(tmp_buf, "%s %lu %lu …", …); the longest line is shorter than the buffer.
abbrev pub format_line : List ℕ → ℕ → ℕ → List ℕ → List ℕ
format_line datapath value timestamp suffix =
    datapath ++ (b' ' ∷ (print_number value ++ (b' ' ∷ (print_number timestamp ++ suffix))))

unfoldable pub log_with : List ℕ → ℕ → Bool → Jodie → List ℕ → ℕ → ℕ → Option Outcome
log_with suffix now sendto_works j datapath value timestamp =
    let line = format_line datapath value (timestamp_or now timestamp) suffix in
    if ltb (buffer_size / 2) (length datapath)
    then some (record { jodie = j; succeeded = false; sent = [] })
    else log_line sendto_works j line

abbrev pub jodie_log_gauge : ℕ → Bool → Jodie → List ℕ → ℕ → ℕ → Option Outcome
jodie_log_gauge = log_with (codes " type=gauge\n")

abbrev pub jodie_log_counter : ℕ → Bool → Jodie → List ℕ → ℕ → ℕ → Option Outcome
jodie_log_counter = log_with (codes " type=counter\n")

-- The value is cut to 100 only after the line has been made.
abbrev pub jodie_log_percent : ℕ → Bool → Jodie → List ℕ → ℕ → ℕ → Option Outcome
jodie_log_percent = log_with (codes " type=percent\n")

-- `units` of NULL is `none`.
abbrev pub jodie_log_timing : ℕ → Bool → Jodie → List ℕ → ℕ → ℕ → Option (List ℕ) → Option Outcome
jodie_log_timing now sendto_works j datapath value timestamp units =
    let suffix : List ℕ = elim units [ none ↦ codes "ms\n" | some u ↦ u ++ codes "\n" ] in
    log_with (codes " type=timing units=" ++ suffix) now sendto_works j datapath value timestamp

-- The value is one of `enum status`.
abbrev pub jodie_log_status : ℕ → Bool → Jodie → List ℕ → ℕ → ℕ → Option Outcome
jodie_log_status = log_with (codes " type=enum\n")
