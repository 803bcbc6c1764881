-- ===== src/Parser/Constants.antt =====
-- The tags and message types of src/fixparser.h.
use vmars.Prelude.{ℕ, ◌+◌, ◌*◌}

abbrev pub fix_cl_ord_id : ℕ
fix_cl_ord_id = 11

abbrev pub fix_msg_type : ℕ
fix_msg_type = 35

abbrev pub fix_security_id : ℕ
fix_security_id = 48

abbrev pub fix_sender_comp_id : ℕ
fix_sender_comp_id = 49

abbrev pub fix_symbol : ℕ
fix_symbol = 55

abbrev pub fix_target_comp_id : ℕ
fix_target_comp_id = 56

abbrev pub fix_quote_id : ℕ
fix_quote_id = 117

abbrev pub fix_exec_type : ℕ
fix_exec_type = 150

abbrev pub fix_quote_status : ℕ
fix_quote_status = 297

abbrev pub fix_underlying_security_id : ℕ
fix_underlying_security_id = 309

abbrev pub fix_underlying_symbol : ℕ
fix_underlying_symbol = 311

abbrev pub fix_exec_type_new : ℕ
fix_exec_type_new = b'0'

abbrev pub fix_quote_status_accepted : ℕ
fix_quote_status_accepted = 0

-- ((int) x << 8) + y
abbrev pub int_of : ℕ → ℕ → ℕ
int_of x y = x * 256 + y

abbrev pub msg_type_new_order_single : ℕ
msg_type_new_order_single = b'D'

abbrev pub msg_type_execution_report : ℕ
msg_type_execution_report = b'8'

abbrev pub msg_type_mass_quote : ℕ
msg_type_mass_quote = b'i'

abbrev pub msg_type_mass_quote_ack : ℕ
msg_type_mass_quote_ack = b'b'

abbrev pub msg_type_trace_req : ℕ
msg_type_trace_req = int_of b'x' b'r'

abbrev pub msg_type_trace_rsp : ℕ
msg_type_trace_rsp = int_of b'x' b's'
