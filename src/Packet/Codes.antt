-- ===== src/Packet/Codes.antt =====
-- The enumerators of packets/packet.h.
use hysim.Base.{ℕ}

-- packet_type_e
abbrev pub type_cntrl : ℕ
type_cntrl = 0

abbrev pub type_telem : ℕ
type_telem = 1

-- cntrl_subtype_e
abbrev pub cntrl_act_req : ℕ
cntrl_act_req = 0

abbrev pub cntrl_act_ack : ℕ
cntrl_act_ack = 1

abbrev pub cntrl_arm_req : ℕ
cntrl_arm_req = 2

abbrev pub cntrl_arm_ack : ℕ
cntrl_arm_ack = 3

-- telem_subtype_e
abbrev pub telem_temp : ℕ
telem_temp = 0

abbrev pub telem_pressure : ℕ
telem_pressure = 1

abbrev pub telem_mass : ℕ
telem_mass = 2

abbrev pub telem_thrust : ℕ
telem_thrust = 3

abbrev pub telem_arm : ℕ
telem_arm = 4

abbrev pub telem_act : ℕ
telem_act = 5

abbrev pub telem_warn : ℕ
telem_warn = 6

abbrev pub telem_cont : ℕ
telem_cont = 7

abbrev pub telem_conn : ℕ
telem_conn = 8

-- act_ack_status_e
abbrev pub act_ok : ℕ
act_ok = 0

abbrev pub act_denied : ℕ
act_denied = 1

abbrev pub act_dne : ℕ
act_dne = 2

abbrev pub act_inv : ℕ
act_inv = 3

-- arm_lvl_e
abbrev pub armed_pad : ℕ
armed_pad = 0

abbrev pub armed_valves : ℕ
armed_valves = 1

abbrev pub armed_ignition : ℕ
armed_ignition = 2

abbrev pub armed_disconnected : ℕ
armed_disconnected = 3

abbrev pub armed_launch : ℕ
armed_launch = 4

-- arm_ack_status_e
abbrev pub arm_ok : ℕ
arm_ok = 0

abbrev pub arm_denied : ℕ
arm_denied = 1

abbrev pub arm_inv : ℕ
arm_inv = 2

-- warn_type_e
abbrev pub warn_high_pressure : ℕ
warn_high_pressure = 0

abbrev pub warn_high_temp : ℕ
warn_high_temp = 1

-- continuity_state_e
abbrev pub continuity_low : ℕ
continuity_low = 0

abbrev pub continuity_high : ℕ
continuity_high = 1

-- conn_status_e
abbrev pub conn_connected : ℕ
conn_connected = 0

abbrev pub conn_reconnecting : ℕ
conn_reconnecting = 1

abbrev pub conn_disconnected : ℕ
conn_disconnected = 2
