-- ===== src/Packet/Message.antt =====
-- A telemetry message of packets/packet.h: a header and the body that its subtype announces.
use hysim.Base.{ℕ, List, [], ◌∷◌, ◌++◌}
use hysim.Packet.{
  Temp, Pressure, Mass, Thrust, ArmState, ActState, Warn, ContinuityState, ConnStatus, type_telem,
  telem_temp, telem_pressure, telem_mass, telem_thrust, telem_arm, telem_act, telem_warn,
  telem_cont, telem_conn,
}
use hysim.Packet.Wire.{
  encode_header, encode_temp, encode_pressure, encode_mass, encode_thrust, encode_arm_state,
  encode_act_state, encode_warn, encode_continuity_state, encode_conn_status,
}
use hysim.Packet.RoundTrip.{IsU8, IsU32}

pub data Body : Type 0 where
  temp : Temp → Body
  pressure : Pressure → Body
  mass : Mass → Body
  thrust : Thrust → Body
  arm : ArmState → Body
  act : ActState → Body
  warn : Warn → Body
  cont : ContinuityState → Body
  conn : ConnStatus → Body

abbrev pub subtype_of : Body → ℕ
subtype_of (temp p) = telem_temp
subtype_of (pressure p) = telem_pressure
subtype_of (mass p) = telem_mass
subtype_of (thrust p) = telem_thrust
subtype_of (arm p) = telem_arm
subtype_of (act p) = telem_act
subtype_of (warn p) = telem_warn
subtype_of (cont p) = telem_cont
subtype_of (conn p) = telem_conn

unfoldable pub encode_body : Body → List ℕ
unfolding encode_temp encode_pressure encode_mass encode_thrust encode_arm_state encode_act_state
    encode_warn encode_continuity_state encode_conn_status
encode_body (temp p) = encode_temp p
encode_body (pressure p) = encode_pressure p
encode_body (mass p) = encode_mass p
encode_body (thrust p) = encode_thrust p
encode_body (arm p) = encode_arm_state p
encode_body (act p) = encode_act_state p
encode_body (warn p) = encode_warn p
encode_body (cont p) = encode_continuity_state p
encode_body (conn p) = encode_conn_status p

unfoldable pub encode_message : Body → List ℕ
unfolding encode_header encode_body
encode_message b =
    encode_header (record { type = type_telem; subtype = subtype_of b }) ++ encode_body b

unfoldable pub encode_messages : List Body → List ℕ
unfolding encode_message
encode_messages [] = []
encode_messages (b ∷ bs) = encode_message b ++ encode_messages bs

-- Every field fits its bytes.
abbrev pub IsInRange : Body → Type 0
IsInRange (temp p) = IsU32 p.time × IsU32 p.temperature × IsU8 p.id
IsInRange (pressure p) = IsU32 p.time × IsU32 p.pressure × IsU8 p.id
IsInRange (mass p) = IsU32 p.time × IsU32 p.mass × IsU8 p.id
IsInRange (thrust p) = IsU32 p.time × IsU32 p.thrust × IsU8 p.id
IsInRange (arm p) = IsU32 p.time × IsU8 p.state
IsInRange (act p) = IsU32 p.time × IsU8 p.id × IsU8 p.state
IsInRange (warn p) = IsU32 p.time × IsU8 p.type
IsInRange (cont p) = IsU32 p.time × IsU8 p.state
IsInRange (conn p) = IsU32 p.time × IsU8 p.status
