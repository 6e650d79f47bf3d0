-- ===== src/Packet/RoundTrip.antt =====
-- What is encoded is decoded again, whatever follows it.
use hysim.Base.{ℕ, ◌<◌, ◌≡◌, List, ◌++◌, some, arith}
use hysim.Packet.{
  Header, ActReq, ActAck, ArmReq, ArmAck, Temp, Pressure, Mass, Thrust, ArmState, ActState, Warn,
  ContinuityState, ConnStatus,
}
use hysim.Packet.Wire.{
  encode_u32, decode_u32, encode_header, decode_header, encode_act_req, decode_act_req,
  encode_act_ack, decode_act_ack, encode_arm_req, decode_arm_req, encode_arm_ack, decode_arm_ack,
  encode_temp, decode_temp, encode_pressure, decode_pressure, encode_mass, decode_mass,
  encode_thrust, decode_thrust, encode_arm_state, decode_arm_state, encode_act_state,
  decode_act_state, encode_warn, decode_warn, encode_continuity_state, decode_continuity_state,
  encode_conn_status, decode_conn_status,
}

abbrev pub IsU8 : ℕ → Type 0
IsU8 n = n < 256

abbrev pub IsU32 : ℕ → Type 0
IsU32 n = n < 0x1_0000_0000

pub decode_u32-encode_u32 :
    (n : ℕ) (rest : List ℕ) → IsU32 n → decode_u32 (encode_u32 n ++ rest) ≡ some (n, rest)
unfolding encode_u32 decode_u32
decode_u32-encode_u32 n rest h = ground arith

pub decode-encode_header :
    (p : Header) (rest : List ℕ)
    → IsU8 p.type
    → IsU8 p.subtype
    → decode_header (encode_header p ++ rest) ≡ some (p, rest)
unfolding encode_header decode_header
decode-encode_header p rest h0 h1 = ground arith

pub decode-encode_act_req :
    (p : ActReq) (rest : List ℕ)
    → IsU8 p.id
    → IsU8 p.state
    → decode_act_req (encode_act_req p ++ rest) ≡ some (p, rest)
unfolding encode_act_req decode_act_req
decode-encode_act_req p rest h0 h1 = ground arith

pub decode-encode_act_ack :
    (p : ActAck) (rest : List ℕ)
    → IsU8 p.id
    → IsU8 p.status
    → decode_act_ack (encode_act_ack p ++ rest) ≡ some (p, rest)
unfolding encode_act_ack decode_act_ack
decode-encode_act_ack p rest h0 h1 = ground arith

pub decode-encode_arm_req :
    (p : ArmReq) (rest : List ℕ)
    → IsU8 p.level
    → decode_arm_req (encode_arm_req p ++ rest) ≡ some (p, rest)
unfolding encode_arm_req decode_arm_req
decode-encode_arm_req p rest h0 = ground arith

pub decode-encode_arm_ack :
    (p : ArmAck) (rest : List ℕ)
    → IsU8 p.status
    → decode_arm_ack (encode_arm_ack p ++ rest) ≡ some (p, rest)
unfolding encode_arm_ack decode_arm_ack
decode-encode_arm_ack p rest h0 = ground arith

pub decode-encode_temp :
    (p : Temp) (rest : List ℕ)
    → IsU32 p.time
    → IsU32 p.temperature
    → IsU8 p.id
    → decode_temp (encode_temp p ++ rest) ≡ some (p, rest)
unfolding encode_temp decode_temp
decode-encode_temp p rest h0 h1 h2 = ground arith

pub decode-encode_pressure :
    (p : Pressure) (rest : List ℕ)
    → IsU32 p.time
    → IsU32 p.pressure
    → IsU8 p.id
    → decode_pressure (encode_pressure p ++ rest) ≡ some (p, rest)
unfolding encode_pressure decode_pressure
decode-encode_pressure p rest h0 h1 h2 = ground arith

pub decode-encode_mass :
    (p : Mass) (rest : List ℕ)
    → IsU32 p.time
    → IsU32 p.mass
    → IsU8 p.id
    → decode_mass (encode_mass p ++ rest) ≡ some (p, rest)
unfolding encode_mass decode_mass
decode-encode_mass p rest h0 h1 h2 = ground arith

pub decode-encode_thrust :
    (p : Thrust) (rest : List ℕ)
    → IsU32 p.time
    → IsU32 p.thrust
    → IsU8 p.id
    → decode_thrust (encode_thrust p ++ rest) ≡ some (p, rest)
unfolding encode_thrust decode_thrust
decode-encode_thrust p rest h0 h1 h2 = ground arith

pub decode-encode_arm_state :
    (p : ArmState) (rest : List ℕ)
    → IsU32 p.time
    → IsU8 p.state
    → decode_arm_state (encode_arm_state p ++ rest) ≡ some (p, rest)
unfolding encode_arm_state decode_arm_state
decode-encode_arm_state p rest h0 h1 = ground arith

pub decode-encode_act_state :
    (p : ActState) (rest : List ℕ)
    → IsU32 p.time
    → IsU8 p.id
    → IsU8 p.state
    → decode_act_state (encode_act_state p ++ rest) ≡ some (p, rest)
unfolding encode_act_state decode_act_state
decode-encode_act_state p rest h0 h1 h2 = ground arith

pub decode-encode_warn :
    (p : Warn) (rest : List ℕ)
    → IsU32 p.time
    → IsU8 p.type
    → decode_warn (encode_warn p ++ rest) ≡ some (p, rest)
unfolding encode_warn decode_warn
decode-encode_warn p rest h0 h1 = ground arith

pub decode-encode_continuity_state :
    (p : ContinuityState) (rest : List ℕ)
    → IsU32 p.time
    → IsU8 p.state
    → decode_continuity_state (encode_continuity_state p ++ rest) ≡ some (p, rest)
unfolding encode_continuity_state decode_continuity_state
decode-encode_continuity_state p rest h0 h1 = ground arith

pub decode-encode_conn_status :
    (p : ConnStatus) (rest : List ℕ)
    → IsU32 p.time
    → IsU8 p.status
    → decode_conn_status (encode_conn_status p ++ rest) ≡ some (p, rest)
unfolding encode_conn_status decode_conn_status
decode-encode_conn_status p rest h0 h1 = ground arith
