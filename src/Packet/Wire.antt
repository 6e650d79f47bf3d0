-- ===== src/Packet/Wire.antt =====
-- The bytes of the packed structures of packets/packet.h, as both ends send and receive them: the
-- fields in order with no padding, a 32-bit field with its low byte first, as on the RP2040 and on
-- x86 (the code converts no byte order). A decoder reads a structure off the front of the bytes, and
-- `none` says that there are too few.
use hysim.Base.{ℕ, ◌+◌, ◌*◌, ◌/◌, List, [], ◌∷◌, ◌++◌, Option, none, some}
use hysim.Packet.{
  Header, ActReq, ActAck, ArmReq, ArmAck, Temp, Pressure, Mass, Thrust, ArmState, ActState, Warn,
  ContinuityState, ConnStatus, u8,
}

-- What is read off the front, with the bytes behind it.
abbrev pub Decoded : Type 0 → Type 0
Decoded A = Option (A × List ℕ)

infixl 5 ◌>>=◌
abbrev ◌>>=◌ : {A B : Type 0} → Option A → (A → Option B) → Option B
none >>= f = none
some a >>= f = f a

unfoldable pub encode_u32 : ℕ → List ℕ
encode_u32 n = u8 n ∷ u8 (n / 256) ∷ u8 (n / 65536) ∷ u8 (n / 16777216) ∷ []

unfoldable pub decode_u8 : List ℕ → Decoded ℕ
decode_u8 [] = none
decode_u8 (b ∷ rest) = some (b, rest)

unfoldable pub decode_u32 : List ℕ → Decoded ℕ
unfolding decode_u8
decode_u32 bs = do
  (b0, r0) ← decode_u8 bs
  (b1, r1) ← decode_u8 r0
  (b2, r2) ← decode_u8 r1
  (b3, r3) ← decode_u8 r2
  some (b0 + 256 * b1 + 65536 * b2 + 16777216 * b3, r3)

unfoldable pub encode_header : Header → List ℕ
encode_header p = u8 p.type ∷ u8 p.subtype ∷ []

unfoldable pub decode_header : List ℕ → Decoded Header
unfolding decode_u8
decode_header bs = do
  (type, r0) ← decode_u8 bs
  (subtype, r1) ← decode_u8 r0
  some (record { type = type; subtype = subtype }, r1)

unfoldable pub encode_act_req : ActReq → List ℕ
encode_act_req p = u8 p.id ∷ u8 p.state ∷ []

unfoldable pub decode_act_req : List ℕ → Decoded ActReq
unfolding decode_u8
decode_act_req bs = do
  (id, r0) ← decode_u8 bs
  (state, r1) ← decode_u8 r0
  some (record { id = id; state = state }, r1)

unfoldable pub encode_act_ack : ActAck → List ℕ
encode_act_ack p = u8 p.id ∷ u8 p.status ∷ []

unfoldable pub decode_act_ack : List ℕ → Decoded ActAck
unfolding decode_u8
decode_act_ack bs = do
  (id, r0) ← decode_u8 bs
  (status, r1) ← decode_u8 r0
  some (record { id = id; status = status }, r1)

unfoldable pub encode_arm_req : ArmReq → List ℕ
encode_arm_req p = u8 p.level ∷ []

unfoldable pub decode_arm_req : List ℕ → Decoded ArmReq
unfolding decode_u8
decode_arm_req bs = do (level, r0) ← decode_u8 bs; some (record { level = level }, r0)

unfoldable pub encode_arm_ack : ArmAck → List ℕ
encode_arm_ack p = u8 p.status ∷ []

unfoldable pub decode_arm_ack : List ℕ → Decoded ArmAck
unfolding decode_u8
decode_arm_ack bs = do (status, r0) ← decode_u8 bs; some (record { status = status }, r0)

unfoldable pub encode_temp : Temp → List ℕ
unfolding encode_u32
encode_temp p = encode_u32 p.time ++ (encode_u32 p.temperature ++ (u8 p.id ∷ []))

unfoldable pub decode_temp : List ℕ → Decoded Temp
unfolding decode_u8 decode_u32
decode_temp bs = do
  (time, r0) ← decode_u32 bs
  (temperature, r1) ← decode_u32 r0
  (id, r2) ← decode_u8 r1
  some (record { time = time; temperature = temperature; id = id }, r2)

unfoldable pub encode_pressure : Pressure → List ℕ
unfolding encode_u32
encode_pressure p = encode_u32 p.time ++ (encode_u32 p.pressure ++ (u8 p.id ∷ []))

unfoldable pub decode_pressure : List ℕ → Decoded Pressure
unfolding decode_u8 decode_u32
decode_pressure bs = do
  (time, r0) ← decode_u32 bs
  (pressure, r1) ← decode_u32 r0
  (id, r2) ← decode_u8 r1
  some (record { time = time; pressure = pressure; id = id }, r2)

unfoldable pub encode_mass : Mass → List ℕ
unfolding encode_u32
encode_mass p = encode_u32 p.time ++ (encode_u32 p.mass ++ (u8 p.id ∷ []))

unfoldable pub decode_mass : List ℕ → Decoded Mass
unfolding decode_u8 decode_u32
decode_mass bs = do
  (time, r0) ← decode_u32 bs
  (mass, r1) ← decode_u32 r0
  (id, r2) ← decode_u8 r1
  some (record { time = time; mass = mass; id = id }, r2)

unfoldable pub encode_thrust : Thrust → List ℕ
unfolding encode_u32
encode_thrust p = encode_u32 p.time ++ (encode_u32 p.thrust ++ (u8 p.id ∷ []))

unfoldable pub decode_thrust : List ℕ → Decoded Thrust
unfolding decode_u8 decode_u32
decode_thrust bs = do
  (time, r0) ← decode_u32 bs
  (thrust, r1) ← decode_u32 r0
  (id, r2) ← decode_u8 r1
  some (record { time = time; thrust = thrust; id = id }, r2)

unfoldable pub encode_arm_state : ArmState → List ℕ
unfolding encode_u32
encode_arm_state p = encode_u32 p.time ++ (u8 p.state ∷ [])

unfoldable pub decode_arm_state : List ℕ → Decoded ArmState
unfolding decode_u8 decode_u32
decode_arm_state bs = do
  (time, r0) ← decode_u32 bs
  (state, r1) ← decode_u8 r0
  some (record { time = time; state = state }, r1)

unfoldable pub encode_act_state : ActState → List ℕ
unfolding encode_u32
encode_act_state p = encode_u32 p.time ++ (u8 p.id ∷ u8 p.state ∷ [])

unfoldable pub decode_act_state : List ℕ → Decoded ActState
unfolding decode_u8 decode_u32
decode_act_state bs = do
  (time, r0) ← decode_u32 bs
  (id, r1) ← decode_u8 r0
  (state, r2) ← decode_u8 r1
  some (record { time = time; id = id; state = state }, r2)

unfoldable pub encode_warn : Warn → List ℕ
unfolding encode_u32
encode_warn p = encode_u32 p.time ++ (u8 p.type ∷ [])

unfoldable pub decode_warn : List ℕ → Decoded Warn
unfolding decode_u8 decode_u32
decode_warn bs = do
  (time, r0) ← decode_u32 bs
  (type, r1) ← decode_u8 r0
  some (record { time = time; type = type }, r1)

unfoldable pub encode_continuity_state : ContinuityState → List ℕ
unfolding encode_u32
encode_continuity_state p = encode_u32 p.time ++ (u8 p.state ∷ [])

unfoldable pub decode_continuity_state : List ℕ → Decoded ContinuityState
unfolding decode_u8 decode_u32
decode_continuity_state bs = do
  (time, r0) ← decode_u32 bs
  (state, r1) ← decode_u8 r0
  some (record { time = time; state = state }, r1)

unfoldable pub encode_conn_status : ConnStatus → List ℕ
unfolding encode_u32
encode_conn_status p = encode_u32 p.time ++ (u8 p.status ∷ [])

unfoldable pub decode_conn_status : List ℕ → Decoded ConnStatus
unfolding decode_u8 decode_u32
decode_conn_status bs = do
  (time, r0) ← decode_u32 bs
  (status, r1) ← decode_u8 r0
  some (record { time = time; status = status }, r1)
