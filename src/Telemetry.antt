-- ===== src/Telemetry.antt =====
-- pad_server/src/telemetry.h and telemetry.c: the datagrams that carry the pad state, and the thread that
-- sends them. A message of several parts is the list of its parts, in the order of the `iovec` array.
pub mod Snapshot
pub mod Updates
use hysim.Base.{
  ℕ, zero, suc, ◌+◌, ◌*◌, ◌/◌, Bool, true, false, not, ◌&&◌, ◌||◌, List, [], ◌∷◌, ◌++◌, ℤ, pos, Run,
  ◌>>=◌, ◌>>◌, return, is_negative, if◌then◌else◌, ◌==◌,
}
use hysim.Packet.{
  u32, type_telem, telem_arm, telem_conn, telem_act, packet_header_init, packet_arm_state_init,
  packet_conn_init, packet_act_state_init,
}
use hysim.Packet.Wire.{encode_header, encode_arm_state, encode_conn_status, encode_act_state}
use hysim.Os.{Locks, Datagrams}
use hysim.PadState.{
  PadState, call, get, put, num_actuators, padstate_get_level, padstate_get_connstatus,
  padstate_get_actstate,
}

-- telemetry_sock_t
pub record TelemetrySock : Type 0 where
  pub sock : ℤ
  pub addr : ℕ
  pub sin_port : ℕ

-- The bytes of a message: its parts one after the other.
unfoldable pub concat_parts : List (List ℕ) → List ℕ
concat_parts [] = []
concat_parts (part ∷ parts) = part ++ concat_parts parts

-- time.tv_sec * 1000 + time.tv_nsec / 1000000, as a uint32_t.
unfoldable pub time_ms_of : ℕ → ℕ → ℕ
time_ms_of sec nsec = u32 (sec * 1000 + nsec / 1000000)

module _ {W : Type 0} (dgrams : Datagrams W) where
  unfoldable pub telemetry_publish : TelemetrySock → List (List ℕ) → Run W ℕ
  telemetry_publish sock msg = do
    sent ← dgrams.sendmsg sock.sock (concat_parts msg)
    if is_negative sent then (λ w. (dgrams.dgram_errno w, w)) else return 0

  unfoldable pub telemetry_close : TelemetrySock → Run W ℕ
  telemetry_close sock = do
    closed ← dgrams.close_dgram sock.sock
    if is_negative closed then (λ w. (dgrams.dgram_errno w, w)) else return 0

-- The parts for the actuators `i`, `i + 1`, ..., so many of them. `act_state` keeps its last value where
-- `padstate_get_actstate` fails.
unfoldable pub actuator_parts : {W : Type 0} → PadState W → ℕ → ℕ → ℕ → Bool → List (List ℕ)
actuator_parts s time_ms zero i act_state = []
actuator_parts s time_ms (suc n) i act_state =
    let (err, act_state') = padstate_get_actstate s i act_state in
    encode_header (packet_header_init type_telem telem_act)
    ∷ encode_act_state (packet_act_state_init i time_ms act_state')
    ∷ actuator_parts s time_ms n (i + 1) act_state'

module _ {W : Type 0} (locks : Locks W) (dgrams : Datagrams W) where
  unfoldable pub telemetry_send_padstate : TelemetrySock → Run (PadState W × W) (Unit {0})
  telemetry_send_padstate sock = do
    (sec, nsec) ← call dgrams.clock_gettime
    let time_ms = time_ms_of sec nsec
    level ← padstate_get_level locks
    status ← padstate_get_connstatus locks
    acts ← get (λ s. actuator_parts s time_ms num_actuators 0 false)
    call (
        telemetry_publish dgrams sock (
          encode_header (packet_header_init type_telem telem_arm)
          ∷ encode_arm_state (packet_arm_state_init time_ms level)
          ∷ encode_header (packet_header_init type_telem telem_conn)
          ∷ encode_conn_status (packet_conn_init time_ms status)
          ∷ acts))
    return tt
