-- ===== src/Packet.antt =====
-- packets/packet.h and packets/packet.c: the message types, their numeric codes and the functions
-- that fill them in. An enumerator is a number, since the code casts bytes to enums and back. A
-- `uint8_t` or `uint32_t` field is a number below 2 ^ 8 or 2 ^ 32; an `int32_t` field is its bit
-- pattern, below 2 ^ 32. A function that fills in a structure returns it.
mod Codes
pub use Codes.*
pub mod Wire
pub mod RoundTrip
pub mod Message
use Prim.Native.String.{String}
use hysim.Base.{ℕ, ◌%◌, Bool, Option, none, some, ◌==◌, if◌then◌else◌}

abbrev pub u8 : ℕ → ℕ
u8 n = n % 256

abbrev pub u32 : ℕ → ℕ
u32 n = n % 0x1_0000_0000

pub record Header : Type 0 where
  pub type : ℕ
  pub subtype : ℕ

pub record ActReq : Type 0 where
  pub id : ℕ
  pub state : ℕ

pub record ActAck : Type 0 where
  pub id : ℕ
  pub status : ℕ

pub record ArmReq : Type 0 where
  pub level : ℕ

pub record ArmAck : Type 0 where
  pub status : ℕ

pub record Temp : Type 0 where
  pub time : ℕ
  pub temperature : ℕ
  pub id : ℕ

pub record Pressure : Type 0 where
  pub time : ℕ
  pub pressure : ℕ
  pub id : ℕ

pub record Mass : Type 0 where
  pub time : ℕ
  pub mass : ℕ
  pub id : ℕ

pub record Thrust : Type 0 where
  pub time : ℕ
  pub thrust : ℕ
  pub id : ℕ

pub record ArmState : Type 0 where
  pub time : ℕ
  pub state : ℕ

pub record ActState : Type 0 where
  pub time : ℕ
  pub id : ℕ
  pub state : ℕ

pub record Warn : Type 0 where
  pub time : ℕ
  pub type : ℕ

pub record ContinuityState : Type 0 where
  pub time : ℕ
  pub state : ℕ

pub record ConnStatus : Type 0 where
  pub time : ℕ
  pub status : ℕ

unfoldable pub packet_header_init : ℕ → ℕ → Header
packet_header_init type subtype = record { type = u8 type; subtype = subtype }

unfoldable pub packet_act_req_init : ℕ → Bool → ActReq
packet_act_req_init id state = record { id = id; state = if state then 1 else 0 }

unfoldable pub packet_act_ack_init : ℕ → ℕ → ActAck
packet_act_ack_init id status = record { id = id; status = u8 status }

unfoldable pub packet_arm_req_init : ℕ → ArmReq
packet_arm_req_init level = record { level = u8 level }

unfoldable pub packet_arm_ack_init : ℕ → ArmAck
packet_arm_ack_init status = record { status = u8 status }

unfoldable pub packet_temp_init : ℕ → ℕ → ℕ → Temp
packet_temp_init id time temperature = record { time = time; temperature = temperature; id = id }

unfoldable pub packet_pressure_init : ℕ → ℕ → ℕ → Pressure
packet_pressure_init id time pressure = record { time = time; pressure = pressure; id = id }

unfoldable pub packet_mass_init : ℕ → ℕ → ℕ → Mass
packet_mass_init id time mass = record { time = time; mass = mass; id = id }

unfoldable pub packet_thrust_init : ℕ → ℕ → ℕ → Thrust
packet_thrust_init id time thrust = record { time = time; thrust = thrust; id = id }

unfoldable pub packet_arm_state_init : ℕ → ℕ → ArmState
packet_arm_state_init time state = record { time = time; state = u8 state }

unfoldable pub packet_act_state_init : ℕ → ℕ → Bool → ActState
packet_act_state_init id time state = record {
  time = time;
  id = id;
  state = if state then 1 else 0;
}

unfoldable pub packet_warn_init : ℕ → ℕ → Warn
packet_warn_init time type = record { time = time; type = u8 type }

unfoldable pub packet_continuity_state_init : ℕ → ℕ → ContinuityState
packet_continuity_state_init time state = record { time = time; state = u8 state }

unfoldable pub packet_conn_init : ℕ → ℕ → ConnStatus
packet_conn_init time status = record { time = time; status = u8 status }

-- The tables `ARMING_STR` and `WARNING_STR`; `none` is a read past the end of the table.
unfoldable pub arm_state_str : ℕ → Option String
arm_state_str state =
    if state == armed_pad
    then some "Pad armed"
    else (if state == armed_valves
        then some "Valves armed"
        else (if state == armed_ignition
            then some "Armed for ignition"
            else (if state == armed_disconnected
                then some "Quick disconnect disconnected"
                else (if state == armed_launch then some "Armed for launch" else none))))

unfoldable pub warning_str : ℕ → Option String
warning_str warning =
    if warning == warn_high_temp
    then some "High temperature"
    else (if warning == warn_high_pressure then some "High pressure" else none)
