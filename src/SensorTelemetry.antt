-- ===== src/SensorTelemetry.antt =====
-- `sensor_telemetry` of pad_server/src/telemetry.c, in a NuttX build with all three kinds of sensor
-- configured: analog-digital converters (ADS1115), a load cell (NAU7802) and thermocouples (MCP9600). The
-- arrays `headers`, `bodies` and `pkt` are the list of the messages that were put in them so far, and
-- `sensor_count` is its length.
mod Table
pub use Table.*
pub mod Bounds
pub mod Fits
pub mod Continuity
use Prim.Native.String.{String}
use hysim.Base.{
  ℕ, zero, suc, ◌+◌, ◌/◌, Bool, true, false, Option, none, some, List, [], ◌∷◌, ◌++◌, ℤ, pos,
  negsuc, ◌-ℤ◌, Run, ◌>>=◌, ◌>>◌, return, ◌||◌, not, leb, ◌==◌, if◌then◌else◌, is_negative, is_zero,
  length, get_or,
}
use hysim.Packet.{u8, u32, telem_temp, telem_pressure, telem_thrust, telem_cont, type_telem}
use hysim.Packet.Wire.{encode_header}
use hysim.Packet.Message.{Body, temp, pressure, mass, thrust, cont, subtype_of, encode_body}
use hysim.Os.{Devices, Datagrams}
use hysim.Telemetry.{TelemetrySock, telemetry_publish, time_ms_of}
use hysim.Sensors.{
  Floats, Orb, SensorMass, SensorTemp, sensor_mass_init, sensor_mass_calibrate, sensor_mass_fetch,
  sensor_temp_init, sensor_temp_fetch,
}
use hysim.Sensors.Conversion.{AdcChannel, adc_sensor_val_conversion}

pub record SensorSet (F : Type 0) : Type 0 where
  pub sensor_mass : SensorMass F
  pub sensor_temps : List (SensorTemp F)
  pub adc_devices : List AdcDevice

-- The switch over the type of a channel: the message for a converted value, if there is one.
unfoldable pub channel_body : AdcChannel → ℕ → ℕ → Option Body
channel_body c time_ms val =
    if c.type == telem_pressure
    then some (pressure (record { time = time_ms; pressure = val; id = u8 c.sensor_id }))
    else (if c.type == telem_temp
        then some (temp (record { time = time_ms; temperature = val; id = u8 c.sensor_id }))
        else (if c.type == telem_thrust
            then some (thrust (record { time = time_ms; thrust = val; id = u8 c.sensor_id }))
            else (if c.type == telem_cont
                then some (cont (record { time = time_ms; state = u8 val }))
                else none)))

-- The parts of the messages: header and body of each.
unfoldable pub message_parts : List Body → List (List ℕ)
message_parts [] = []
message_parts (b ∷ bs) =
    encode_header (record { type = type_telem; subtype = subtype_of b })
    ∷ encode_body b
    ∷ message_parts bs

abbrev pub add_body : List Body → Option Body → List Body
add_body msgs none = msgs
add_body msgs (some b) = msgs ++ b ∷ []

-- A converter without a descriptor or without a channel of this index is skipped.
unfoldable pub skips : AdcDevice → ℕ → Bool
skips d j = is_negative d.fd || leb d.n_channels j

module _ {F : Type 0} (fl : Floats F) where
  -- The local variables as they are declared, with the two configured calibration constants.
  unfoldable pub declared_mass : ℤ → ℤ → SensorMass F
  declared_mass known_weight known_point = record {
    orb_meta = none;
    fd = pos 0;
    zero_point = pos 0;
    known_mass_grams = known_weight;
    known_mass_point = known_point;
    sample = record { timestamp = 0; force = fl.dec 0 0 };
    available = true;
  }

  unfoldable pub declared_temp : ℕ → ℕ → SensorTemp F
  declared_temp topic id = record {
    orb_meta = none;
    fd = pos 0;
    topic = topic;
    sensor_id = id;
    sample = record { timestamp = 0; temperature = fl.dec 0 0 };
    available = true;
  }

  -- The mass in grams.
  unfoldable pub mass_body : SensorMass F → Body
  mass_body s =
      let slope =
        fl.div (fl.from_long s.known_mass_grams)
          (fl.from_long (s.known_mass_point -ℤ s.zero_point)) in
      let output = fl.to_int32 (fl.mul (fl.sub s.sample.force (fl.from_long s.zero_point)) slope) in
      mass (record { time = u32 (s.sample.timestamp / 1000); mass = output; id = 0 })

  unfoldable pub temp_body : SensorTemp F → Body
  temp_body s = temp (record {
    time = u32 (s.sample.timestamp / 1000);
    temperature = fl.to_int32 (fl.mul s.sample.temperature (fl.dec 1000 0));
    id = u8 s.sensor_id;
  })

module _ {W : Type 0} (os : Devices W) where
  -- Opening the converters.
  unfoldable pub open_adcs : List AdcDevice → Run W (List AdcDevice)
  open_adcs [] = return []
  open_adcs (d ∷ ds) = do
    fd ← os.open_dev d.devpath
    rest ← open_adcs ds
    return (record d { fd = fd } ∷ rest)

module _ {F W : Type 0} (orb : Orb F W) where
  unfoldable pub init_temps : List (SensorTemp F) → Run W (List (SensorTemp F))
  init_temps [] = return []
  init_temps (s ∷ ss) = do
    (err, s1) ← sensor_temp_init orb s
    rest ← init_temps ss
    return ((if is_negative err then record s1 { available = false } else s1) ∷ rest)

module _ {F W : Type 0} (fl : Floats F) (orb : Orb F W) where
  -- The load cell is initialized and calibrated, on fuel for the loops of the calibration.
  unfoldable pub init_mass : ℕ → SensorMass F → Run W (Option (SensorMass F))
  init_mass fuel s = do
    (err, s1) ← sensor_mass_init orb s
    if is_negative err then return (some (record s1 { available = false })) else do
      calibrated ← sensor_mass_calibrate fl orb fuel fuel s1
      return (elim calibrated [
        | none ↦ none
        | some (err2, s2) ↦ some (if is_negative err2 then record s2 { available = false } else s2)
      ])

  unfoldable pub read_mass : SensorMass F → List Body → Run W (SensorMass F × List Body)
  read_mass s msgs =
      if s.available
      then (do
        (err, s1) ← sensor_mass_fetch orb s
        return (s1, if is_negative err then msgs else msgs ++ mass_body fl s1 ∷ []))
      else return (s, msgs)

  unfoldable pub read_temps :
      List (SensorTemp F) → List Body → Run W (List (SensorTemp F) × List Body)
  read_temps [] msgs = return ([], msgs)
  read_temps (s ∷ ss) msgs =
      if s.available
      then (do
        (err, s1) ← sensor_temp_fetch orb s
        (ss1, msgs1) ←
            read_temps ss (if is_negative err then msgs else msgs ++ temp_body fl s1 ∷ [])
        return (s1 ∷ ss1, msgs1))
      else (do (ss1, msgs1) ← read_temps ss msgs; return (s ∷ ss1, msgs1))

module _ {W : Type 0} (adc : Adc W) where
  -- The `j`th channel of every converter is triggered.
  unfoldable pub trigger_all : ℕ → List AdcDevice → Run W (Unit {0})
  trigger_all j [] = return tt
  trigger_all j (d ∷ ds) = do
    (if skips d j
        then return (pos 0)
        else adc.trigger_conversion d.fd (get_or d.channels j no_channel).channel_num)
    trigger_all j ds

module _ {F W : Type 0} (fl : Floats F) (adc : Adc W) (dgrams : Datagrams W) where
  -- One converter is read: the message, if all went well.
  unfoldable pub read_adc : ℕ → AdcDevice → Run W (Option Body)
  read_adc j d = if skips d j then return none else do
    let c = get_or d.channels j no_channel
    (err, am_data) ← adc.read_channel_no_conversion d.fd c.channel_num
    if is_zero err
        then (do
          (sec, nsec) ← dgrams.clock_gettime
          let val = adc_sensor_val_conversion fl c am_data 0
          return (channel_body c (time_ms_of sec nsec) val))
        else return none

  unfoldable pub read_all : ℕ → List AdcDevice → List Body → Run W (List Body)
  read_all j [] msgs = return msgs
  read_all j (d ∷ ds) msgs = do b ← read_adc j d; read_all j ds (add_body msgs b)

  -- The channels from `j` on, so many of them.
  unfoldable pub read_channels : ℕ → ℕ → List AdcDevice → List Body → Run W (List Body)
  read_channels zero j ds msgs = return msgs
  read_channels (suc n) j ds msgs = do
    trigger_all adc j ds
    msgs1 ← read_all j ds msgs
    read_channels n (j + 1) ds msgs1

module _ {W : Type 0} (dgrams : Datagrams W) where
  -- What was collected is sent as one datagram, if it is anything.
  unfoldable pub send_collected : TelemetrySock → List Body → Run W ℕ
  send_collected telem [] = return 0
  send_collected telem (b ∷ bs) = telemetry_publish dgrams telem (message_parts (b ∷ bs))

module _ {F W : Type 0} (fl : Floats F) (orb : Orb F W) (os : Devices W) where
  -- What stands before the loop; `none` where the calibration is not over.
  unfoldable pub sensor_setup : ℕ → ℤ → ℤ → Run W (Option (SensorSet F))
  sensor_setup fuel known_weight known_point = do
    ready ← init_mass fl orb fuel (declared_mass fl known_weight known_point)
    elim ready [
      | none ↦ return none
      | some m1 ↦ do
        ts1 ← init_temps orb (declared_temp fl 2 2 ∷ declared_temp fl 5 3 ∷ [])
        ds ← open_adcs os adc_devices_table
        return (some (record { sensor_mass = m1; sensor_temps = ts1; adc_devices = ds }))
    ]

module _ {F W : Type 0} (fl : Floats F) (orb : Orb F W) (adc : Adc W) (dgrams : Datagrams W) where
  -- The messages of one round, and the sensors after it.
  unfoldable pub collect : SensorSet F → Run W (SensorSet F × List Body)
  collect set = do
    msgs1 ← read_channels fl adc dgrams 4 0 set.adc_devices []
    (m, msgs2) ← read_mass fl orb set.sensor_mass msgs1
    (ts, msgs3) ← read_temps fl orb set.sensor_temps msgs2
    return (record set { sensor_mass = m; sensor_temps = ts }, msgs3)

  -- One round of the loop.
  unfoldable pub sensor_round : TelemetrySock → SensorSet F → Run W (SensorSet F)
  sensor_round telem set = do
    (set1, msgs) ← collect set
    send_collected dgrams telem msgs
    return set1

  -- The loop, for so many rounds.
  unfoldable pub sensor_rounds : ℕ → TelemetrySock → SensorSet F → Run W (SensorSet F)
  sensor_rounds zero telem set = return set
  sensor_rounds (suc n) telem set = do set1 ← sensor_round telem set; sensor_rounds n telem set1
