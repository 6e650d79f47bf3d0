-- ===== src/Sensors.antt =====
-- pad_server/src/sensors.h and sensors.c: the sensors that are read over uORB, a load cell and
-- thermocouples, and the conversion of what the analog-digital converters read. Floating point and uORB are
-- arguments. A `long` is an integer without bounds, an `int32_t` its bit pattern.
pub mod Conversion
pub mod Calibration
use Prim.Native.String.{String}
use hysim.Base.{
  ℕ, zero, suc, Bool, true, false, Option, none, some, ℤ, pos, negsuc, Run, ◌>>=◌, ◌>>◌, return,
  is_negative, if◌then◌else◌,
}

-- What the code does with `float` and `double`: `dec m k` is the literal of m times ten to the minus k,
-- `to_int32` the bit pattern of the `int32_t` that a value is converted to.
pub record Floats (F : Type 0) : Type 0 where
  pub dec : ℕ → ℕ → F
  pub from_int32 : ℕ → F
  pub to_int32 : F → ℕ
  pub from_long : ℤ → F
  pub to_long : F → ℤ
  pub add : F → F → F
  pub sub : F → F → F
  pub mul : F → F → F
  pub div : F → F → F
  pub lt : F → F → Bool
  pub le : F → F → Bool
  pub is_nought : F → Bool
  pub log : F → F
  pub pow : F → F → F

-- struct sensor_force and struct sensor_temp, as far as they are used.
pub record ForceSample (F : Type 0) : Type 0 where
  pub timestamp : ℕ
  pub force : F

pub record TempSample (F : Type 0) : Type 0 where
  pub timestamp : ℕ
  pub temperature : F

-- uORB: the metadata of a topic are a number, none for NULL. A copy is given what the buffer holds and
-- gives what it holds then.
pub record Orb (F W : Type 0) : Type 0 where
  pub orb_get_meta : String → Run W (Option ℕ)
  pub orb_subscribe : Option ℕ → Run W ℤ
  pub orb_subscribe_multi : Option ℕ → ℕ → Run W ℤ
  pub set_thermo_type_k : ℤ → Run W ℤ
  pub orb_check : ℤ → Run W (ℤ × Bool)
  pub orb_copy_force : Option ℕ → ℤ → ForceSample F → Run W (ℤ × ForceSample F)
  pub orb_copy_temp : Option ℕ → ℤ → TempSample F → Run W (ℤ × TempSample F)
  pub usleep : ℕ → Run W (Unit {0})

-- sensor_mass_t
pub record SensorMass (F : Type 0) : Type 0 where
  pub orb_meta : Option ℕ
  pub fd : ℤ
  pub zero_point : ℤ
  pub known_mass_grams : ℤ
  pub known_mass_point : ℤ
  pub sample : ForceSample F
  pub available : Bool

-- sensor_temp_t
pub record SensorTemp (F : Type 0) : Type 0 where
  pub orb_meta : Option ℕ
  pub fd : ℤ
  pub topic : ℕ
  pub sensor_id : ℕ
  pub sample : TempSample F
  pub available : Bool

abbrev pub minus_one : ℤ
minus_one = negsuc 0

module _ {F W : Type 0} (orb : Orb F W) where
  open orb use {
    orb_get_meta, orb_subscribe, orb_subscribe_multi, set_thermo_type_k, orb_check, orb_copy_force,
    orb_copy_temp,
  }

  -- Each function gives its result and the sensor as it is left.
  unfoldable pub sensor_temp_init : SensorTemp F → Run W (ℤ × SensorTemp F)
  sensor_temp_init s = do
    found ← orb_get_meta "sensor_temp"
    let s1 = record s { orb_meta = found }
    elim found [
      | none ↦ return (minus_one, s1)
      | some m ↦ do
        fd ← orb_subscribe_multi (some m) s1.topic
        let s2 = record s1 { fd = fd }
        if is_negative fd then return (minus_one, s2) else do
          err ← set_thermo_type_k fd
          return (if is_negative err then minus_one else pos 0, s2)
    ]

  unfoldable pub sensor_temp_fetch : SensorTemp F → Run W (ℤ × SensorTemp F)
  sensor_temp_fetch s = do
    (err, update) ← orb_check s.fd
    if is_negative err
        then return (err, s)
        else if update
        then (do
          (copied, sample) ← orb_copy_temp s.orb_meta s.fd s.sample
          return (copied, record s { sample = sample }))
        else return (minus_one, s)

  unfoldable pub sensor_mass_fetch : SensorMass F → Run W (ℤ × SensorMass F)
  sensor_mass_fetch s = do
    (err, update) ← orb_check s.fd
    if is_negative err
        then return (err, s)
        else if update
        then (do
          (copied, sample) ← orb_copy_force s.orb_meta s.fd s.sample
          return (copied, record s { sample = sample }))
        else return (minus_one, s)

  unfoldable pub sensor_mass_init : SensorMass F → Run W (ℤ × SensorMass F)
  sensor_mass_init s = do
    found ← orb_get_meta "sensor_force0"
    let s1 = record s { orb_meta = found }
    elim found [
      | none ↦ return (minus_one, s1)
      | some m ↦ do
        fd ← orb_subscribe (some m)
        let s2 = record s1 { fd = fd }
        return (if is_negative fd then minus_one else pos 0, s2)
    ]

module _ {F W : Type 0} (fl : Floats F) (orb : Orb F W) where
  -- `zero_point += force / 10`, in a `long`.
  unfoldable pub add_tenth : SensorMass F → SensorMass F
  add_tenth s = record s {
    zero_point =
        fl.to_long (fl.add (fl.from_long s.zero_point) (fl.div s.sample.force (fl.dec 10 0)));
  }

  -- One round of the loops of `sensor_mass_calibrate`: whether a sample was fetched, and the sensor.
  unfoldable pub fetch_round : SensorMass F → Run W (Bool × SensorMass F)
  fetch_round s = do
    (err, s1) ← sensor_mass_fetch orb s
    orb.usleep 100000
    return (if is_negative err then false else true, s1)

  -- The first loop, with so many samples to go, on fuel for its rounds: a round that fetches nothing is
  -- not counted. `none` where the fuel runs out.
  unfoldable pub flush_readings : ℕ → ℕ → SensorMass F → Run W (Option (SensorMass F))
  flush_readings fuel zero s w = (some s, w)
  flush_readings zero (suc left) s w = (none, w)
  flush_readings (suc fuel) (suc left) s w =
      let ((fetched, s1), w1) = fetch_round s w in
      flush_readings fuel (if fetched then left else suc left) s1 w1

  -- The second loop.
  unfoldable pub sum_readings : ℕ → ℕ → SensorMass F → Run W (Option (SensorMass F))
  sum_readings fuel zero s w = (some s, w)
  sum_readings zero (suc left) s w = (none, w)
  sum_readings (suc fuel) (suc left) s w =
      let ((fetched, s1), w1) = fetch_round s w in
      sum_readings fuel (if fetched then left else suc left) (if fetched then add_tenth s1 else s1)
        w1

  -- Fuel for the rounds of each loop.
  unfoldable pub sensor_mass_calibrate : ℕ → ℕ → SensorMass F → Run W (Option (ℤ × SensorMass F))
  sensor_mass_calibrate fuel1 fuel2 s = do
    flushed ← flush_readings fuel1 10 s
    elim flushed [
      | none ↦ return none
      | some s1 ↦ do
        summed ← sum_readings fuel2 10 (record s1 { zero_point = pos 0 })
        return (elim summed [ none ↦ none | some s2 ↦ some (pos 0, s2) ])
    ]
