-- ===== src/Sensors/Conversion.antt =====
-- `map_value` and `adc_sensor_val_conversion` of pad_server/src/sensors.c.
use hysim.Base.{ℕ, ◌==◌, if◌then◌else◌}
use hysim.Packet.{telem_temp, telem_pressure, telem_thrust, telem_cont}
use hysim.Sensors.{Floats}

-- adc_channel_t
pub record AdcChannel : Type 0 where
  pub channel_num : ℕ
  pub sensor_id : ℕ
  pub type : ℕ

module _ {F : Type 0} (fl : Floats F) where
  open fl use {dec, from_int32, to_int32, add, sub, mul, div, lt, le, is_nought, log, pow}

  unfoldable pub map_value : F → F → F → F → F → F
  map_value value in_min in_max out_min out_max =
      let slope = div (sub out_max out_min) (sub in_max in_min) in
      if is_nought slope then dec 0 0 else add out_min (mul slope (sub value in_min))

  unfoldable pub sensor_voltage : ℕ → F
  sensor_voltage adc_val = div (mul (from_int32 adc_val) (dec 6144 3)) (dec 32768 0)

  unfoldable pub pressure_of : F → ℕ
  pressure_of v =
      if lt v (dec 1 0)
      then 0
      else to_int32 (mul (dec 1000 0) (map_value v (dec 1 0) (dec 5 0) (dec 0 0) (dec 1000 0)))

  unfoldable pub thrust_of : F → ℕ
  thrust_of v =
      if lt v (dec 0 0)
      then 0
      else to_int32 (map_value v (dec 0 0) (dec 5053 3) (dec 0 0) (dec 111205 1))

  unfoldable pub continuity_of : F → ℕ
  continuity_of v = if le v (dec 2 0) then 1 else 0

  -- The coefficients A, B and C of the thermistor.
  unfoldable pub coefficients : ℕ → F × (F × F)
  coefficients sensor_id =
      if sensor_id == 0
      then (mul (dec 1403 3) (dec 1 3), (mul (dec 2373 3) (dec 1 4), mul (dec 9827 3) (dec 1 8)))
      else (mul (dec 1468 3) (dec 1 3), (mul (dec 2383 3) (dec 1 4), mul (dec 1007 3) (dec 1 7)))

  unfoldable pub kelvin_of : ℕ → F → F
  kelvin_of sensor_id r =
      let (a, (b, c)) = coefficients sensor_id in
      div (dec 1 0) (add (add a (mul b (log r))) (mul c (pow (log r) (dec 3 0))))

  unfoldable pub temperature_of : ℕ → F → ℕ
  temperature_of sensor_id v =
      if lt (dec 0 0) v
      then (let r = div (dec 2948 0) (sub (div (dec 4945 3) v) (dec 1 0)) in
          if lt (dec 0 0) r
          then to_int32 (mul (sub (kelvin_of sensor_id r) (dec 27315 2)) (dec 100 0))
          else 0)
      else 0

  -- `output_val` after the call, given what it held; the result is always 0.
  unfoldable pub adc_sensor_val_conversion : AdcChannel → ℕ → ℕ → ℕ
  adc_sensor_val_conversion channel adc_val output_val =
      let v = sensor_voltage adc_val in
      if channel.type == telem_pressure
      then pressure_of v
      else (if channel.type == telem_thrust
          then thrust_of v
          else (if channel.type == telem_cont
              then continuity_of v
              else (if channel.type == telem_temp
                  then temperature_of channel.sensor_id v
                  else output_val)))
