-- ===== src/SensorTelemetry/Continuity.antt =====
-- The continuity measurement of pad_server/src/sensors.c, whose log line calls the value 1 an open circuit,
-- as telem_client/src/telem_client_main.c prints it.
use hysim.Base.{
  ℕ, ◌<◌, ◌≡◌, refl, sym, ◌∙◌, ap, Bool, true, false, List, ◌∷◌, ◌++◌, none, some, arith,
  if◌then◌else◌, Option,
}
use hysim.Packet.{telem_cont}
use hysim.Packet.Message.{Body, cont, encode_message}
use hysim.Os.{Datagrams}
use hysim.Telemetry.{time_ms_of}
use hysim.TelemClient.{Stream, Vars, printed, continuity_sensor, round}
use hysim.TelemClient.Shows.{Inbox, round-shown, shown}
use hysim.Sensors.{Floats}
use hysim.Sensors.Conversion.{AdcChannel, adc_sensor_val_conversion, sensor_voltage, continuity_of}
use hysim.SensorTelemetry.{channel_body}

abbrev bit_of : Bool → ℕ
bit_of b = if b then 1 else 0

bit-shown :
    (b : Bool) (time : ℕ)
    → shown (cont (record { time = time; state = bit_of b })) ≡ some (continuity_sensor b time)
bit-shown true time = refl
bit-shown false time = refl

bit_bound : (b : Bool) → bit_of b < 256
bit_bound true = omega arith
bit_bound false = omega arith

time_bound : (sec nsec : ℕ) → time_ms_of sec nsec < 0x1_0000_0000
unfolding time_ms_of
time_bound sec nsec = omega arith

body_or : Option Body → Body
body_or none = cont (record { time = 0; state = 0 })
body_or (some b) = b

module _ {F W : Type 0} (fl : Floats F) (dgrams : Datagrams W) (stream : Stream)
    (box : Inbox dgrams stream.sock) where
  open box use {waiting}

  measured :
      (c : AdcChannel) (adc_val time : ℕ)
      → c.type ≡ telem_cont
      → channel_body c time (adc_sensor_val_conversion fl c adc_val 0)
        ≡ some (
            cont (record {
              time = time;
              state = bit_of (fl.le (sensor_voltage fl adc_val) (fl.dec 2 0));
            }))
  unfolding channel_body adc_sensor_val_conversion continuity_of
  measured c adc_val time e = ground (arith, e)

  -- A datagram waits that starts with the message for a continuity channel: the round prints "closed" where the
  -- voltage is at most 2 V, which is where the server's conversion gives 1, an open circuit, and "open"
  -- elsewhere.
  pub round-continuity :
      (c : AdcChannel) (adc_val sec nsec : ℕ) (b : Body) (rest : List ℕ) (ds : List (List ℕ))
      (v : Vars) (w : W)
      → c.type ≡ telem_cont
      → channel_body c (time_ms_of sec nsec) (adc_sensor_val_conversion fl c adc_val 0) ≡ some b
      → waiting w ≡ (encode_message b ++ rest) ∷ ds
      → let t = round dgrams stream v w in
        (t.0.0
          ≡ printed (
              continuity_sensor
                (fl.le (sensor_voltage fl adc_val) (fl.dec 2 0))
                (time_ms_of sec nsec)))
        × (waiting t.1 ≡ ds)
  unfolding body_or
  round-continuity c adc_val sec nsec b rest ds v w e made q =
      let bit : Bool = fl.le (sensor_voltage fl adc_val) (fl.dec 2 0) in
      let x : Body = cont (record { time = time_ms_of sec nsec; state = bit_of bit }) in
      let same : x ≡ b = ap body_or (sym (measured c adc_val (time_ms_of sec nsec) e) ∙ made) in
      round-shown dgrams stream box x (continuity_sensor bit (time_ms_of sec nsec)) rest ds v w
        (time_bound sec nsec, bit_bound bit) (bit-shown bit (time_ms_of sec nsec))
        (q ∙ ap (λ (y : Body). (encode_message y ++ rest) ∷ ds) (sym same))
