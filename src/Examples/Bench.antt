-- ===== src/Examples/Bench.antt =====
-- Sensors on a bench: whole numbers for floating point, and a load cell whose readings are the input of a cable.
use Prim.Native.Nat.{◌+◌, ◌-◌, ◌*◌, ◌/◌, ◌%◌}
use hysim.Base.{
  ℕ, ◌≡◌, ◌≤◌, refl, not, List, [], ◌∷◌, ◌++◌, pos, Option, some, none, arith, replicate, length,
  pos_part, ltb, leb, ◌==◌, drop, return,
}
use hysim.Packet.{telem_cont, telem_thrust}
use hysim.Packet.Message.{cont, encode_message}
use hysim.Telemetry.{TelemetrySock, time_ms_of}
use hysim.TelemClient.{printed, continuity_sensor, round}
use hysim.Sensors.{
  Floats, Orb, sensor_mass_calibrate, sensor_mass_fetch, sensor_mass_init, sensor_temp_init,
  fetch_round, flush_readings, sum_readings, add_tenth,
}
use hysim.Sensors.Conversion.{adc_sensor_val_conversion, continuity_of, sensor_voltage}
use hysim.Sensors.Calibration.{result_of, sensor_mass_calibrate-tenths}
use hysim.SensorTelemetry.{
  Adc, SensorSet, channel, channel_body, declared_mass, declared_temp, sensor_setup, sensor_round,
  sensor_rounds, collect, init_mass, init_temps, open_adcs,
}
use hysim.SensorTelemetry.Bounds.{rounds-length}
use hysim.SensorTelemetry.Fits.{AllInRange, datagram_of, sensor_round-sends}
use hysim.SensorTelemetry.Continuity.{round-continuity}
use hysim.Examples.Systems.{Cable, working, datagrams, quiet}
use hysim.Examples.Screens.{listener, inbox, fresh}

abbrev pub whole : Floats ℕ
whole = record {
  dec = λ m k. m;
  from_int32 = λ n. n;
  to_int32 = λ n. n % 0x1_0000_0000;
  from_long = pos_part;
  to_long = pos;
  add = λ a b. a + b;
  sub = λ a b. a - b;
  mul = λ a b. a * b;
  div = λ a b. a / b;
  lt = ltb;
  le = leb;
  is_nought = λ a. a == 0;
  log = λ a. a;
  pow = λ a b. a;
}

abbrev first_or : ℕ → List ℕ → ℕ
first_or d [] = d
first_or d (x ∷ xs) = x

abbrev cell : Orb ℕ Cable
cell = record {
  orb_get_meta = λ name. return (some 1);
  orb_subscribe = λ m. return (pos 7);
  orb_subscribe_multi = λ m i. return (pos 8);
  set_thermo_type_k = λ fd. return (pos 0);
  orb_check = λ fd w. ((pos 0, not (length w.input == 0)), w);
  orb_copy_force = λ m fd s w. (
    (pos 0, record { timestamp = 5000; force = first_or 0 w.input }),
    record w { input = drop 1 w.input },
  );
  orb_copy_temp = λ m fd s. return (pos 0, s);
  usleep = λ n. return tt;
}

abbrev converter : Adc Cable
converter = record {
  trigger_conversion = λ fd num. return (pos 0);
  read_channel_no_conversion = λ fd num. return (pos 0, 20000);
}

abbrev telem : TelemetrySock
telem = record { sock = pos 4; addr = 0; sin_port = 50002 }

abbrev loaded : Cable
loaded = record quiet { input = replicate 10 7 ++ replicate 12 50 }

-- Ten readings are dropped; ten of 50 make 50.
sensor_mass_calibrate-tenths_example :
    result_of whole cell
      (sensor_mass_calibrate whole cell 25 30 (declared_mass whole (pos 100) (pos 200)) loaded).0
    ≡ some (pos 0, pos 50)
unfolding declared_mass fetch_round sensor_mass_fetch
sensor_mass_calibrate-tenths_example =
    sensor_mass_calibrate-tenths whole cell 25 30 (declared_mass whole (pos 100) (pos 200)) loaded
      (omega arith) (omega arith)

abbrev ready_set : SensorSet ℕ
ready_set = record {
  sensor_mass = record (declared_mass whole (pos 100) (pos 200)) { orb_meta = some 1; fd = pos 7 };
  sensor_temps = [];
  adc_devices =
      record {
        id = 2;
        fd = pos 3;
        devpath = "/dev/adc2";
        n_channels = 2;
        channels = channel 4 0 telem_thrust ∷ channel 7 1 telem_cont ∷ [];
      }
      ∷ [];
}

sensor_round-sends_example :
    let ((set1, msgs), w1) = collect whole cell converter datagrams ready_set loaded in
    let t = sensor_round whole cell converter datagrams telem ready_set loaded in
    (t.0 ≡ set1) × (t.1.output ≡ w1.output ++ datagram_of msgs) × AllInRange msgs
sensor_round-sends_example =
    sensor_round-sends whole cell converter datagrams telem (λ w. w.output) ready_set loaded
      (λ x. omega arith) (λ bs v. refl)

abbrev set_or : Option (SensorSet ℕ) → SensorSet ℕ
set_or none = ready_set
set_or (some set) = set

abbrev set_up : SensorSet ℕ
set_up = set_or (sensor_setup whole cell working 30 (pos 100) (pos 200) loaded).0

set_up-found : (sensor_setup whole cell working 30 (pos 100) (pos 200) loaded).0 ≡ some set_up
unfolding sensor_setup init_mass init_temps open_adcs sensor_mass_init sensor_temp_init
    sensor_mass_calibrate flush_readings sum_readings fetch_round sensor_mass_fetch add_tenth
    declared_mass declared_temp
set_up-found = refl

rounds-length_example :
    let (set1, w2) = sensor_rounds whole cell converter datagrams 3 telem set_up loaded in
    length (collect whole cell converter datagrams set1 w2).0.1 ≤ 15
rounds-length_example =
    rounds-length whole cell converter datagrams working 30 (pos 100) (pos 200) 3 telem set_up
      loaded loaded set_up-found

-- A low voltage is an open circuit to the server.
round-continuity_example :
    let made = cont (record { time = time_ms_of 12 0; state = 1 }) in
    let t =
      round datagrams listener fresh (record quiet { inbox = (encode_message made ++ []) ∷ [] }) in
    (t.0.0 ≡ printed (continuity_sensor (whole.le (sensor_voltage whole 5) 2) (time_ms_of 12 0)))
    × (t.1.inbox ≡ [])
unfolding channel_body adc_sensor_val_conversion continuity_of sensor_voltage
round-continuity_example =
    round-continuity whole datagrams listener inbox (channel 7 1 telem_cont) 5 12 0
      (cont (record { time = time_ms_of 12 0; state = 1 })) [] [] fresh _ refl refl refl
