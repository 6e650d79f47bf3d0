-- ===== src/SensorTelemetry/Bounds.antt =====
-- How much a round of `sensor_telemetry` (pad_server/src/telemetry.c) collects, against the room for 32
-- messages in its arrays, and that what it collects fits the fields of the messages.
use Prim.Native.Nat.{ℕ}
use hysim.Base.{
  zero, suc, ◌+◌, ◌*◌, ◌≤◌, ◌≡◌, refl, sym, ap, ◌∙◌, Option, none, some, List, [], ◌∷◌, ◌++◌, ℤ,
  arith, length, length-append,
}
use hysim.Packet.Message.{Body}
use hysim.Os.{Devices, Datagrams}
use hysim.Telemetry.{TelemetrySock}
use hysim.Sensors.{
  Floats, Orb, SensorMass, SensorTemp, sensor_temp_init, sensor_mass_fetch, sensor_temp_fetch,
}
use hysim.SensorTelemetry.{
  AdcDevice, Adc, SensorSet, add_body, read_adc, read_all, read_channels, trigger_all, read_mass,
  read_temps, collect, mass_body, temp_body, init_temps, open_adcs, sensor_setup, sensor_round,
  sensor_rounds, adc_devices_table, init_mass, declared_mass, declared_temp,
}

length-add_body : (msgs : List Body) (b : Option Body) → length (add_body msgs b) ≤ length msgs + 1
length-add_body msgs none = omega arith
length-add_body msgs (some b) = omega (arith, length-append msgs (b ∷ []))

module _ {F W : Type 0} (fl : Floats F) (adc : Adc W) (dgrams : Datagrams W) where
  length-read_all :
      (j : ℕ) (ds : List AdcDevice) (msgs : List Body) (w : W)
      → length (read_all fl adc dgrams j ds msgs w).0 ≤ length msgs + length ds
  unfolding read_all
  length-read_all j [] msgs w = omega arith
  length-read_all j (d ∷ ds) msgs w =
      let r : Option Body × W = read_adc fl adc dgrams j d w in
      omega (arith, length-add_body msgs r.0, length-read_all j ds (add_body msgs r.0) r.1)

  length-read_channels :
      (n j : ℕ) (ds : List AdcDevice) (msgs : List Body) (w : W)
      → length (read_channels fl adc dgrams n j ds msgs w).0 ≤ length msgs + n * length ds
  unfolding read_channels
  length-read_channels zero j ds msgs w = omega arith
  length-read_channels (suc n) j ds msgs w =
      let w1 : W = (trigger_all adc j ds w).1 in
      let r : List Body × W = read_all fl adc dgrams j ds msgs w1 in
      grind (arith, length-read_all j ds msgs w1, length-read_channels n (j + 1) ds r.0 r.1)

module _ {F W : Type 0} (fl : Floats F) (orb : Orb F W) where
  length-read_mass :
      (s : SensorMass F) (msgs : List Body) (w : W)
      → length (read_mass fl orb s msgs w).0.1 ≤ length msgs + 1
  unfolding read_mass
  length-read_mass s msgs w =
      ground (arith, length-append msgs (mass_body fl (sensor_mass_fetch orb s w).0.1 ∷ []))

  length-read_temps :
      (ss : List (SensorTemp F)) (msgs : List Body) (w : W)
      → let r = read_temps fl orb ss msgs w in
        (length r.0.1 ≤ length msgs + length ss) × (length r.0.0 ≡ length ss)
  unfolding read_temps
  length-read_temps [] msgs w = (omega arith, refl)
  length-read_temps (s ∷ ss) msgs w =
      let s1 : SensorTemp F = (sensor_temp_fetch orb s w).0.1 in
      let w1 : W = (sensor_temp_fetch orb s w).1 in
      let more : List Body = msgs ++ temp_body fl s1 ∷ [] in
      ground (
        arith,
        length-append msgs (temp_body fl s1 ∷ []),
        length-read_temps ss msgs w,
        length-read_temps ss msgs w1,
        length-read_temps ss more w1,
      )

module _ {W : Type 0} (os : Devices W) where
  length-open_adcs : (ds : List AdcDevice) (w : W) → length (open_adcs os ds w).0 ≡ length ds
  unfolding open_adcs
  length-open_adcs [] w = refl
  length-open_adcs (d ∷ ds) w = ap suc (length-open_adcs ds (os.open_dev d.devpath w).1)

module _ {F W : Type 0} (orb : Orb F W) where
  length-init_temps :
      (ss : List (SensorTemp F)) (w : W) → length (init_temps orb ss w).0 ≡ length ss
  unfolding init_temps
  length-init_temps [] w = refl
  length-init_temps (s ∷ ss) w = ap suc (length-init_temps ss (sensor_temp_init orb s w).1)

-- Three converters and two thermocouples.
pub record IsEquipped {F : Type 0} (set : SensorSet F) : Type 0 where
  pub adcs : length set.adc_devices ≡ 3
  pub temps : length set.sensor_temps ≡ 2

module _ {F W : Type 0} (fl : Floats F) (orb : Orb F W) (os : Devices W) where
  abbrev counts : Option (SensorSet F) → ℕ × ℕ
  counts none = (3, 2)
  counts (some set) = (length set.adc_devices, length set.sensor_temps)

  counts-setup :
      (fuel : ℕ) (weight point : ℤ) (w : W)
      → counts (sensor_setup fl orb os fuel weight point w).0 ≡ (3, 2)
  unfolding sensor_setup
  counts-setup fuel weight point w =
      let m = init_mass fl orb fuel (declared_mass fl weight point) w in
      let ts : List (SensorTemp F) = declared_temp fl 2 2 ∷ declared_temp fl 5 3 ∷ [] in
      ground (
        arith,
        length-init_temps orb ts m.1,
        length-open_adcs os adc_devices_table (init_temps orb ts m.1).1,
      )

  setup-IsEquipped :
      (fuel : ℕ) (weight point : ℤ) (set : SensorSet F) (w : W)
      → (sensor_setup fl orb os fuel weight point w).0 ≡ some set
      → IsEquipped set
  setup-IsEquipped fuel weight point set w e =
      let known : (3, 2) ≡ counts (some set) =
        sym (counts-setup fuel weight point w) ∙ ap counts e in
      record {
        adcs = ap (λ (c : ℕ × ℕ). c.0) (sym known);
        temps = ap (λ (c : ℕ × ℕ). c.1) (sym known);
      }

module _ {F W : Type 0} (fl : Floats F) (orb : Orb F W) (adc : Adc W) (dgrams : Datagrams W) where
  length-collect :
      (set : SensorSet F) (w : W)
      → IsEquipped set
      → (length (collect fl orb adc dgrams set w).0.1 ≤ 15)
        × IsEquipped (collect fl orb adc dgrams set w).0.0
  unfolding collect
  length-collect set w eq =
      let r1 : List Body × W = read_channels fl adc dgrams 4 0 set.adc_devices [] w in
      let r2 = read_mass fl orb set.sensor_mass r1.0 r1.1 in
      let from_adcs = length-read_channels fl adc dgrams 4 0 set.adc_devices [] w in
      let from_mass = length-read_mass fl orb set.sensor_mass r1.0 r1.1 in
      let from_temps = length-read_temps fl orb set.sensor_temps r2.0.1 r2.1 in
      let adcs = eq.adcs in
      let temps = eq.temps in
      (ground arith, record { adcs = eq.adcs; temps = from_temps.1 ∙ eq.temps })

  rounds-IsEquipped :
      (n : ℕ) (telem : TelemetrySock) (set : SensorSet F) (w : W)
      → IsEquipped set
      → IsEquipped (sensor_rounds fl orb adc dgrams n telem set w).0
  unfolding sensor_rounds sensor_round
  rounds-IsEquipped zero telem set w eq = eq
  rounds-IsEquipped (suc n) telem set w eq =
      rounds-IsEquipped n telem (collect fl orb adc dgrams set w).0.0 _ (length-collect set w eq).1

  -- After the set-up and any number of rounds, whatever the sensors answer, a round collects at most 15
  -- messages: the arrays have room for 32.
  pub rounds-length :
      (os : Devices W) (fuel : ℕ) (weight point : ℤ) (n : ℕ) (telem : TelemetrySock)
      (set : SensorSet F) (w w1 : W)
      → (sensor_setup fl orb os fuel weight point w).0 ≡ some set
      → let (set1, w2) = sensor_rounds fl orb adc dgrams n telem set w1 in
        length (collect fl orb adc dgrams set1 w2).0.1 ≤ 15
  rounds-length os fuel weight point n telem set w w1 e =
      (length-collect _ _
        (rounds-IsEquipped n telem set w1 (setup-IsEquipped fl orb os fuel weight point set w e))).0
