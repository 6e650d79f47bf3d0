-- ===== src/SensorTelemetry/Fits.antt =====
-- What a round of `sensor_telemetry` (pad_server/src/telemetry.c) sends of the messages it collects, and their
-- fields.
use mathlib.Core.List.{append-nil}
use hysim.Base.{
  sym, Bool-cases, inl, inr, get_or, ℕ, zero, suc, ◌+◌, ◌<◌, ◌≡◌, refl, Bool, true, false, Option,
  none, some, List, [], ◌∷◌, ◌++◌, arith, if◌then◌else◌, is_negative, is_zero,
}
use hysim.Packet.Message.{Body, IsInRange, encode_body, encode_message, encode_messages}
use hysim.Os.{Datagrams}
use hysim.Telemetry.{TelemetrySock, time_ms_of, telemetry_publish, concat_parts}
use hysim.Sensors.{Floats, Orb, SensorMass, SensorTemp, sensor_mass_fetch, sensor_temp_fetch}
use hysim.Sensors.Conversion.{
  AdcChannel, adc_sensor_val_conversion, pressure_of, thrust_of, continuity_of, temperature_of,
}
use hysim.SensorTelemetry.{
  AdcDevice, Adc, SensorSet, channel_body, message_parts, add_body, read_adc, read_all,
  read_channels, trigger_all, read_mass, read_temps, collect, mass_body, temp_body, sensor_round,
  send_collected, no_channel, skips,
}

abbrev pub AllInRange : List Body → Type 0
AllInRange [] = Unit {0}
AllInRange (b ∷ bs) = IsInRange b × AllInRange bs

abbrev MaybeInRange : Option Body → Type 0
MaybeInRange none = Unit {0}
MaybeInRange (some b) = IsInRange b

AllInRange-append :
    (msgs : List Body) (b : Body) → AllInRange msgs → IsInRange b → AllInRange (msgs ++ b ∷ [])
AllInRange-append [] b all fits = (fits, tt)
AllInRange-append (m ∷ ms) b all fits = (all.0, AllInRange-append ms b all.1 fits)

AllInRange-add_body :
    (msgs : List Body) (b : Option Body)
    → AllInRange msgs
    → MaybeInRange b
    → AllInRange (add_body msgs b)
AllInRange-add_body msgs none all fits = all
AllInRange-add_body msgs (some b) all fits = AllInRange-append msgs b all fits

-- A property of both branches.
if_holds : {A : Type 0} (P : A → Type 0) (b : Bool) (x y : A) → P x → P y → P (if b then x else y)
if_holds P true x y p q = p
if_holds P false x y p q = q

-- What an `int32_t` holds has 32 bits.
abbrev pub IsInt32 : {F : Type 0} → Floats F → Type 0
IsInt32 {F} fl = (x : F) → fl.to_int32 x < 0x1_0000_0000

module _ {F : Type 0} (fl : Floats F) (bits : IsInt32 fl) where
  conversion_bound :
      (c : AdcChannel) (val : ℕ) → adc_sensor_val_conversion fl c val 0 < 0x1_0000_0000
  unfolding adc_sensor_val_conversion pressure_of thrust_of continuity_of temperature_of
  conversion_bound c val = grind (arith, bits)

  channel_body-InRange :
      (c : AdcChannel) (sec nsec val : ℕ)
      → val < 0x1_0000_0000
      → MaybeInRange (channel_body c (time_ms_of sec nsec) val)
  unfolding channel_body time_ms_of
  channel_body-InRange c sec nsec val h = ground arith

  mass_body-IsInRange : (s : SensorMass F) → IsInRange (mass_body fl s)
  unfolding mass_body
  mass_body-IsInRange s = (omega arith, bits _, omega arith)

  temp_body-IsInRange : (s : SensorTemp F) → IsInRange (temp_body fl s)
  unfolding temp_body
  temp_body-IsInRange s = (omega arith, bits _, omega arith)

module _ {F W : Type 0} (fl : Floats F) (bits : IsInt32 fl) (adc : Adc W)
    (dgrams : Datagrams W) where
  read_adc-InRange : (j : ℕ) (d : AdcDevice) (w : W) → MaybeInRange (read_adc fl adc dgrams j d w).0
  unfolding read_adc
  read_adc-InRange j d w =
      let c : AdcChannel = get_or d.channels j no_channel in
      let r = adc.read_channel_no_conversion d.fd c.channel_num w in
      let (sec, nsec) = (dgrams.clock_gettime r.1).0 in
      elim (Bool-cases (skips d j)) [
        | inl e ↦ rw (e, read_adc) tt
        | inr e ↦ elim (Bool-cases (is_zero r.0.0)) [
          | inl f ↦
              rw (e, read_adc)
                (rw (f, read_adc)
                  (channel_body-InRange fl bits c sec nsec _ (conversion_bound fl bits c r.0.1)))
          | inr f ↦ rw (e, read_adc) (rw (f, read_adc) tt)
        ]
      ]

  read_all-AllInRange :
      (j : ℕ) (ds : List AdcDevice) (msgs : List Body) (w : W)
      → AllInRange msgs
      → AllInRange (read_all fl adc dgrams j ds msgs w).0
  unfolding read_all
  read_all-AllInRange j [] msgs w all = all
  read_all-AllInRange j (d ∷ ds) msgs w all =
      let r : Option Body × W = read_adc fl adc dgrams j d w in
      read_all-AllInRange j ds (add_body msgs r.0) r.1
        (AllInRange-add_body msgs r.0 all (read_adc-InRange j d w))

  read_channels-AllInRange :
      (n j : ℕ) (ds : List AdcDevice) (msgs : List Body) (w : W)
      → AllInRange msgs
      → AllInRange (read_channels fl adc dgrams n j ds msgs w).0
  unfolding read_channels
  read_channels-AllInRange zero j ds msgs w all = all
  read_channels-AllInRange (suc n) j ds msgs w all =
      read_channels-AllInRange n (j + 1) ds _ _
        (read_all-AllInRange j ds msgs (trigger_all adc j ds w).1 all)

module _ {F W : Type 0} (fl : Floats F) (bits : IsInt32 fl) (orb : Orb F W) where
  read_mass-messages :
      (s : SensorMass F) (msgs : List Body) (w : W)
      → let r = sensor_mass_fetch orb s w in
        (read_mass fl orb s msgs w).0.1 ≡ (
          if s.available
          then (if is_negative r.0.0 then msgs else msgs ++ mass_body fl r.0.1 ∷ [])
          else msgs)
  unfolding read_mass
  read_mass-messages s msgs w = ground arith

  read_mass-AllInRange :
      (s : SensorMass F) (msgs : List Body) (w : W)
      → AllInRange msgs
      → AllInRange (read_mass fl orb s msgs w).0.1
  unfolding read_mass
  read_mass-AllInRange s msgs w all =
      let r = sensor_mass_fetch orb s w in
      rw (read_mass-messages s msgs w) (
        if_holds AllInRange s.available _ _
          (if_holds AllInRange (is_negative r.0.0) _ _ all
            (AllInRange-append msgs _ all (mass_body-IsInRange fl bits r.0.1)))
          all)

  read_temps-messages :
      (s : SensorTemp F) (ss : List (SensorTemp F)) (msgs : List Body) (w : W)
      → let r = sensor_temp_fetch orb s w in
        let msgs1 = if is_negative r.0.0 then msgs else msgs ++ temp_body fl r.0.1 ∷ [] in
        (read_temps fl orb (s ∷ ss) msgs w).0.1 ≡ (
          if s.available
          then (read_temps fl orb ss msgs1 r.1).0.1
          else (read_temps fl orb ss msgs w).0.1)
  unfolding read_temps
  read_temps-messages s ss msgs w = ground arith

  read_temps-AllInRange :
      (ss : List (SensorTemp F)) (msgs : List Body) (w : W)
      → AllInRange msgs
      → AllInRange (read_temps fl orb ss msgs w).0.1
  unfolding read_temps
  read_temps-AllInRange [] msgs w all = all
  read_temps-AllInRange (s ∷ ss) msgs w all =
      let r = sensor_temp_fetch orb s w in
      rw (read_temps-messages s ss msgs w) (
        if_holds AllInRange s.available _ _
          (read_temps-AllInRange ss _ r.1 (
            if_holds AllInRange (is_negative r.0.0) _ _ all
              (AllInRange-append msgs _ all (temp_body-IsInRange fl bits r.0.1))))
          (read_temps-AllInRange ss msgs w all))

concat-message_parts : (bs : List Body) → concat_parts (message_parts bs) ≡ encode_messages bs
unfolding concat_parts message_parts encode_messages encode_message encode_body
concat-message_parts [] = refl
concat-message_parts (b ∷ bs) = ground (arith, concat-message_parts bs)

-- What is sent for the messages of a round: nothing, or all of them in one datagram.
abbrev pub datagram_of : List Body → List (List ℕ)
datagram_of [] = []
datagram_of (b ∷ bs) = encode_messages (b ∷ bs) ∷ []

collect-AllInRange :
    {F W : Type 0} (fl : Floats F) (orb : Orb F W) (adc : Adc W) (dgrams : Datagrams W)
    (set : SensorSet F) (w : W)
    → IsInt32 fl
    → AllInRange (collect fl orb adc dgrams set w).0.1
unfolding collect
collect-AllInRange fl orb adc dgrams set w bits =
    read_temps-AllInRange fl bits orb set.sensor_temps _ _ (
      read_mass-AllInRange fl bits orb set.sensor_mass _ _
        (read_channels-AllInRange fl bits adc dgrams 4 0 set.adc_devices [] w tt))

send_collected-datagram :
    {W : Type 0} (dgrams : Datagrams W) (telem : TelemetrySock) (log : W → List (List ℕ))
    (msgs : List Body) (w : W)
    → ((bs : List ℕ) (v : W) → log (dgrams.sendmsg telem.sock bs v).1 ≡ log v ++ bs ∷ [])
    → log (send_collected dgrams telem msgs w).1 ≡ log w ++ datagram_of msgs
unfolding send_collected telemetry_publish
send_collected-datagram dgrams telem log [] w law = sym (append-nil (log w))
send_collected-datagram dgrams telem log (b ∷ bs) w law =
    ground (arith, law (concat_parts (message_parts (b ∷ bs))) w, concat-message_parts (b ∷ bs))

module _ {F W : Type 0} (fl : Floats F) (orb : Orb F W) (adc : Adc W) (dgrams : Datagrams W)
    (telem : TelemetrySock) where
  -- Where conversions to an `int32_t` give 32 bits and `sendmsg` adds its datagram to a log: a round adds the
  -- collected messages to the log, in one datagram if there are any, and every field of them fits its bytes.
  pub sensor_round-sends :
      (log : W → List (List ℕ)) (set : SensorSet F) (w : W)
      → IsInt32 fl
      → ((bs : List ℕ) (v : W) → log (dgrams.sendmsg telem.sock bs v).1 ≡ log v ++ bs ∷ [])
      → let ((set1, msgs), w1) = collect fl orb adc dgrams set w in
        let t = sensor_round fl orb adc dgrams telem set w in
        (t.0 ≡ set1) × (log t.1 ≡ log w1 ++ datagram_of msgs) × AllInRange msgs
  unfolding sensor_round
  sensor_round-sends log set w bits law =
      let r = collect fl orb adc dgrams set w in
      (
        refl,
        send_collected-datagram dgrams telem log r.0.1 r.1 law,
        collect-AllInRange fl orb adc dgrams set w bits,
      )
