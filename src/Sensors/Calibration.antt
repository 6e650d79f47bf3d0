-- ===== src/Sensors/Calibration.antt =====
-- `sensor_mass_calibrate` of pad_server/src/sensors.c against the list of the samples that its rounds fetch.
use hysim.Base.{
  ℕ, zero, suc, ◌+◌, ◌≤◌, ◌≡◌, refl, ◌∙◌, ap, Bool-cases, inl, inr, Option, none, some, List, [],
  ◌∷◌, ℤ, pos, arith, length, take, drop, if◌then◌else◌,
}
use hysim.Sensors.{
  Floats, Orb, SensorMass, sensor_mass_fetch, add_tenth, fetch_round, flush_readings, sum_readings,
  sensor_mass_calibrate,
}

module _ {F W : Type 0} (fl : Floats F) (orb : Orb F W) where
  -- The forces that so many rounds fetch, the rounds that fetch nothing left out.
  abbrev pub readings : ℕ → SensorMass F → W → List F
  readings zero s w = []
  readings (suc n) s w =
      let ((fetched, s1), w1) = fetch_round fl orb s w in
      let rest = readings n s1 w1 in if fetched then s1.sample.force ∷ rest else rest

  -- The zero point after the tenth part of each force was added.
  abbrev pub tenths : ℤ → List F → ℤ
  tenths z [] = z
  tenths z (f ∷ fs) = tenths (fl.to_long (fl.add (fl.from_long z) (fl.div f (fl.dec 10 0)))) fs

  -- The result and the zero point.
  abbrev pub result_of : Option (ℤ × SensorMass F) → Option (ℤ × ℤ)
  result_of none = none
  result_of (some (err, s)) = some (err, s.zero_point)

  -- The zero point plays no part in fetching.
  fetch_round-zero :
      (z : ℤ) (s : SensorMass F) (w : W)
      → fetch_round fl orb (record s { zero_point = z }) w ≡ (
        ((fetch_round fl orb s w).0.0, record ((fetch_round fl orb s w).0.1) { zero_point = z }),
        (fetch_round fl orb s w).1,
      )
  unfolding fetch_round sensor_mass_fetch
  fetch_round-zero z s w = ground arith

  readings-zero :
      (n : ℕ) (z : ℤ) (s : SensorMass F) (w : W)
      → readings n (record s { zero_point = z }) w ≡ readings n s w
  readings-zero zero z s w = refl
  readings-zero (suc n) z s w =
      let s1 : SensorMass F = (fetch_round fl orb s w).0.1 in
      let w1 : W = (fetch_round fl orb s w).1 in
      rw (fetch_round-zero z s w) (rw (readings-zero n z s1 w1) refl)

  fetch_round-keeps :
      (s : SensorMass F) (w : W) → (fetch_round fl orb s w).0.1.zero_point ≡ s.zero_point
  unfolding fetch_round sensor_mass_fetch
  fetch_round-keeps s w = ground arith

  abbrev zero_point_of : Option (SensorMass F) → Option ℤ
  zero_point_of none = none
  zero_point_of (some s) = some s.zero_point

  sum_readings-tenths :
      (n fuel left : ℕ) (s : SensorMass F) (w : W)
      → n ≤ fuel
      → left ≤ length (readings n s w)
      → zero_point_of (sum_readings fl orb fuel left s w).0
        ≡ some (tenths s.zero_point (take left (readings n s w)))
  unfolding sum_readings add_tenth
  sum_readings-tenths n fuel zero s w le enough = refl
  sum_readings-tenths zero fuel (suc left) s w le enough = absurd (omega arith)
  sum_readings-tenths (suc n) zero (suc left) s w le enough = absurd (omega arith)
  sum_readings-tenths (suc n) (suc fuel) (suc left) s w le enough =
      let s1 : SensorMass F = (fetch_round fl orb s w).0.1 in
      let w1 : W = (fetch_round fl orb s w).1 in
      let keeps = fetch_round-keeps s w in
      elim (Bool-cases (fetch_round fl orb s w).0.0) [
        | inl e ↦
            (let z : ℤ = (add_tenth fl orb s1).zero_point in
              ground (
                arith,
                e,
                keeps,
                readings-zero n z s1 w1,
                sum_readings-tenths n fuel left (add_tenth fl orb s1) w1,
              ))
        | inr e ↦ ground (arith, e, keeps, sum_readings-tenths n fuel (suc left) s1 w1)
      ]

  -- Where the first loop leaves the sensor and the world, the rest of the readings is to come.
  abbrev Flushed : ℕ → ℕ → ℕ → SensorMass F → W → Type 0
  Flushed n fuel left s w =
      (k : ℕ) × (s1 : SensorMass F) × (k ≤ n)
      × ((flush_readings fl orb fuel left s w).0 ≡ some s1)
      × (readings k s1 (flush_readings fl orb fuel left s w).1 ≡ drop left (readings n s w))

  flush_readings-Flushed :
      (n fuel left : ℕ) (s : SensorMass F) (w : W)
      → n ≤ fuel
      → left ≤ length (readings n s w)
      → Flushed n fuel left s w
  unfolding flush_readings
  flush_readings-Flushed n fuel zero s w le enough = (n, s, omega arith, refl, refl)
  flush_readings-Flushed zero fuel (suc left) s w le enough = absurd (omega arith)
  flush_readings-Flushed (suc n) zero (suc left) s w le enough = absurd (omega arith)
  flush_readings-Flushed (suc n) (suc fuel) (suc left) s w le enough =
      let s1 : SensorMass F = (fetch_round fl orb s w).0.1 in
      let w1 : W = (fetch_round fl orb s w).1 in
      elim (Bool-cases (fetch_round fl orb s w).0.0) [
        | inl e ↦
            (let more : left ≤ length (readings n s1 w1) = ground (arith, e) in
              let (k, t, small, gave, rest) =
                flush_readings-Flushed n fuel left s1 w1 (omega arith) more in
              (k, t, omega arith, rw (e, flush_readings) gave, rw (e, flush_readings) rest))
        | inr e ↦
            (let more : suc left ≤ length (readings n s1 w1) = ground (arith, e) in
              let (k, t, small, gave, rest) =
                flush_readings-Flushed n fuel (suc left) s1 w1 (omega arith) more in
              (k, t, omega arith, rw (e, flush_readings) gave, rw (e, flush_readings) rest))
      ]

  length-drop : (n : ℕ) (xs : List F) (m : ℕ) → n + m ≤ length xs → m ≤ length (drop n xs)
  length-drop zero xs m h = omega arith
  length-drop (suc n) [] m h = absurd (omega arith)
  length-drop (suc n) (x ∷ xs) m h = length-drop n xs m (omega arith)

  summed :
      (o : Option (SensorMass F)) (z : ℤ)
      → zero_point_of o ≡ some z
      → result_of (elim o [ none ↦ none | some t ↦ some (pos 0, t) ]) ≡ some (pos 0, z)
  summed none z e = cc
  summed (some t) z e = ground arith

  -- The second loop begins where the first one ended.
  calibrated :
      (fuel1 fuel2 : ℕ) (s : SensorMass F) (w : W) (s1 : SensorMass F) (z : ℤ)
      → (flush_readings fl orb fuel1 10 s w).0 ≡ some s1
      → zero_point_of
          (sum_readings fl orb fuel2 10
            (record s1 { zero_point = pos 0 })
            (flush_readings fl orb fuel1 10 s w).1).0
        ≡ some z
      → result_of (sensor_mass_calibrate fl orb fuel1 fuel2 s w).0 ≡ some (pos 0, z)
  unfolding sensor_mass_calibrate
  calibrated fuel1 fuel2 s w s1 z gave sum =
      rw (gave, sensor_mass_calibrate, result_of) (summed _ z sum)

  -- Where n rounds of fetching give at least twenty samples: with fuel for n rounds of the first loop and for n or
  -- more of the second, the calibration ends with 0, the first ten samples are dropped, and the zero point is the
  -- sum of the tenth parts of the next ten, cut down to a `long` at every step.
  pub sensor_mass_calibrate-tenths :
      (n fuel2 : ℕ) (s : SensorMass F) (w : W)
      → n ≤ fuel2
      → 20 ≤ length (readings n s w)
      → result_of (sensor_mass_calibrate fl orb n fuel2 s w).0
        ≡ some (pos 0, tenths (pos 0) (take 10 (drop 10 (readings n s w))))
  unfolding sensor_mass_calibrate
  sensor_mass_calibrate-tenths n fuel2 s w le enough =
      let (k, s1, small, gave, rest) =
        flush_readings-Flushed n n 10 s w (omega arith) (omega arith) in
      let w1 : W = (flush_readings fl orb n 10 s w).1 in
      let left : 10 ≤ length (readings k s1 w1) =
        rw rest (length-drop 10 (readings n s w) 10 enough) in
      let s2 : SensorMass F = record s1 { zero_point = pos 0 } in
      let same = readings-zero k (pos 0) s1 w1 in
      let sum = sum_readings-tenths k fuel2 10 s2 w1 (omega arith) (rw same left) in
      calibrated n fuel2 s w s1 _ gave
        (sum ∙ ap (λ (xs : List F). some (tenths (pos 0) (take 10 xs))) (same ∙ rest))
