-- ===== src/MockTelemetry/Random.antt =====
-- A round of `random_data` (pad_server/src/telemetry.c).
use native.Mathlib.Nat.{div_self, div-eq_of_lt}
use mathlib.Core.List.{append_assoc, append-nil}
use hysim.Base.{
  ℕ, zero, suc, ◌+◌, ◌/◌, ◌%◌, ◌≤◌, ◌<◌, ◌≡◌, refl, ◌∙◌, sym, ap, ◌⊎◌, inl, inr, List, [], ◌∷◌,
  ◌++◌, arith, ℤ, length, Bool-cases, ltb,
}
use hysim.Packet.{packet_pressure_init, packet_continuity_state_init}
use hysim.Packet.Message.{pressure, cont, encode_message, encode_body}
use hysim.Packet.Wire.{encode_header, encode_pressure, encode_continuity_state}
use hysim.Os.{Datagrams, Files}
use hysim.Telemetry.{TelemetrySock, telemetry_publish, concat_parts, time_ms_of}
use hysim.MockTelemetry.{random_pressure, random_pressures, random_round}

-- Every value is 0 or 1000.
abbrev pub AllExtreme : List ℕ → Type 0
AllExtreme [] = Unit {0}
AllExtreme (p ∷ ps) = ((p ≡ 0) ⊎ (p ≡ 1000)) × AllExtreme ps

-- The transducers `i`, `i + 1`, ... with these pressures.
abbrev pub pressure_datagrams : ℕ → ℕ → List ℕ → List (List ℕ)
pressure_datagrams time i [] = []
pressure_datagrams time i (p ∷ ps) =
    encode_message (pressure (packet_pressure_init i time p)) ∷ pressure_datagrams time (i + 1) ps

random_pressure-extreme :
    (rand_max r : ℕ)
    → 0 < rand_max
    → r ≤ rand_max
    → (random_pressure rand_max r ≡ 0) ⊎ (random_pressure rand_max r ≡ 1000)
unfolding random_pressure
random_pressure-extreme rand_max r positive h = elim (Bool-cases (ltb r rand_max)) [
  | inl e ↦ (let small : r / rand_max ≡ 0 = div-eq_of_lt (ground (arith, e)) in inl (rw small refl))
  | inr e ↦
      (let same : r ≡ rand_max = ground (arith, e) in
        let one : r / rand_max ≡ 1 = ap (λ k. k / rand_max) same ∙ div_self positive in
        inr (rw one refl))
]

-- Where datagrams go, with a generator of random numbers that keeps its range.
pub record RandomBox {W : Type 0} (dgrams : Datagrams W) (files : Files W) (sock : ℤ) : Type 0 where
  pub sent : W → List (List ℕ)
  pub rand_max_positive : 0 < files.rand_max
  pub rand_bound : (w : W) → (files.rand w).0 ≤ files.rand_max
  pub rand_sent : (w : W) → sent (files.rand w).1 ≡ sent w
  pub clock_sent : (w : W) → sent (dgrams.clock_gettime w).1 ≡ sent w
  pub usleep_sent : (n : ℕ) (w : W) → sent (files.usleep_us n w).1 ≡ sent w
  pub sendmsg_sent : (bs : List ℕ) (w : W) → sent (dgrams.sendmsg sock bs w).1 ≡ sent w ++ bs ∷ []

module _ {W : Type 0} (dgrams : Datagrams W) (files : Files W) (telem : TelemetrySock)
    (box : RandomBox dgrams files telem.sock) where
  open box use {
    sent, rand_max_positive, rand_bound, rand_sent, clock_sent, usleep_sent, sendmsg_sent,
  }

  publish-sent :
      (parts : List (List ℕ)) (w : W)
      → sent (telemetry_publish dgrams telem parts w).1 ≡ sent w ++ concat_parts parts ∷ []
  unfolding telemetry_publish
  publish-sent parts w = ground (arith, sendmsg_sent (concat_parts parts) w)

  random_pressures-sent :
      (n i time : ℕ) (w : W)
      → (ps : List ℕ) × (length ps ≡ n)
        × AllExtreme ps
        × (sent (random_pressures dgrams files telem time n i w).1
            ≡ sent w ++ pressure_datagrams time i ps)
  unfolding random_pressures concat_parts encode_message encode_body
  random_pressures-sent zero i time w = ([], refl, tt, sym (append-nil (sent w)))
  random_pressures-sent (suc n) i time w =
      let (r, w1) = files.rand w in
      let p : ℕ = random_pressure files.rand_max r in
      let message = packet_pressure_init i time p in
      let parts = encode_header (record { type = 1; subtype = 1 }) ∷ encode_pressure message ∷ [] in
      let w2 : W = (telemetry_publish dgrams telem parts w1).1 in
      let bytes : concat_parts parts ≡ encode_message (pressure message) =
        ap (λ bs. encode_header (record { type = 1; subtype = 1 }) ++ bs)
          (append-nil (encode_pressure message)) in
      let (ps, count, extreme, sent3) = random_pressures-sent n (i + 1) time w2 in
      (
        p ∷ ps,
        ap suc count,
        (random_pressure-extreme files.rand_max r rand_max_positive (rand_bound w), extreme),
        sent3
            ∙ ap (λ s. s ++ pressure_datagrams time (i + 1) ps)
                (publish-sent parts w1
                  ∙ ap (λ bs. sent w1 ++ bs ∷ []) bytes
                  ∙ ap (λ s. s ++ encode_message (pressure message) ∷ []) (rand_sent w))
            ∙ append_assoc (sent w) (encode_message (pressure message) ∷ [])
                (pressure_datagrams time (i + 1) ps),
      )

  -- With random numbers up to RAND_MAX, a round sends six pressures, of the transducers 0 to 5, and then one
  -- continuity of 0 or 1, all at the current time; every pressure is 0 or 1000.
  pub random_round-sends :
      (w : W)
      → let (sec, nsec) = (dgrams.clock_gettime w).0 in
        let time = time_ms_of sec nsec in
        (ps : List ℕ) × (c : ℕ) × (length ps ≡ 6)
        × AllExtreme ps
        × (c < 2)
        × (sent (random_round dgrams files telem w).1
            ≡ sent w
              ++ (pressure_datagrams time 0 ps
                  ++ encode_message (cont (packet_continuity_state_init time c)) ∷ []))
  unfolding random_round concat_parts encode_message encode_body
  random_round-sends w =
      let ((sec, nsec), w1) = dgrams.clock_gettime w in
      let time = time_ms_of sec nsec in
      let (ps, count, extreme, sent2) = random_pressures-sent 6 0 time w1 in
      let w2 : W = (random_pressures dgrams files telem time 6 0 w1).1 in
      let (r, w3) = files.rand w2 in
      let message = packet_continuity_state_init time (r % 2) in
      let bs : List ℕ = encode_message (cont message) in
      let parts =
        encode_header (record { type = 1; subtype = 7 }) ∷ encode_continuity_state message ∷ [] in
      let before : sent w3 ≡ sent w ++ pressure_datagrams time 0 ps =
        rand_sent w2 ∙ sent2 ∙ ap (λ s. s ++ pressure_datagrams time 0 ps) (clock_sent w) in
      (
        ps,
        r % 2,
        count,
        extreme,
        omega arith,
        usleep_sent 100000 (telemetry_publish dgrams telem parts w3).1
            ∙ publish-sent parts w3
            ∙ ap (λ s. s ++ bs ∷ []) before
            ∙ append_assoc (sent w) (pressure_datagrams time 0 ps) (bs ∷ []),
      )
