-- ===== src/MockTelemetry.antt =====
-- `random_data` and `mock_telemetry` of pad_server/src/telemetry.c: made-up measurements, at random or from a
-- file. Each endless loop is cut into its rounds. BUFSIZ is taken as 8192.
pub mod Random
pub mod Csv
pub mod Replay
pub mod Lines
pub mod Shown
use hysim.Base.{
  ℕ, zero, suc, ◌+◌, ◌*◌, ◌/◌, ◌%◌, Bool, true, false, Option, none, some, List, [], ◌∷◌, Run,
  ◌>>=◌, ◌>>◌, return, if◌then◌else◌,
}
use hysim.Packet.{
  u32, type_telem, telem_pressure, telem_cont, packet_pressure_init, packet_continuity_state_init,
}
use hysim.Packet.Wire.{encode_header, encode_pressure, encode_continuity_state}
use hysim.Os.{Datagrams, Files}
use hysim.Libc.{strtoul, strtok_r}
use hysim.Telemetry.{TelemetrySock, telemetry_publish, time_ms_of}

-- What a round of the loop over a file does next; `crash` is a call with a NULL text.
pub data MockNext : Type 0 where
  again : MockNext
  thread_exit : ℕ → MockNext
  crash : MockNext

-- 1000 * (rand() / RAND_MAX), both of them `int`.
unfoldable pub random_pressure : ℕ → ℕ → ℕ
random_pressure rand_max r = u32 (1000 * (r / rand_max))

-- The two numbers of a line; `none` where one of them is missing.
unfoldable pub parse_line : List ℕ → Option (ℕ × ℕ)
parse_line buffer = elim (strtok_r 44 buffer) [
  | none ↦ none
  | some (time_str, rest) ↦ (elim (strtok_r 44 rest) [
    | none ↦ none
    | some (pstr, rest2) ↦ some (u32 (strtoul time_str), u32 (strtoul pstr))
  ])
]

module _ {W : Type 0} (dgrams : Datagrams W) (files : Files W) where
  open files use {fopen, ferror, feof, rewind, fgets, rand, rand_max, usleep_us}

  -- The transducers from `i` on, so many of them.
  unfoldable pub random_pressures : TelemetrySock → ℕ → ℕ → ℕ → Run W (Unit {0})
  random_pressures telem time_ms zero i = return tt
  random_pressures telem time_ms (suc n) i = do
    r ← rand
    telemetry_publish dgrams telem (
        encode_header (record { type = type_telem; subtype = telem_pressure })
        ∷ encode_pressure (packet_pressure_init i time_ms (random_pressure rand_max r))
        ∷ [])
    random_pressures telem time_ms n (i + 1)

  -- One round of `random_data`.
  unfoldable pub random_round : TelemetrySock → Run W (Unit {0})
  random_round telem = do
    (sec, nsec) ← dgrams.clock_gettime
    let time_ms = time_ms_of sec nsec
    random_pressures telem time_ms 6 0
    r ← rand
    telemetry_publish dgrams telem (
        encode_header (record { type = type_telem; subtype = telem_cont })
        ∷ encode_continuity_state (packet_continuity_state_init time_ms (r % 2))
        ∷ [])
    usleep_us 100000

  unfoldable pub publish_line : TelemetrySock → ℕ × ℕ → Run W (Unit {0})
  publish_line telem (time, pressure) = do
    telemetry_publish dgrams telem (
        encode_header (record { type = type_telem; subtype = telem_pressure })
        ∷ encode_pressure (record { time = time; pressure = pressure; id = 1 })
        ∷ [])
    usleep_us 1000000

  unfoldable pub publish_parsed : TelemetrySock → Option (ℕ × ℕ) → Run W MockNext
  publish_parsed telem none = return crash
  publish_parsed telem (some numbers) = do publish_line telem numbers; return again

  -- Where nothing was read the loop goes on.
  unfoldable pub publish_read : TelemetrySock → Option (List ℕ) → Run W MockNext
  publish_read telem none = return again
  publish_read telem (some buffer) = publish_parsed telem (parse_line buffer)

  -- One round over the file: `file_error` is what `err` holds, which is 0.
  unfoldable pub file_round : TelemetrySock → ℕ → Run W MockNext
  file_round telem file = do
    broken ← ferror file
    if broken then return (thread_exit 0) else do
      ended ← feof file
      (if ended then rewind file else return tt)
      line ← fgets file 8192
      publish_read telem line

  -- So many rounds of the loop over the file.
  unfoldable pub file_rounds : ℕ → TelemetrySock → ℕ → Run W MockNext
  file_rounds zero telem file w = (again, w)
  file_rounds (suc n) telem file w =
      let (next, w1) = file_round telem file w in
      elim next [
        | again ↦ file_rounds n telem file w1
        | thread_exit e ↦ (thread_exit e, w1)
        | crash ↦ (crash, w1)
      ]

  unfoldable pub random_data : ℕ → TelemetrySock → Run W MockNext
  random_data zero telem = return again
  random_data (suc n) telem = do random_round telem; random_data n telem

  -- `mock_telemetry` for so many rounds. A file that cannot be opened ends the thread with `err`, which is 0.
  unfoldable pub replay_opened : ℕ → TelemetrySock → Option ℕ → Run W MockNext
  replay_opened n telem none = return (thread_exit 0)
  replay_opened n telem (some file) = file_rounds n telem file

  unfoldable pub mock_telemetry : ℕ → Option (List ℕ) → TelemetrySock → Run W MockNext
  mock_telemetry n none telem = random_data n telem
  mock_telemetry n (some data_file) telem = do
    opened ← fopen data_file
    replay_opened n telem opened
