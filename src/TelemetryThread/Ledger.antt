-- ===== src/TelemetryThread/Ledger.antt =====
-- What `telemetry_run` (pad_server/src/telemetry.c) takes and gives back, as events, and that the made-up telemetry
-- adds none.
use hysim.Base.{
  ℕ, zero, suc, ◌≡◌, refl, ◌∙◌, inl, inr, true, false, Bool-cases, Option, none, some, List, [],
  ◌∷◌, ◌++◌, arith, ℤ, is_negative, if◌then◌else◌, ◌==◌, ◌+◌, ◌+◌,
}
use hysim.Os.{Datagrams, Files, Sockets, Threads}
use hysim.Telemetry.{TelemetrySock, telemetry_publish, concat_parts}
use hysim.MockTelemetry.{
  random_pressures, random_round, publish_line, publish_parsed, publish_read, replay_opened,
  file_round, file_rounds, random_data, mock_telemetry, parse_line,
}
use hysim.TelemetryThread.{PadThread}

-- What is taken and given back.
pub data Event : Type 0 where
  opened : ℤ → Event
  closed : ℤ → Event
  created : ℕ → Event
  cancelled : ℕ → Event
  joined : ℕ → Event

-- What the operations on sockets and threads add to the events, and the operations that add none.
pub record Ledger {W : Type 0} (net : Sockets W) (dgrams : Datagrams W)
    (threads : Threads PadThread W) (files : Files W) : Type 0 where
  pub events : W → List Event
  pub socket_events :
      (w : W)
      → let (fd, w1) = net.socket_dgram w in
        events w1 ≡ events w ++ (if is_negative fd then [] else opened fd ∷ [])
  pub errno_set :
      (w : W)
      → let (fd, w1) = net.socket_dgram w in
        is_negative fd ≡ true → (net.sock_errno w1 == 0) ≡ false
  pub close_events :
      (fd : ℤ) (w : W) → events (dgrams.close_dgram fd w).1 ≡ events w ++ closed fd ∷ []
  pub create_events :
      (t : PadThread) (w : W)
      → let ((err, k), w1) = threads.pthread_create t w in
        events w1 ≡ events w ++ (if err == 0 then created k ∷ [] else [])
  pub cancel_events :
      (k : ℕ) (w : W) → events (threads.pthread_cancel k w).1 ≡ events w ++ cancelled k ∷ []
  pub join_events :
      (k : ℕ) (w : W) → events (threads.pthread_join k w).1 ≡ events w ++ joined k ∷ []
  pub setschedprio_events :
      (k p : ℕ) (w : W) → events (threads.pthread_setschedprio k p w).1 ≡ events w
  pub clock_events : (w : W) → events (dgrams.clock_gettime w).1 ≡ events w
  pub sendmsg_events : (fd : ℤ) (bs : List ℕ) (w : W) → events (dgrams.sendmsg fd bs w).1 ≡ events w
  pub fopen_events : (name : List ℕ) (w : W) → events (files.fopen name w).1 ≡ events w
  pub ferror_events : (f : ℕ) (w : W) → events (files.ferror f w).1 ≡ events w
  pub feof_events : (f : ℕ) (w : W) → events (files.feof f w).1 ≡ events w
  pub rewind_events : (f : ℕ) (w : W) → events (files.rewind f w).1 ≡ events w
  pub fgets_events : (f n : ℕ) (w : W) → events (files.fgets f n w).1 ≡ events w
  pub rand_events : (w : W) → events (files.rand w).1 ≡ events w
  pub usleep_events : (n : ℕ) (w : W) → events (files.usleep_us n w).1 ≡ events w

module _ {W : Type 0} (net : Sockets W) (dgrams : Datagrams W) (threads : Threads PadThread W)
    (files : Files W) (ledger : Ledger net dgrams threads files) where
  open ledger use {
    events, socket_events, errno_set, close_events, create_events, cancel_events, join_events,
    setschedprio_events, clock_events, sendmsg_events, fopen_events, ferror_events, feof_events,
    rewind_events, fgets_events, rand_events, usleep_events,
  }

  publish-events :
      (telem : TelemetrySock) (parts : List (List ℕ)) (w : W)
      → events (telemetry_publish dgrams telem parts w).1 ≡ events w
  unfolding telemetry_publish
  publish-events telem parts w = ground (arith, sendmsg_events telem.sock (concat_parts parts) w)

  random_pressures-events :
      (telem : TelemetrySock) (time n i : ℕ) (w : W)
      → events (random_pressures dgrams files telem time n i w).1 ≡ events w
  unfolding random_pressures
  random_pressures-events telem time zero i w = refl
  random_pressures-events telem time (suc n) i w =
      random_pressures-events telem time n (i + 1) _ ∙ publish-events telem _ _ ∙ rand_events w

  random_data-events :
      (n : ℕ) (telem : TelemetrySock) (w : W)
      → events (random_data dgrams files n telem w).1 ≡ events w
  unfolding random_data random_round
  random_data-events zero telem w = refl
  random_data-events (suc n) telem w =
      random_data-events n telem _
      ∙ usleep_events 100000 _
      ∙ publish-events telem _ _
      ∙ rand_events _
      ∙ random_pressures-events telem _ 6 0 _
      ∙ clock_events w

  publish_parsed-events :
      (telem : TelemetrySock) (numbers : Option (ℕ × ℕ)) (w : W)
      → events (publish_parsed dgrams files telem numbers w).1 ≡ events w
  unfolding publish_parsed publish_line
  publish_parsed-events telem none w = refl
  publish_parsed-events telem (some numbers) w = usleep_events 1000000 _ ∙ publish-events telem _ w

  publish_read-events :
      (telem : TelemetrySock) (line : Option (List ℕ)) (w : W)
      → events (publish_read dgrams files telem line w).1 ≡ events w
  unfolding publish_read
  publish_read-events telem none w = refl
  publish_read-events telem (some buffer) w = publish_parsed-events telem (parse_line buffer) w

  file_round-events :
      (telem : TelemetrySock) (file : ℕ) (w : W)
      → events (file_round dgrams files telem file w).1 ≡ events w
  unfolding file_round
  file_round-events telem file w =
      let w1 : W = (files.ferror file w).1 in
      let w2 : W = (files.feof file w1).1 in
      let read : (v : W)
          → events v ≡ events w
          → events
              (publish_read dgrams files telem (files.fgets file 8192 v).0
                (files.fgets file 8192 v).1).1
            ≡ events w =
        λ v e.
          publish_read-events telem (files.fgets file 8192 v).0 (files.fgets file 8192 v).1
          ∙ fgets_events file 8192 v
          ∙ e in
      let seen : events w2 ≡ events w = feof_events file w1 ∙ ferror_events file w in
      elim (Bool-cases (files.ferror file w).0) [
        | inl broken ↦ rw broken (ferror_events file w)
        | inr fine ↦ elim (Bool-cases (files.feof file w1).0) [
          | inl ended ↦
              rw (fine, ended) (read (files.rewind file w2).1 (rewind_events file w2 ∙ seen))
          | inr more ↦ rw (fine, more) (read w2 seen)
        ]
      ]

  file_rounds-events :
      (n : ℕ) (telem : TelemetrySock) (file : ℕ) (w : W)
      → events (file_rounds dgrams files n telem file w).1 ≡ events w
  unfolding file_rounds
  file_rounds-events zero telem file w = refl
  file_rounds-events (suc n) telem file w =
      let w1 : W = (file_round dgrams files telem file w).1 in
      let left = file_round-events telem file w in
      ground (arith, left, file_rounds-events n telem file w1)

  replay_opened-events :
      (n : ℕ) (telem : TelemetrySock) (opened : Option ℕ) (w : W)
      → events (replay_opened dgrams files n telem opened w).1 ≡ events w
  unfolding replay_opened
  replay_opened-events n telem none w = refl
  replay_opened-events n telem (some file) w = file_rounds-events n telem file w

  pub mock_telemetry-events :
      (n : ℕ) (data_file : Option (List ℕ)) (telem : TelemetrySock) (w : W)
      → events (mock_telemetry dgrams files n data_file telem w).1 ≡ events w
  unfolding mock_telemetry
  mock_telemetry-events n none telem w = random_data-events n telem w
  mock_telemetry-events n (some name) telem w =
      let (file, w1) = files.fopen name w in
      replay_opened-events n telem file w1 ∙ fopen_events name w
