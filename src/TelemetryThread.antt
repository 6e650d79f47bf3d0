-- ===== src/TelemetryThread.antt =====
-- `telemetry_run` of pad_server/src/telemetry.c: the thread that sends telemetry, from its socket to its end.
pub mod Ledger
pub mod Ends
use hysim.Base.{
  ℕ, zero, suc, Bool, true, false, Option, none, some, List, [], ◌∷◌, ℤ, negsuc, Run, ◌>>=◌, ◌>>◌,
  return, is_negative, if◌then◌else◌, ◌==◌,
}
use hysim.Os.{Datagrams, Devices, Files, Sockets, Threads}
use hysim.Libc.{u16}
use hysim.Telemetry.{TelemetrySock, telemetry_close}
use hysim.MockTelemetry.{MockNext, again, thread_exit, crash, mock_telemetry}
use hysim.Sensors.{Floats, Orb}
use hysim.SensorTelemetry.{Adc, SensorSet, sensor_setup, sensor_rounds}

-- telemetry_args_t, without the pad state, which all threads share. A text is the list of its bytes.
pub record TelemetryArgs : Type 0 where
  pub port : ℕ
  pub addr : List ℕ
  pub data_file : Option (List ℕ)

-- controller_args_t, likewise.
pub record ControllerArgs : Type 0 where
  pub port : ℕ

-- The threads of the pad server, with their arguments.
pub data PadThread : Type 0 where
  controller_run : ControllerArgs → PadThread
  telemetry_run : TelemetryArgs → PadThread
  telemetry_update_padstate : TelemetrySock → PadThread

-- The cleanup handlers that the thread pushes.
pub data Handler : Type 0 where
  telemetry_cleanup : TelemetrySock → Handler
  telemetry_cancel_padstate_thread : ℕ → Handler

-- Where the thread stands: in its loop, with handlers pushed; ended with a code; the process ended by `exit`, by
-- a failed assertion, or by a crash.
pub data ThreadEnd : Type 0 where
  running : List Handler → ThreadEnd
  exited : ℕ → ThreadEnd
  process_exit : ThreadEnd
  process_abort : ThreadEnd
  process_crash : ThreadEnd

-- What the sensors' part of the thread needs.
pub record Sensing (F W : Type 0) : Type 0 where
  pub fl : Floats F
  pub orb : Orb F W
  pub adc : Adc W
  pub os : Devices W
  pub fuel : ℕ
  pub known_weight : ℤ
  pub known_point : ℤ

-- What the build sends: made-up data, the sensors' data, or the pad state alone.
pub data Source (F W : Type 0) : Type 0 where
  mock : Source F W
  sensors : Sensing F W → Source F W
  no_sensors : Source F W

-- An uninitialized socket.
abbrev pub unset_sock : TelemetrySock
unset_sock = record { sock = negsuc 0; addr = 0; sin_port = 0 }

module _ {W : Type 0} (net : Sockets W) where
  -- The error code and the socket; `none` where the assertion of `nxfail` fails, which only the desktop build
  -- leaves out.
  unfoldable pub telemetry_init :
      Bool → TelemetrySock → ℕ → List ℕ → Run W (Option (ℕ × TelemetrySock))
  telemetry_init desktop sock port addr = do
    fd ← net.socket_dgram
    let sock1 = record sock { sock = fd }
    if is_negative fd
        then (if desktop then (λ w. (some (net.sock_errno w, sock1), w)) else return none)
        else return (some (0, record sock1 { addr = net.inet_addr addr; sin_port = u16 port }))

module _ {W : Type 0} (dgrams : Datagrams W) (threads : Threads PadThread W) where
  open threads use {pthread_cancel, pthread_join}

  unfoldable pub run_handler : Handler → Run W (Unit {0})
  run_handler (telemetry_cleanup sock) = do telemetry_close dgrams sock; return tt
  run_handler (telemetry_cancel_padstate_thread thread) = do
    pthread_cancel thread
    pthread_join thread
    return tt

  -- The handler pushed last comes first.
  unfoldable pub run_handlers : List Handler → Run W (Unit {0})
  run_handlers [] = return tt
  run_handlers (h ∷ hs) = do run_handler h; run_handlers hs

  unfoldable pub thread_return : List Handler → ℕ → Run W ThreadEnd
  thread_return handlers e = do run_handlers handlers; return (exited e)

  -- The thread is cancelled where it stands.
  unfoldable pub thread_cancelled : ThreadEnd → Run W (Unit {0})
  thread_cancelled (running handlers) = run_handlers handlers
  thread_cancelled _ = return tt

  unfoldable pub after_mock : List Handler → MockNext → Run W ThreadEnd
  after_mock handlers again = return (running handlers)
  after_mock handlers (thread_exit e) = thread_return handlers e
  after_mock handlers crash = return process_crash

module _ {F W : Type 0} (dgrams : Datagrams W) where
  -- `sensor_telemetry`, for so many rounds of its loop.
  unfoldable pub sensor_telemetry : Sensing F W → ℕ → TelemetrySock → Run W (Option (SensorSet F))
  sensor_telemetry s n telem = do
    ready ← sensor_setup s.fl s.orb s.os s.fuel s.known_weight s.known_point
    elim ready [
      | none ↦ return none
      | some set ↦ do set1 ← sensor_rounds s.fl s.orb s.adc dgrams n telem set; return (some set1)
    ]

module _ {F W : Type 0} (dgrams : Datagrams W) (threads : Threads PadThread W)
    (files : Files W) where
  open threads use {pthread_create, pthread_setschedprio, pthread_join}

  -- What follows the creation of the thread that sends the pad state. Without sensors the thread waits for that
  -- one to end, and then ends or fails the assertion of `nxfail`.
  unfoldable pub telemetry_body :
      Bool → Source F W → ℕ → TelemetryArgs → TelemetrySock → ℕ → List Handler → Run W ThreadEnd
  telemetry_body desktop mock n args telem thread handlers = do
    next ← mock_telemetry dgrams files n args.data_file telem
    after_mock dgrams threads handlers next
  telemetry_body desktop (sensors s) n args telem thread handlers = do
    sensor_telemetry dgrams s n telem
    return (running handlers)
  telemetry_body desktop no_sensors n args telem thread handlers = do
    pthread_join thread
    if desktop then thread_return dgrams threads handlers 0 else return process_abort

  -- The desktop build leaves the priority alone.
  unfoldable pub prioritized :
      Bool → Source F W → ℕ → TelemetryArgs → TelemetrySock → ℕ → Run W ThreadEnd
  prioritized desktop source n args telem thread = do
    let handlers = telemetry_cancel_padstate_thread thread ∷ telemetry_cleanup telem ∷ []
    err1 ← (if desktop then return 0 else pthread_setschedprio thread 200)
    if err1 == 0
        then telemetry_body desktop source n args telem thread handlers
        else return process_exit

  unfoldable pub with_padstate_thread :
      Bool → Source F W → ℕ → TelemetryArgs → TelemetrySock → Run W ThreadEnd
  with_padstate_thread desktop source n args telem = do
    (err, thread) ← pthread_create (telemetry_update_padstate telem)
    if err == 0
        then prioritized desktop source n args telem thread
        else thread_return dgrams threads (telemetry_cleanup telem ∷ []) err

  unfoldable pub after_init :
      Bool → Source F W → ℕ → TelemetryArgs → Option (ℕ × TelemetrySock) → Run W ThreadEnd
  after_init desktop source n args none = return process_abort
  after_init desktop source n args (some (err, telem)) =
      if err == 0
      then with_padstate_thread desktop source n args telem
      else thread_return dgrams threads [] err

module _ {F W : Type 0} (net : Sockets W) (dgrams : Datagrams W) (threads : Threads PadThread W)
    (files : Files W) where
  -- `telemetry_run`, with so many rounds of its endless loop.
  unfoldable pub telemetry_thread : Bool → Source F W → ℕ → TelemetryArgs → Run W ThreadEnd
  telemetry_thread desktop source n args = do
    ready ← telemetry_init net desktop unset_sock args.port args.addr
    after_init dgrams threads files desktop source n args ready
