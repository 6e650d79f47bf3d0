-- ===== src/PadServer.antt =====
-- pad_server/src/pad_server_main.c: options, start-up, the threads and their end. `getopt` stands outside: its
-- answers are the list of options. The pad state is shared, so it is the state beside the world.
pub mod Options
pub mod Starts
pub mod BoardSetup
use hysim.Base.{
  ℕ, zero, suc, Bool, true, false, not, ◌&&◌, ◌||◌, Option, none, some, List, [], ◌∷◌, ℤ, pos,
  negsuc, Run, ◌>>=◌, ◌>>◌, return, is_negative, is_one, is_zero, if◌then◌else◌, ◌==◌,
}
use hysim.Actuator.{Build}
use hysim.Os.{Board, Locks, Sockets, Threads}
use hysim.Libc.{Opt, strtoul, u16}
use hysim.PadState.{PadState, call, padstate_init}
use hysim.TelemetryThread.{ControllerArgs, PadThread, TelemetryArgs, controller_run, telemetry_run}

abbrev pub control_thread_priority : ℕ
control_thread_priority = 200

abbrev pub telem_thread_priority : ℕ
telem_thread_priority = 100

abbrev pub telemetry_port : ℕ
telemetry_port = 50002

abbrev pub control_port : ℕ
control_port = 50001

-- "239.100.110.210"
abbrev pub multicast_addr : List ℕ
multicast_addr = 50 ∷ 51 ∷ 57 ∷ 46 ∷ 49 ∷ 48 ∷ 48 ∷ 46 ∷ 49 ∷ 49 ∷ 48 ∷ 46 ∷ 50 ∷ 49 ∷ 48 ∷ []

-- `telemetry_args` and `controller_args`.
pub record ServerArgs : Type 0 where
  pub telemetry : TelemetryArgs
  pub controller : ControllerArgs

abbrev pub default_args : ServerArgs
default_args = record {
  telemetry = record { port = telemetry_port; addr = multicast_addr; data_file = none };
  controller = record { port = control_port };
}

-- The options read, or the code that the process exits with.
pub data Parsed : Type 0 where
  ready : ServerArgs → Parsed
  stop : ℕ → Parsed

-- How the process ends: by `exit` or by returning from `main`, or with a failed assertion; or it is still starting.
pub data ServerEnd : Type 0 where
  server_exit : ℕ → ServerEnd
  server_abort : ServerEnd
  server_starting : ServerEnd

module _ {W : Type 0} (net : Sockets W) where
  -- One round of the option loop, by the letter; `:` and anything else is passed over.
  unfoldable pub apply_opt : Opt → ServerArgs → Run W Parsed
  apply_opt o args =
      if o.letter == 104
      then return (stop 0)
      else if o.letter == 116
      then return (
          ready
            (record args { telemetry = record args.telemetry { port = u16 (strtoul o.optarg) } }))
      else if o.letter == 99
      then return (ready (record args { controller = record { port = u16 (strtoul o.optarg) } }))
      else if o.letter == 102
      then return
          (ready (record args { telemetry = record args.telemetry { data_file = some o.optarg } }))
      else if o.letter == 97
      then (do
        (valid, _) ← net.inet_pton o.optarg
        if is_one valid
            then return
                (ready (record args { telemetry = record args.telemetry { addr = o.optarg } }))
            else return (stop 1))
      else if o.letter == 63
      then return (stop 1)
      else return (ready args)

  unfoldable pub parse_opts : List Opt → ServerArgs → Run W Parsed
  parse_opts [] args w = (ready args, w)
  parse_opts (o ∷ os) args w =
      let (parsed, w1) = apply_opt o args w in
      elim parsed [ ready args1 ↦ parse_opts os args1 w1 | stop e ↦ (stop e, w1) ]

module _ {W : Type 0} (threads : Threads PadThread W) where
  open threads use {pthread_cancel, pthread_join}

  -- The handler of Ctrl + C on the desktop.
  unfoldable pub int_handler : ℕ → ℕ → Run W ServerEnd
  int_handler controller_thread telem_thread = do
    pthread_cancel telem_thread
    pthread_join telem_thread
    pthread_cancel controller_thread
    pthread_join controller_thread
    return (server_exit 0)

module _ {W : Type 0} (locks : Locks W) (threads : Threads PadThread W) (build : Build W)
    (desktop : Bool) where
  open threads use {pthread_create, pthread_setschedprio, pthread_join}

  abbrev Server : Type 0 → Type 0
  Server A = Run (PadState W × W) A

  -- A thread with its priority, which the desktop build leaves alone; `none` where the process exits.
  unfoldable pub start_thread : PadThread → ℕ → Server (Option ℕ)
  start_thread t priority = do
    (err, thread) ← call (pthread_create t)
    if err == 0
        then (do
          err1 ← (if desktop then return 0 else call (pthread_setschedprio thread priority))
          if err1 == 0 then return (some thread) else return none)
        else return none

  -- A thread that ended with a code fails an assertion in a NuttX build.
  unfoldable pub await_threads : ℕ → ℕ → Server ServerEnd
  await_threads controller_thread telem_thread = do
    err ← call (pthread_join controller_thread)
    if not desktop && not (err == 0) then return server_abort else do
      err1 ← call (pthread_join telem_thread)
      if desktop then return (server_exit 0) else return server_abort

  unfoldable pub await_started : ℕ → Option ℕ → Server ServerEnd
  await_started controller_thread none = return (server_exit 1)
  await_started controller_thread (some telem_thread) = await_threads controller_thread telem_thread

  unfoldable pub start_telemetry : ServerArgs → Option ℕ → Server ServerEnd
  start_telemetry args none = return (server_exit 1)
  start_telemetry args (some controller_thread) = do
    telem_thread ← start_thread (telemetry_run args.telemetry) telem_thread_priority
    await_started controller_thread telem_thread

  -- What `main` does with the options.
  unfoldable pub start_server : Parsed → Server ServerEnd
  start_server (stop e) = return (server_exit e)
  start_server (ready args) =
      if args.telemetry.port == args.controller.port then return (server_exit 1) else do
        padstate_init locks build
        controller_thread ← start_thread (controller_run args.controller) control_thread_priority
        start_telemetry args controller_thread

  -- `main`, behind the start-up of the board.
  unfoldable pub server_main : Sockets W → List Opt → Server ServerEnd
  server_main net opts = do parsed ← call (parse_opts net opts default_args); start_server parsed
