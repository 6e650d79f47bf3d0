-- ===== src/Lib.antt =====
-- hysim simulates and runs the ground control of a hybrid rocket engine: a pad server drives the valves,
-- the igniter and the quick disconnect of the pad, a control client sends it requests over TCP, and a
-- telemetry client prints what it multicasts over UDP. This library models the three programs and states
-- what keeps them in step.
--
-- The parts, and where they are modelled:
--   Packet         packets/packet.h and packet.c: the messages as records (Packet), their bytes
--                  (Packet.Wire), the round trips of the bytes (Packet.RoundTrip), a telemetry message as
--                  header and body (Packet.Message).
--   Actuator       pad_server/src/actuator.c and its drivers gpio_actuator.c, pwm_actuator.c and the
--                  dummies of the desktop build (Actuator, Actuator.Drivers). Actuator.Reports is about the
--                  failures reported.
--   PadState       pad_server/src/state.c: `padstate_t` is the record PadState without its locks, and each
--                  function keeps its name. PadState.Levels, .Permission and .Effect describe the arming
--                  level, the refusals and the effect of `pad_actuate`; .Invariant and .History are about
--                  any sequence of operations; .Init about `padstate_init`; .Untouched and .Quiet about
--                  what leaves a network alone.
--   Controller     pad_server/src/controller.c: the sockets (Controller) and the receive loop of
--                  `controller_run` (Controller.Messages). Controller.Machine is the abstract pad,
--                  Controller.Channel what a connection is assumed to do, and Controller.Session relates
--                  the loop to the abstract pad. Where nothing is assumed of the client: Controller.Rounds
--                  on one round of the loop, Controller.Histories on the thread, Controller.Fragments on
--                  what arrives in pieces, and Controller.Descriptors, .Serving and .Closing on the sockets
--                  that are open.
--   Sensors        pad_server/src/sensors.c: the load cell, its calibration (Sensors.Calibration) and the
--                  thermocouples, and the conversion of readings (Sensors.Conversion).
--   SensorTelemetry `sensor_telemetry` of pad_server/src/telemetry.c: what a round collects and sends, with
--                  its children about the number of messages (.Bounds), the datagram (.Fits) and the
--                  continuity as the client shows it (.Continuity).
--   MockTelemetry  `random_data` and `mock_telemetry` of pad_server/src/telemetry.c, with .Random, .Csv,
--                  .Lines and .Replay for proofs.
--   TelemetryThread `telemetry_run` of pad_server/src/telemetry.c and its cleanup handlers, with .Ledger
--                  and .Ends about them.
--   PadServer      pad_server/src/pad_server_main.c: options (PadServer.Options), the threads
--                  (PadServer.Starts), and the start of the board (PadServer.BoardSetup).
--   Telemetry      pad_server/src/telemetry.c: `telemetry_send_padstate` and the socket it sends on, with
--                  Telemetry.Snapshot about what it sends. Telemetry.Updates is `telemetry_update_padstate`
--                  beside the controller thread, as a step relation; its children hold the invariant
--                  (.Known, .Fresh) and what follows for the datagrams (.Delivery).
--   TelemClient    telem_client/src: one round of the loop of `main` (TelemClient), what it shows of a
--                  message (TelemClient.Shows), of the pad state (TelemClient.Heartbeat) and in many rounds
--                  (TelemClient.Queue), the size of its buffers (TelemClient.Sizes), and `stream_init`, the
--                  options and `main` (TelemClient.Loop). TelemClient.Display goes from requests to the
--                  screen. MockTelemetry.Shown goes from the data file of the pad server to the lines of
--                  this client.
--   ControlClient  control_client/src/pad.c (ControlClient), switch.c (ControlClient.Switches) and the
--                  loops of control_client_main.c (ControlClient.Panel), with .Replies, .Guard, .Retries,
--                  .Keys and .Pins for proofs, .Box, .ArmingKey and .Scans on the arming key of the control
--                  box; the options and the connection are in ControlClient.Loop, the board in
--                  ControlClient.Start. ControlClient.Account is an account of what happens, and
--                  .PinRounds, .KeyRounds and .Watch are the loops for any account: that of the requests
--                  sent (.Scans), and that of a pad server that answers (.Live). .SetUp and .Whole go from
--                  the rounds to all of `main` behind its options, and .Requests and .Served do so for the
--                  two accounts; .Screen goes on to the telemetry client. .Closing, .OpenRounds and
--                  .Reconnects are on the sockets that are open. .Exchange, .Lockstep, .Operator, .Live,
--                  .Disarmed and .Served are on client and server together.
--   Os             what the programs call in the operating system, as records of functions on a world `W`.
--   Libc           what the programs use of the C library, on lists of bytes: `strtoul`, `strtok_r`,
--                  options.
--   Base           names, lists, tests and the state monad that the modules share.
--   Examples       concrete systems, and the theorems on them.
--
-- How the code is read. A function that changes state is a function on the state and the world that returns
-- its result with both; a call into the system is a field of a record of Os that the definition takes as an
-- argument, so a theorem holds for every system with the named laws. Machine integers are natural numbers
-- with the wrap-around written out (u8, u32); `int` results that can be negative are in ℤ. Locks are calls
-- that may fail: the functions are those of one thread, and a failed lock takes the branch that the code
-- takes. Where threads meet, in Telemetry.Updates, they are interleaved steps on a mutex that works. Reads
-- into buffers that are filled in part keep the old bytes.
--
-- Client and server together. The network of ControlClient.Lockstep is an assumption: sending works, each
-- request is served before the call returns, and its answer arrives. On it the connection is never lost, so
-- that what .Operator, .Live, .Disarmed, .Served and .Screen say of it does not reach the path that
-- connects again. That path is in .Requests and .Reconnects, which allow any answers and errors of the
-- network. In Telemetry.Updates a read lock and the sending may fail, and their errors are dropped as the
-- code drops them. The telemetry thread is cancelled between two rounds, and at no point inside one.
--
-- Loops. The loops over tables are recursions over them. Endless loops are cut into rounds: the receive
-- loop runs for a number of messages, the accept loop for a number of connections or into one that is not
-- over, the scan of the switches is one signal's worth. The loop that reads a header has fuel for its two
-- bytes, since each round adds at least one byte; the loop that connects has fuel for its attempts, one
-- more than those that fail. The mock telemetry, the sensor telemetry and the telemetry client run for a
-- number of rounds. Each loop of the calibration has fuel for its rounds, enough where the samples that it
-- waits for arrive in so many; so has the rest of a typed line and the wait for the console.
--
-- Floating point is a record of operations without laws (Sensors.Floats); where bits are counted, that a
-- conversion to an `int32_t` has 32 bits is a hypothesis. `getopt` is an argument: the list of its answers.
-- The C library's `strtoul` and `strtok_r` are functions of Libc, in a C locale.
--
-- Not modelled: log lines and the text of the output, and the logging and assertion macros. A number
-- outside of the range of an `int` given to `atoi` is undefined behaviour in C, and is read here as
-- `strtoul` reads it.
pub mod Base
pub mod Packet
pub mod Os
pub mod Actuator
pub mod PadState
pub mod Controller
pub mod Telemetry
pub mod TelemClient
pub mod ControlClient
pub mod Sensors
pub mod SensorTelemetry
pub mod Libc
pub mod MockTelemetry
pub mod TelemetryThread
pub mod PadServer
mod Examples
