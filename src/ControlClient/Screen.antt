-- ===== src/ControlClient/Screen.antt =====
-- From a switch to the screen: the control client (control_client/src/control_client_main.c), the receive loop and the
-- telemetry of the pad server (pad_server/src/controller.c and telemetry.c), and the telemetry client
-- (telem_client/src/telem_client_main.c).
use hysim.Base.{ℕ, ◌≡◌, ◌∙◌, ap, Bool, List, [], ◌∷◌, ◌++◌}
use hysim.Packet.{arm_state_str}
use hysim.Os.{Devices, Locks, Sockets, Signals, Datagrams}
use hysim.Libc.{Opt}
use hysim.Controller.{Controller}
use hysim.Controller.Channel.{Channel}
use hysim.Controller.Machine.{Pad, view}
use hysim.Telemetry.{TelemetrySock, telemetry_send_padstate, time_ms_of}
use hysim.Telemetry.Snapshot.{Outbox, send_padstate-snapshot}
use hysim.TelemClient.{Stream, Vars, printed, arming_state, round}
use hysim.TelemClient.Shows.{Inbox}
use hysim.TelemClient.Heartbeat.{round-snapshot}
use hysim.ControlClient.Switches.{Switch}
use hysim.ControlClient.Loop.{PanelBuild, panel_main}
use hysim.ControlClient.Box.{IsBox}
use hysim.ControlClient.ArmingKey.{play, requests}
use hysim.ControlClient.Lockstep.{Ends, IsIdle, network}
use hysim.ControlClient.Operator.{answers}
use hysim.ControlClient.Live.{AllMeet, ApartBuild, rule_of}
use hysim.ControlClient.Served.{ApartMain, panel_main-Idle}

module _ {S C : Type 0} (locks : Locks S) (os : Devices S) (server : Sockets S) (c : Controller)
    (ch : Channel locks server c.client) (deliver : List ℕ → S → S)
    (deliver_line : (bs : List ℕ) (w : S)
      → ch.line (deliver bs w) ≡ ((ch.line w).0 ++ bs, (ch.line w).1))
    (base : Sockets (Ends S)) (signals : Signals (Ends S))
    (calls : ApartMain locks os server c ch deliver deliver_line base signals)
    (dgrams : Datagrams S) (sock : TelemetrySock) (outbox : Outbox locks dgrams sock.sock)
    (client : Datagrams C) (stream : Stream) (inbox : Inbox client stream.sock) where
  open outbox use {sent}
  open inbox use {waiting}

  -- The control client runs against the pad server from its options on, with the switches of the table in
  -- any states and nothing on its way, granted locks, drivers that never fail, a network in lockstep that
  -- loses no connection, and other calls that send nothing and leave the server alone; then the server
  -- sends its state once. If that datagram is the next that waits at the telemetry client: the requests
  -- sent are those of switches thrown, in order, the switches are as they were thrown last, each throw met
  -- the rule of the build, and a round of the telemetry client prints the arming level at which the
  -- abstract machine is after those requests, with the time of sending.
  pub panel_main-shown :
      (build : PanelBuild (Ends S)) (k n fuel : ℕ) (opts : List Opt) (p : List Switch × Ends S)
      (v : Vars) (ds : List (List ℕ)) (w : C)
      → ApartBuild locks os server c ch deliver deliver_line base build
      → IsBox p.0
      → IsIdle locks os server c ch deliver p.1
      → ((d : List ℕ)
          → let q =
              (panel_main
                (network locks os server c ch deliver base)
                signals
                build
                k
                n
                fuel
                opts
                p).1.1.pad in
            sent (telemetry_send_padstate locks dgrams sock q).1.1 ≡ sent q.1 ++ d ∷ []
            → waiting w ≡ d ∷ ds)
      → let net = network locks os server c ch deliver base in
        let (switches, ends) = (panel_main net signals build k n fuel opts p).1 in
        let (sec, nsec) = (dgrams.clock_gettime ends.pad.1).0 in
        (ts : List (ℕ × Bool)) × (switches ≡ play ts p.0)
        × (ends.sent ≡ p.1.sent ++ requests ts p.0)
        × AllMeet (rule_of build) ts p.0
        × ((round client stream v w).0.0
            ≡ printed (
                arming_state
                  (arm_state_str (answers net ts p.0 (view p.1.pad.0)).1.level)
                  (time_ms_of sec nsec)))
  panel_main-shown build k n fuel opts p v ds w apart ok idle delivered =
      let net = network locks os server c ch deliver base in
      let (_, ends) = (panel_main net signals build k n fuel opts p).1 in
      let (sec, nsec) = (dgrams.clock_gettime ends.pad.1).0 in
      let (played, after) =
        panel_main-Idle locks os server c ch deliver deliver_line base signals calls build k n fuel
          opts p apart ok idle in
      let (_, sends) = send_padstate-snapshot locks dgrams sock outbox ends.pad in
      let (shown, _) =
        round-snapshot client stream inbox ends.pad.0 sec nsec ds v w after.ready.in_range
          (delivered _ sends) in
      (
        played.throws,
        played.plays,
        played.sends,
        played.meets,
        shown
            ∙ ap
                (λ (pad : Pad).
                  printed (arming_state (arm_state_str pad.level) (time_ms_of sec nsec)))
                played.machine,
      )
