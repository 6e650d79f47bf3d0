-- ===== src/TelemClient/Display.antt =====
-- From a request to the screen: the receive loop of pad_server/src/controller.c, the telemetry of
-- pad_server/src/telemetry.c and the telemetry client (telem_client/src/telem_client_main.c).
use hysim.Base.{ℕ, ◌≡◌, ◌∙◌, ap, List, [], ◌∷◌, ◌++◌, length}
use hysim.Packet.{arm_state_str}
use hysim.Os.{Devices, Locks, Sockets, Datagrams}
use hysim.PadState.{PadState}
use hysim.PadState.Invariant.{IsValid}
use hysim.Controller.{Controller}
use hysim.Controller.Channel.{Channel}
use hysim.Controller.Machine.{Request, AllEncodable, Pad, encode_requests, react_all, view}
use hysim.Controller.Messages.{receive_loop}
use hysim.Controller.Session.{IsReady, receive_loop-serves}
use hysim.Controller.Histories.{receive_loop-IsValid}
use hysim.Telemetry.{TelemetrySock, telemetry_send_padstate, time_ms_of}
use hysim.Telemetry.Snapshot.{Outbox, send_padstate-snapshot}
use hysim.TelemClient.{Stream, Vars, printed, arming_state, round}
use hysim.TelemClient.Shows.{Inbox}
use hysim.TelemClient.Heartbeat.{round-snapshot}

module _ {S C : Type 0} (locks : Locks S) (os : Devices S) (server : Sockets S) (c : Controller)
    (ch : Channel locks server c.client) (dgrams : Datagrams S) (sock : TelemetrySock)
    (outbox : Outbox locks dgrams sock.sock) (client : Datagrams C) (stream : Stream)
    (inbox : Inbox client stream.sock) where
  open ch use {line}
  open outbox use {sent}
  open inbox use {waiting}

  -- The requests have arrived at a pad server in a valid state, with granted locks and drivers that never fail; it
  -- serves them, and then sends its state once. If that datagram is the next that waits at the telemetry
  -- client: a round of the client prints the arming level at which the abstract machine is after the
  -- requests, with the time of sending.
  pub requests-shown :
      (qs : List Request) (rest : List ℕ) (out : List (List ℕ)) (p : PadState S × S) (v : Vars)
      (ds : List (List ℕ)) (w : C)
      → AllEncodable qs
      → IsValid p.0
      → IsReady locks os server c ch p
      → line p.1 ≡ (encode_requests qs ++ rest, out)
      → ((d : List ℕ)
          → let q = (receive_loop locks os server (length qs) c p).1 in
            sent (telemetry_send_padstate locks dgrams sock q).1.1 ≡ sent q.1 ++ d ∷ []
            → waiting w ≡ d ∷ ds)
      → let q = (receive_loop locks os server (length qs) c p).1 in
        let (sec, nsec) = (dgrams.clock_gettime q.1).0 in
        let level = (react_all qs (view p.0) out).0.level in
        (round client stream v w).0.0
        ≡ printed (arming_state (arm_state_str level) (time_ms_of sec nsec))
  requests-shown qs rest out p v ds w ok valid ready arrived delivered =
      let q : PadState S × S = (receive_loop locks os server (length qs) c p).1 in
      let (sec, nsec) = (dgrams.clock_gettime q.1).0 in
      let (_, state, _) = receive_loop-serves locks os server c ch qs rest out p ok ready arrived in
      let (_, sends) = send_padstate-snapshot locks dgrams sock outbox q in
      let after = receive_loop-IsValid locks os server (length qs) c p valid in
      let (shown, _) =
        round-snapshot client stream inbox q.0 sec nsec ds v w after.level (delivered _ sends) in
      shown
      ∙ ap (λ (pad : Pad). printed (arming_state (arm_state_str pad.level) (time_ms_of sec nsec)))
          state
