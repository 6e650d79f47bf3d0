-- ===== src/TelemClient/Heartbeat.antt =====
-- The telemetry client (telem_client/src/telem_client_main.c) on what `telemetry_send_padstate` of
-- pad_server/src/telemetry.c sends.
use hysim.Base.{ℕ, ◌≤◌, ◌≡◌, ◌∙◌, refl, ap, List, ◌∷◌, arith}
use hysim.Packet.{u8, arm_state_str}
use hysim.Packet.Message.{Body, arm, conn, encode_messages}
use hysim.Os.{Datagrams}
use hysim.PadState.{PadState}
use hysim.Telemetry.{time_ms_of}
use hysim.Telemetry.Snapshot.{snapshot, actuator_bodies}
use hysim.TelemClient.{Stream, Vars, printed, arming_state, round}
use hysim.TelemClient.Shows.{Inbox, round-shown}

module _ {W : Type 0} (dgrams : Datagrams W) (stream : Stream)
    (box : Inbox dgrams stream.sock) where
  open box use {waiting}

  -- A snapshot of a pad state with a level in range waits: the round prints its arming level and its time, and
  -- takes the datagram off with the connection status and all the actuators, which are not shown.
  pub round-snapshot :
      {V : Type 0} (s : PadState V) (sec nsec : ℕ) (ds : List (List ℕ)) (v : Vars) (w : W)
      → s.arm_level ≤ 4
      → waiting w ≡ encode_messages (snapshot s (time_ms_of sec nsec)) ∷ ds
      → let t = round dgrams stream v w in
        (t.0.0 ≡ printed (arming_state (arm_state_str s.arm_level) (time_ms_of sec nsec)))
        × (waiting t.1 ≡ ds)
  unfolding encode_messages time_ms_of
  round-snapshot s sec nsec ds v w h q =
      let time : ℕ = time_ms_of sec nsec in
      let level : u8 s.arm_level ≡ s.arm_level = ground arith in
      let first : Body = arm (record { time = time; state = u8 s.arm_level }) in
      let others : List Body =
        conn (record { time = time; status = u8 s.conn_status }) ∷ actuator_bodies s time 15 0 in
      let (line, gone) =
        round-shown dgrams stream box first (arming_state (arm_state_str (u8 s.arm_level)) time)
          (encode_messages others) ds v w (ground arith, ground arith) refl q in
      (line ∙ ap (λ (l : ℕ). printed (arming_state (arm_state_str l) time)) level, gone)
