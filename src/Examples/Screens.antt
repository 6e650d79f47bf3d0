-- ===== src/Examples/Screens.antt =====
-- The telemetry of the pad server and the telemetry client that shows it.
use hysim.Base.{ℕ, Bool, ◌≡◌, refl, ◌∙◌, ap, List, [], ◌∷◌, ◌++◌, pos, arith}
use hysim.Packet.{ConnStatus}
use hysim.Packet.Message.{conn, encode_message, encode_messages}
use hysim.PadState.{PadState}
use hysim.Controller.Machine.{view}
use hysim.Telemetry.{TelemetrySock, telemetry_send_padstate, time_ms_of}
use hysim.Telemetry.Snapshot.{Outbox, snapshot, send_padstate-snapshot}
use hysim.TelemClient.{arming_state, Stream, Vars, printed, ignored, round}
use hysim.Packet.{arm_state_str}
use hysim.TelemClient.Heartbeat.{round-snapshot}
use hysim.ControlClient.Panel.{switches_table}
use hysim.ControlClient.Loop.{panel_main, pins}
use hysim.ControlClient.ArmingKey.{play, requests}
use hysim.ControlClient.Lockstep.{Ends}
use hysim.ControlClient.Operator.{answers}
use hysim.ControlClient.Live.{AllMeet, rule_of}
use hysim.ControlClient.Screen.{panel_main-shown}
use hysim.Examples.Boxes.{
  pulled, silent, options, deliver, network_of, idle, idle-IsIdle, apart, pulled_apart,
}
use hysim.TelemClient.Shows.{Inbox, round-conn_stuck}
use hysim.Examples.Systems.{
  Cable, granted, working, sockets, datagrams, quiet, plain, first_of, rest_of,
}
use hysim.Examples.Links.{server, cable, talking}

abbrev outbox : Outbox granted datagrams (pos 4)
outbox = record {
  sent = λ w. w.output;
  sendmsg_sent = λ bs w. refl;
  clock_sent = λ w. refl;
  rdlock_ok = λ w. refl;
  untouched = record {
    rdlock_line = λ w. refl;
    wrlock_line = λ w. refl;
    rwlock_unlock_line = λ w. refl;
    mutex_lock_line = λ w. refl;
    mutex_unlock_line = λ w. refl;
    cond_signal_line = λ w. refl;
  };
}

send_padstate-snapshot_example :
    let t =
      telemetry_send_padstate granted datagrams
        (record { sock = pos 4; addr = 0; sin_port = 50002 })
        talking in
    (t.1.0 ≡ talking.0)
    × (t.1.1.output ≡ encode_messages (snapshot talking.0 (time_ms_of 12 345678901)) ∷ [])
send_padstate-snapshot_example =
    send_padstate-snapshot granted datagrams (record { sock = pos 4; addr = 0; sin_port = 50002 })
      outbox talking

abbrev pub listener : Stream
listener = record { sock = pos 4; addr = 0 }

abbrev pub inbox : Inbox datagrams listener.sock
inbox = record {
  waiting = λ w. w.inbox;
  peek_first = λ n w d ds e. (ap (first_of n) e, e);
  recv_first = λ n w d ds e. (ap (first_of n) e, ap rest_of e);
}

abbrev pub fresh : Vars
fresh = record { hdr = 0 ∷ 0 ∷ []; buffer = [] }

abbrev connected : ConnStatus
connected = record { time = 1500; status = 0 }

round-conn_stuck_example :
    let w = record quiet { inbox = (encode_message (conn connected) ++ []) ∷ [] } in
    let t = round datagrams listener fresh w in
    (t.0.0 ≡ ignored) × (t.1.inbox ≡ (encode_message (conn connected) ++ []) ∷ [])
round-conn_stuck_example = round-conn_stuck datagrams listener inbox connected [] [] fresh _ refl

-- A snapshot at `ARMED_DISCONNECTED`.
abbrev disconnected : PadState Cable
disconnected = record (talking.0) { arm_level = 3 }

round-snapshot_example :
    let w = record quiet {
      inbox = encode_messages (snapshot disconnected (time_ms_of 12 345678901)) ∷ [];
    } in
    let t = round datagrams listener fresh w in
    (t.0.0 ≡ printed (arming_state (arm_state_str 3) (time_ms_of 12 345678901))) × (t.1.inbox ≡ [])
round-snapshot_example =
    round-snapshot datagrams listener inbox disconnected 12 345678901 [] fresh
      (record quiet {
        inbox = encode_messages (snapshot disconnected (time_ms_of 12 345678901)) ∷ [];
      })
      (omega arith) refl

-- The last datagram.
abbrev last_of : List (List ℕ) → List (List ℕ)
last_of [] = []
last_of (d ∷ []) = d ∷ []
last_of (d ∷ e ∷ ds) = last_of (e ∷ ds)

last_of_append : (ds : List (List ℕ)) (d : List ℕ) → last_of (ds ++ d ∷ []) ≡ d ∷ []
last_of_append [] d = refl
last_of_append (a ∷ []) d = refl
last_of_append (a ∷ b ∷ ds) d = last_of_append (b ∷ ds) d

abbrev telem_sock : TelemetrySock
telem_sock = record { sock = pos 4; addr = 0; sin_port = 50002 }

-- The pad server after a connection of the control box.
abbrev served : PadState Cable × Cable
served = (panel_main network_of silent (pins pulled) 1 3 1 options (switches_table, idle)).1.1.pad

abbrev watching : Cable
watching = record quiet {
  inbox = last_of (telemetry_send_padstate granted datagrams telem_sock served).1.1.output;
}

panel_main-shown_example :
    let (switches, ends) =
      (panel_main network_of silent (pins pulled) 1 3 1 options (switches_table, idle)).1 in
    (ts : List (ℕ × Bool)) × (switches ≡ play ts switches_table)
    × (ends.sent ≡ idle.sent ++ requests ts switches_table)
    × AllMeet (rule_of {W = Ends Cable} (pins pulled)) ts switches_table
    × ((round datagrams listener fresh watching).0.0
        ≡ printed (
            arming_state
              (arm_state_str (answers network_of ts switches_table (view idle.pad.0)).1.level)
              (time_ms_of 12 345678901)))
panel_main-shown_example =
    panel_main-shown granted working sockets server cable deliver (λ bs w. refl) plain silent apart
      datagrams telem_sock outbox datagrams listener inbox (pins pulled) 1 3 1 options
      (switches_table, idle) fresh [] watching pulled_apart refl idle-IsIdle
      (λ d e. ap last_of e ∙ last_of_append served.1.output d)
