-- ===== src/Examples/Boxes.antt =====
-- The control client on a cable, alone and with the pad server at the other end.
use hysim.Base.{
  ℕ, Bool, inl, inr, arith, ◌++◌, ◌≡◌, refl, return, true, false, List, [], ◌∷◌, pos, some, get_or,
  set,
}
use hysim.PadState.{padstate_init}
use hysim.Controller.Machine.{view}
use hysim.ControlClient.{PadLink, pad_connect_forever}
use hysim.ControlClient.Switches.{Switch}
use hysim.ControlClient.Panel.{no_switch, switches_table}
use hysim.ControlClient.Loop.{panel_main, pins}
use hysim.Libc.{Opt}
use hysim.ControlClient.Requests.{SentLog, panel_main-Keyed}
use hysim.ControlClient.Served.{ApartMain, panel_main-Played, panel_main-SafeAt}
use hysim.ControlClient.ArmingKey.{Keyed, play}
use hysim.Os.{Devices, Signals, Sockets}
use hysim.ControlClient.Lockstep.{Ends, IsIdle, network}
use hysim.ControlClient.Operator.{flips, answers, flips-answers}
use hysim.ControlClient.Disarmed.{KeyedOrSafe}
use hysim.ControlClient.Live.{ApartPins, Played, rule_of}
use hysim.ControlClient.Retries.{pad_connect_forever-AreAttempts}
use hysim.Examples.Systems.{Cable, granted, working, sockets, quiet, plain}
use hysim.Examples.Links.{server, cable, talking, talking-IsReady, talking-obedient, cable_line}

abbrev pub link : PadLink
link = record { sock = pos 3; sin_addr = 2130706433; sin_port = 50001 }

abbrev pub ignition : Switch
ignition = get_or switches_table 17 no_switch

-- Every pin reads on.
abbrev pub pulled : {W : Type 0} → Devices W
pulled = record working { gpioc_read = λ fd. return (pos 0, false) }

-- The ignition switch is on and its pin reads off, with the valve arming switch off.
abbrev box : List Switch × Cable
box = (set switches_table 17 (record ignition { state = true }), quiet)

abbrev pub silent : {W : Type 0} → Signals W
silent = record {
  gpioc_register = λ fd i. return (pos 0);
  sigwaitinfo = return (pos 1);
  debounce_us = λ us. return tt;
  getc = return 10;
}

-- Every attempt to connect succeeds.
abbrev accepting : Sockets Cable
accepting = record sockets { connect = λ fd addr port. return (pos 0) }

abbrev box_log : SentLog pulled accepting silent
box_log = record {
  sent = λ w. w.output;
  send_sent = λ fd bs w. refl;
  recv_sent = λ fd n w. refl;
  close_sock_sent = λ fd w. refl;
  socket_sent = λ w. refl;
  setsockopt_sent = λ fd o w. refl;
  inet_pton_sent = λ text w. refl;
  connect_sent = λ fd addr port w. refl;
  sleep_sent = λ n w. refl;
  open_sent = λ dev w. refl;
  read_sent = λ fd w. refl;
  close_sent = λ fd w. refl;
  register_sent = λ fd i w. refl;
  sigwaitinfo_sent = λ w. refl;
  debounce_sent = λ us w. refl;
}

-- Another port, and three rounds of the only connection, in which every switch with a pin is thrown.
abbrev pub options : List Opt
options = record { letter = 112; optarg = 53 ∷ 51 ∷ [] } ∷ []

panel_main-Keyed_example :
    Keyed
      (λ (w : Cable). w.output)
      box
      (panel_main accepting silent (pins pulled) 1 3 1 options box).1
panel_main-Keyed_example = panel_main-Keyed pulled accepting silent box_log 1 3 1 options box refl

-- Two attempts are refused.
abbrev refused_once : Cable
refused_once = record quiet { output = [] ∷ [] }

abbrev refused_twice : Cable
refused_twice = record quiet { output = [] ∷ [] ∷ [] }

pad_connect_forever-AreAttempts_example :
    pad_connect_forever sockets link 5 quiet ≡ (some 0, refused_twice)
pad_connect_forever-AreAttempts_example =
    pad_connect_forever-AreAttempts sockets link 2 2 0 quiet refused_twice (
      111,
      refused_once,
      inl (refl, refl, refl),
      inl refl,
      (
        111,
        refused_twice,
        inl (refl, refl, refl),
        inl refl,
        (
          refused_twice,
          inr (refl, inl (refl, inl (refl, inl (refl, inl (refl, (refl, refl)))))),
          λ retried. ground (arith, retried),
          refl,
        ),
      ),
    )

abbrev pub deliver : List ℕ → Cable → Cable
deliver bs w = record w { input = w.input ++ bs }

abbrev pub network_of : Sockets (Ends Cable)
network_of = network granted working sockets server cable deliver plain

-- A pad server after start-up, with nothing on its way.
abbrev pub idle : Ends Cable
idle = record { pad = (talking.0, quiet); acks = []; sent = [] }

pub idle-IsIdle : IsIdle granted working sockets server cable deliver idle
unfolding padstate_init
idle-IsIdle = record {
  no_acks = refl;
  no_bytes = refl;
  ready = record { in_range = talking-IsReady.in_range; obedient = talking-obedient cable_line };
}

-- The arming key, ignition, the quick disconnect, and the fire valve too early.
abbrev operator : List (ℕ × Bool)
operator = (16, true) ∷ (17, true) ∷ (12, true) ∷ (4, true) ∷ []

flips-answers_example :
    let r = flips network_of link operator (switches_table, idle) in
    let m = answers network_of operator switches_table (view idle.pad.0) in
    (r.0 ≡ m.0) × (r.1.0 ≡ play operator switches_table) × (view r.1.1.pad.0 ≡ m.1)
flips-answers_example =
    flips-answers granted working sockets server cable deliver (λ bs w. refl) plain link operator
      switches_table idle refl idle-IsIdle

too_early :
    (answers network_of operator switches_table (view idle.pad.0)).0
    ≡ pos 0 ∷ pos 0 ∷ pos 0 ∷ pos 1 ∷ []
unfolding padstate_init
too_early = refl

pub apart : ApartMain granted working sockets server cable deliver (λ bs w. refl) plain silent
apart = record {
  socket_apart = λ e. (refl, refl, refl);
  setsockopt_apart = λ fd o e. (refl, refl, refl);
  inet_pton_apart = λ text e. (refl, refl, refl);
  connect_apart = λ fd addr port e. (refl, refl, refl);
  sleep_apart = λ n e. (refl, refl, refl);
  close_sock_apart = λ fd e. (refl, refl, refl);
  sigwaitinfo_apart = λ e. (refl, refl, refl);
  debounce_apart = λ us e. (refl, refl, refl);
  getc_apart = λ e. (refl, refl, refl);
  register_apart = λ fd i e. (refl, refl, refl);
}

pub pulled_apart :
    ApartPins granted working sockets server cable deliver (λ bs w. refl) plain pulled
pulled_apart = record {
  open_apart = λ dev e. (refl, refl, refl);
  read_apart = λ fd e. (refl, refl, refl);
  close_apart = λ fd e. (refl, refl, refl);
}

panel_main-Played_example :
    Played granted working sockets server cable deliver
      (λ bs w. refl)
      plain
      (rule_of {W = Ends Cable} (pins pulled))
      (switches_table, idle)
      (panel_main network_of silent (pins pulled) 1 3 1 options (switches_table, idle)).1
panel_main-Played_example =
    panel_main-Played granted working sockets server cable deliver (λ bs w. refl) plain silent apart
      (pins pulled) 1 3 1 options (switches_table, idle) pulled_apart refl idle-IsIdle

-- The fire valve.
panel_main-SafeAt_example :
    KeyedOrSafe granted working sockets server cable deliver
      (λ bs w. refl)
      plain
      5
      (switches_table, idle)
      (panel_main network_of silent (pins pulled) 1 3 1 options (switches_table, idle)).1
unfolding padstate_init
panel_main-SafeAt_example =
    panel_main-SafeAt granted working sockets server cable deliver (λ bs w. refl) plain silent apart
      pulled 1 3 1 5 options (switches_table, idle) pulled_apart refl idle-IsIdle refl (λ e. cc)
