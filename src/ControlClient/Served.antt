-- ===== src/ControlClient/Served.antt =====
-- The whole of the control client (control_client/src/control_client_main.c, both builds) against the receive loop of the
-- pad server (pad_server/src/controller.c), over any number of connections.
use hysim.Base.{ℕ, ◌≡◌, ◌≢◌, List, ◌++◌, ℤ, pos}
use hysim.Os.{Devices, Locks, Sockets, Signals, SockOpt}
use hysim.Libc.{Opt}
use hysim.Controller.{Controller}
use hysim.Controller.Channel.{Channel}
use hysim.ControlClient.{PadLink}
use hysim.ControlClient.Switches.{Switch}
use hysim.ControlClient.Loop.{PanelBuild, keys, pins, panel_main}
use hysim.ControlClient.Box.{IsBox}
use hysim.ControlClient.Account.{Account}
use hysim.ControlClient.Lockstep.{Ends, IsIdle, network}
use hysim.ControlClient.Live.{rule_of, Played, Apart, ApartBuild, live_account, panel_rounds-Idle}
use hysim.ControlClient.Disarmed.{KeyedOrSafe, Played-SafeAt}
use hysim.ControlClient.SetUp.{CalmNet, CalmBuild}
use hysim.ControlClient.Whole.{Course, Unseen, panel_main-Rel}

module _ {S : Type 0} (locks : Locks S) (os : Devices S) (server : Sockets S) (c : Controller)
    (ch : Channel locks server c.client) (deliver : List ℕ → S → S)
    (deliver_line : (bs : List ℕ) (w : S)
      → ch.line (deliver bs w) ≡ ((ch.line w).0 ++ bs, (ch.line w).1))
    (base : Sockets (Ends S)) (signals : Signals (Ends S)) where
  abbrev net : Sockets (Ends S)
  net = network locks os server c ch deliver base

  abbrev no_link : PadLink
  no_link = record { sock = pos 0; sin_addr = 0; sin_port = 0 }

  abbrev Quiet : Ends S → Ends S → Type 0
  Quiet = Apart locks os server c ch deliver deliver_line base

  -- The calls of the client besides `send` and `recv` leave the server and its acknowledgements alone.
  pub record ApartMain : Type 0 where
    pub socket_apart : (e : Ends S) → Quiet e (base.socket_stream e).1
    pub setsockopt_apart : (fd : ℤ) (o : SockOpt) (e : Ends S) → Quiet e (base.setsockopt fd o e).1
    pub inet_pton_apart : (text : List ℕ) (e : Ends S) → Quiet e (base.inet_pton text e).1
    pub connect_apart :
        (fd : ℤ) (addr port : ℕ) (e : Ends S) → Quiet e (base.connect fd addr port e).1
    pub sleep_apart : (n : ℕ) (e : Ends S) → Quiet e (base.sleep n e).1
    pub close_sock_apart : (fd : ℤ) (e : Ends S) → Quiet e (base.close_sock fd e).1
    pub sigwaitinfo_apart : (e : Ends S) → Quiet e (signals.sigwaitinfo e).1
    pub debounce_apart : (us : ℕ) (e : Ends S) → Quiet e (signals.debounce_us us e).1
    pub getc_apart : (e : Ends S) → Quiet e (signals.getc e).1
    pub register_apart : (fd : ℤ) (i : ℕ) (e : Ends S) → Quiet e (signals.gpioc_register fd i e).1

  module _ (calls : ApartMain) where
    abbrev BuildApart : PanelBuild (Ends S) → Type 0
    BuildApart = ApartBuild locks os server c ch deliver deliver_line base

    abbrev account : PanelBuild (Ends S) → Account net no_link
    account build =
        live_account locks os server c ch deliver deliver_line base no_link (rule_of build)

    live_course : (build : PanelBuild (Ends S)) → BuildApart build → Course net signals build
    live_course build apart = record {
      Good = (account build).Good;
      Rel = (account build).Rel;
      still = (account build).still;
      trans = (account build).trans;
      keeps = (account build).keeps;
      rounds = λ link n fuel p ok. (λ idle box.
          panel_rounds-Idle locks os server c ch deliver deliver_line base link signals
            (record {
              close_sock_apart = calls.close_sock_apart link.sock;
              sigwaitinfo_apart = calls.sigwaitinfo_apart;
              debounce_apart = calls.debounce_apart;
              getc_apart = calls.getc_apart;
            })
            build n fuel p apart box idle);
    }

    unseen :
        (build : PanelBuild (Ends S)) (w v : Ends S)
        → Quiet w v
        → (sws : List Switch) → (account build).Rel (sws, w) (sws, v)
    unseen build w v quiet sws = (account build).unseen sws w v quiet

    live_calls :
        (build : PanelBuild (Ends S)) (apart : BuildApart build)
        → CalmNet net (Unseen net signals build (live_course build apart))
    unfolding live_course
    live_calls build apart = record {
      rest = λ w sws. (account build).still (sws, w);
      chain = λ u v w first second sws.
          (account build).trans (sws, u) (sws, v) (sws, w) (first sws) (second sws);
      setsockopt_calm =
          λ fd o w. unseen build w (base.setsockopt fd o w).1 (calls.setsockopt_apart fd o w);
      inet_pton_calm =
          λ text w. unseen build w (base.inet_pton text w).1 (calls.inet_pton_apart text w);
      connect_calm = λ fd addr port w.
          unseen build w (base.connect fd addr port w).1 (calls.connect_apart fd addr port w);
      sleep_calm = λ n w. unseen build w (base.sleep n w).1 (calls.sleep_apart n w);
    }

    live_pins :
        (build : PanelBuild (Ends S)) (apart : BuildApart build)
        → CalmBuild net
            (Unseen net signals build (live_course build apart))
            (live_calls build apart)
            signals
            build
    unfolding live_course
    live_pins keys apart = tt
    live_pins (pins box) apart = record {
      open_calm = λ dev w. unseen (pins box) w (box.open_dev dev w).1 (apart.open_apart dev w);
      register_calm = λ fd i w.
          unseen (pins box) w (signals.gpioc_register fd i w).1 (calls.register_apart fd i w);
      close_calm = λ fd w. unseen (pins box) w (box.close fd w).1 (apart.close_apart fd w);
    }

    pub panel_main-Idle :
        (build : PanelBuild (Ends S)) (k n fuel : ℕ) (opts : List Opt) (p : List Switch × Ends S)
        → BuildApart build
        → IsBox p.0
        → IsIdle locks os server c ch deliver p.1
        → let r = (panel_main net signals build k n fuel opts p).1 in
          Played locks os server c ch deliver deliver_line base (rule_of build) p r
          × IsIdle locks os server c ch deliver r.1
    unfolding live_course
    panel_main-Idle build k n fuel opts p apart ok idle =
        panel_main-Rel net signals build (live_course build apart) (live_calls build apart)
          (λ w. unseen build w (base.socket_stream w).1 (calls.socket_apart w))
          (live_pins build apart) k n fuel opts p (ok, idle) idle ok

    -- Both builds of the control client from their options on, with the switches of the table in any states
    -- and nothing on its way, granted locks, drivers that never fail, a network in lockstep that loses no
    -- connection, and other calls that send nothing and leave the server alone; in any number of
    -- connections and of rounds of each, whatever the options, and whatever is typed and the pins read. The
    -- requests sent are those of switches thrown, in order, the switches are as they were thrown last, each
    -- throw met the rule of the build, and the pad server's level and actuators are those of the abstract
    -- machine after those requests.
    pub panel_main-Played :
        (build : PanelBuild (Ends S)) (k n fuel : ℕ) (opts : List Opt) (p : List Switch × Ends S)
        → ApartBuild locks os server c ch deliver deliver_line base build
        → IsBox p.0
        → IsIdle locks os server c ch deliver p.1
        → Played locks os server c ch deliver deliver_line base
            (rule_of build)
            p
            (panel_main (network locks os server c ch deliver base) signals build k n fuel opts p).1
    panel_main-Played build k n fuel opts p apart ok idle =
        (panel_main-Idle build k n fuel opts p apart ok idle).0

    -- The control box from its options on with a pad server at `ARMED_PAD` and nothing on its way, granted
    -- locks, drivers that never fail, a network in lockstep that loses no connection, and other calls that
    -- send nothing and leave the server alone; in any number of connections and rounds, whatever the
    -- options and whatever the pins read. The requests sent are those of switches thrown, in order, and the
    -- switches are as they were thrown last. Either one of the throws asked for a level that needs the
    -- arming key and left the key on, or the server is still at `ARMED_PAD`, and the recorded state of each
    -- actuator but the dump valve is as before.
    pub panel_main-SafeAt :
        (box : Devices (Ends S)) (k n fuel i : ℕ) (opts : List Opt) (p : List Switch × Ends S)
        → ApartBuild locks os server c ch deliver deliver_line base (pins box)
        → IsBox p.0
        → IsIdle locks os server c ch deliver p.1
        → p.1.pad.0.arm_level ≡ 0
        → i ≢ 14
        → KeyedOrSafe locks os server c ch deliver deliver_line base i p
            (panel_main
              (network locks os server c ch deliver base)
              signals
              (pins box)
              k
              n
              fuel
              opts
              p).1
    panel_main-SafeAt box k n fuel i opts p apart ok idle level not_dump =
        Played-SafeAt locks os server c ch deliver deliver_line base box i p
          (panel_main net signals (pins box) k n fuel opts p).1 ok level not_dump
          (panel_main-Played (pins box) k n fuel opts p apart ok idle)
