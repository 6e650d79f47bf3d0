-- ===== src/ControlClient/Reconnects.antt =====
-- Which sockets the control client (control_client/src/control_client_main.c, both builds) holds open from its options
-- on, over any number of connections.
use hysim.Base.{
  ℕ, zero, suc, ◌≡◌, refl, sym, ◌∙◌, Option, none, some, List, ◌++◌, ℤ, negsuc, arith, ap₂, if-elim,
  ◌==◌,
}
use hysim.Os.{Signals, Sockets}
use hysim.Libc.{Opt}
use hysim.Controller.Descriptors.{one}
use hysim.ControlClient.{PadLink, pad_address, pad_init, pad_connect_forever}
use hysim.ControlClient.Switches.{Switch}
use hysim.ControlClient.Loop.{
  PadAddress, default_address, PanelOptions, connect_to, panel_stop, parse_panel_opts, PanelNext,
  wait_again, connect_again, panel_exit, PanelBuild, keys, pins, panel_rounds, connected_rounds,
  session, sessions, register_switches, start_panel, panel_main,
}
use hysim.ControlClient.SetUp.{
  CalmNet, CalmBuild, init_calm, connect_forever_calm, opts_calm, switches_calm,
}
use hysim.ControlClient.Closing.{OpenSockets, BuildOpens}
use hysim.ControlClient.OpenRounds.{After, panel_rounds-opens}

module _ {W : Type 0} (net : Sockets W) (signals : Signals W) (sockets : OpenSockets net signals)
    (before : List ℤ) where
  open sockets use {
    opens, socket_opens, setsockopt_opens, inet_pton_opens, connect_opens, sleep_opens,
    register_opens, sigwaitinfo_opens, debounce_opens, getc_opens,
  }

  -- One socket at most, and none where the client is to connect again.
  abbrev pub AtMostOne : PanelNext → W → Type 0
  AtMostOne wait_again w = (fd : ℤ) × (opens w ≡ one fd ++ before)
  AtMostOne connect_again w = opens w ≡ before
  AtMostOne (panel_exit e) w = (fd : ℤ) × (opens w ≡ one fd ++ before)

  abbrev Held : PanelNext × (List Switch × W) → Type 0
  Held t = AtMostOne t.0 t.1.1

  rounds_lem :
      (next : PanelNext) (fd : ℤ) (w : W)
      → After net signals sockets before next fd w
      → AtMostOne next w
  rounds_lem wait_again fd w h = (fd, h)
  rounds_lem connect_again fd w h = h
  rounds_lem (panel_exit e) fd w h = (fd, h)

  abbrev Calm : W → W → Type 0
  Calm w v = opens v ≡ opens w

  abbrev calls : CalmNet net Calm
  calls = record {
    rest = λ w. refl;
    chain = λ u v w k l. l ∙ k;
    setsockopt_calm = setsockopt_opens;
    inet_pton_calm = inet_pton_opens;
    connect_calm = connect_opens;
    sleep_calm = sleep_opens;
  }

  init_sock :
      (pad : PadLink) (ip : List ℕ) (port : ℕ) (w : W)
      → (pad_init net pad ip port w).0.1.sock ≡ (net.socket_stream w).0
  unfolding pad_init pad_address
  init_sock pad ip port w = ground arith

  module _ (build : PanelBuild W) (box : BuildOpens opens build) where
    connected-opens :
        (n fuel : ℕ) (pad : PadLink) (status : Option ℕ) (p : List Switch × W)
        → opens p.1 ≡ one pad.sock ++ before
        → Held (connected_rounds net signals build n fuel pad status p)
    unfolding connected_rounds
    connected-opens n fuel pad none p h = (pad.sock, h)
    connected-opens n fuel pad (some err) p h =
        let (next, p1) = panel_rounds net signals pad build n fuel p in
        if-elim (err == 0) Held
          (λ e.
            rounds_lem next pad.sock p1.1
              (panel_rounds-opens net signals sockets before pad build n fuel p box h))
          (λ e. (pad.sock, h))

    session-opens :
        (n fuel : ℕ) (pad : PadLink) (address : PadAddress) (p : List Switch × W)
        → opens p.1 ≡ before
        → Held (session net signals build n fuel pad address p)
    unfolding session
    session-opens n fuel pad address p h =
        let ((err, pad1), w1) = pad_init net pad address.ip address.port p.1 in
        let (status, w2) = pad_connect_forever net pad1 fuel w1 in
        let h1 : opens w1 ≡ one pad1.sock ++ before =
          init_calm net Calm calls pad address.ip address.port p.1
          ∙ socket_opens p.1
          ∙ ap₂ (λ (fd : ℤ) (fds : List ℤ). one fd ++ fds)
              (sym (init_sock pad address.ip address.port p.1)) h in
        if-elim (err == 0) Held
          (λ e.
            connected-opens n fuel pad1 status (p.0, w2)
              (connect_forever_calm net Calm calls pad1 fuel w1 ∙ h1))
          (λ e. (pad1.sock, h1))

    abbrev connect_on :
        PanelNext → PanelNext × (List Switch × W) → List Switch × W → PanelNext × (List Switch × W)
    connect_on next rest p = elim next [
      | connect_again ↦ rest
      | wait_again ↦ (wait_again, p)
      | panel_exit e ↦ (panel_exit e, p)
    ]

    sessions-opens :
        (k n fuel : ℕ) (pad : PadLink) (address : PadAddress) (p : List Switch × W)
        → opens p.1 ≡ before
        → Held (sessions net signals k build n fuel pad address p)
    unfolding sessions
    sessions-opens zero n fuel pad address p h = h
    sessions-opens (suc k) n fuel pad address p h =
        let (next, p1) = session net signals build n fuel pad address p in
        let rest = sessions net signals k build n fuel pad address p1 in
        let first = session-opens n fuel pad address p h in
        (elim next as (λ (x : PanelNext). AtMostOne x p1.1 → Held (connect_on x rest p1)) [
          | wait_again ↦ (λ m. m)
          | connect_again ↦ (λ m. sessions-opens k n fuel pad address p1 m)
          | panel_exit e ↦ (λ m. m)
        ])
          first

    calm_build : (x : PanelBuild W) → BuildOpens opens x → CalmBuild net Calm calls signals x
    calm_build keys b = tt
    calm_build (pins os) b = record {
      open_calm = b.open_opens;
      register_calm = register_opens;
      close_calm = b.close_opens;
    }

    start_panel-opens :
        (k n fuel : ℕ) (pad : PadLink) (options : PanelOptions) (p : List Switch × W)
        → opens p.1 ≡ before
        → Held (start_panel net signals build k n fuel pad options p)
    unfolding start_panel
    start_panel-opens k n fuel pad (panel_stop e) p h = (negsuc 0, h)
    start_panel-opens k n fuel pad (connect_to address) p h =
        let (registered, w1) = register_switches net signals build p.0 p.1 in
        let still = switches_calm net Calm calls signals build p.0 p.1 (calm_build build box) ∙ h in
        if-elim registered Held (λ e. sessions-opens k n fuel pad address (p.0, w1) still)
          (λ e. (negsuc 0, still))

    -- Where closing the last socket opened works: from its options on, whatever they are, in any number of
    -- connections and rounds of each, and whatever else the calls of the client answer, the client has at
    -- most one socket open besides those that were open before it, and none where it is to connect again.
    pub panel_main-AtMostOne :
        (k n fuel : ℕ) (opts : List Opt) (p : List Switch × W)
        → opens p.1 ≡ before
        → let (next, q) = panel_main net signals build k n fuel opts p in AtMostOne next q.1
    unfolding panel_main
    panel_main-AtMostOne k n fuel opts p h =
        let (options, w1) = parse_panel_opts net opts default_address p.1 in
        start_panel-opens k n fuel (record { sock = negsuc 0; sin_addr = 0; sin_port = 0 }) options
          (p.0, w1) (opts_calm net Calm calls opts default_address p.1 ∙ h)
