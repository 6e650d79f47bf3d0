-- ===== src/ControlClient/Whole.antt =====
-- The whole of the control client (`main` of control_client/src/control_client_main.c) from its options on: what
-- holds of the rounds of every connection, and of the calls between connections, holds of all of it.
use hysim.Base.{ℕ, zero, suc, Option, none, some, List, negsuc, ◌==◌, if-elim}
use hysim.Os.{Signals, Sockets}
use hysim.Libc.{Opt}
use hysim.ControlClient.{PadLink, pad_init, pad_connect_forever}
use hysim.ControlClient.Switches.{Switch}
use hysim.ControlClient.Loop.{
  PadAddress, default_address, PanelOptions, connect_to, panel_stop, parse_panel_opts, PanelBuild,
  PanelNext, wait_again, connect_again, panel_exit, panel_rounds, connected_rounds, session,
  sessions, register_switches, start_panel, panel_main,
}
use hysim.ControlClient.SetUp.{
  CalmNet, CalmBuild, init_calm, connect_forever_calm, opts_calm, switches_calm,
}

-- What is said of two states, and holds of the rounds of any connection.
pub record Course {W : Type 0} (net : Sockets W) (signals : Signals W) (build : PanelBuild W)
    : Type 1 where
  pub Good : List Switch × W → Type 0
  pub Rel : List Switch × W → List Switch × W → Type 0
  pub still : (p : List Switch × W) → Rel p p
  pub trans : (p q r : List Switch × W) → Rel p q → Rel q r → Rel p r
  pub keeps : (p r : List Switch × W) → Rel p r → Good p → Good r
  pub rounds :
      (link : PadLink) (n fuel : ℕ) (p : List Switch × W)
      → Good p
      → Rel p (panel_rounds net signals link build n fuel p).1

module _ {W : Type 0} (net : Sockets W) (signals : Signals W) (build : PanelBuild W)
    (course : Course net signals build) where
  open course use {Good, Rel, still, trans, keeps, rounds}

  -- A step of the world that leaves the switches.
  abbrev pub Unseen : W → W → Type 0
  Unseen w v = (sws : List Switch) → Rel (sws, w) (sws, v)

  module _ (calls : CalmNet net Unseen) (socket_unseen : (w : W) → Unseen w (net.socket_stream w).1)
      (calm : CalmBuild net Unseen calls signals build) where
    and_then : (p q r : List Switch × W) → Rel p q → (Good q → Rel q r) → Good p → Rel p r
    and_then p q r first rest ok = trans p q r first (rest (keeps p q first ok))

    connected-Rel :
        (n fuel : ℕ) (pad : PadLink) (status : Option ℕ) (p : List Switch × W)
        → Good p
        → Rel p (connected_rounds net signals build n fuel pad status p).1
    unfolding connected_rounds
    connected-Rel n fuel pad none p ok = still p
    connected-Rel n fuel pad (some err) p ok =
        if-elim (err == 0) (λ (r : PanelNext × (List Switch × W)). Rel p r.1)
          (λ e. rounds pad n fuel p ok) (λ e. still p)

    session-Rel :
        (n fuel : ℕ) (pad : PadLink) (address : PadAddress) (p : List Switch × W)
        → Good p
        → Rel p (session net signals build n fuel pad address p).1
    unfolding session
    session-Rel n fuel pad address p ok =
        let ((err, pad1), w1) = pad_init net pad address.ip address.port p.1 in
        let (status, w2) = pad_connect_forever net pad1 fuel w1 in
        let w0 : W = (net.socket_stream p.1).1 in
        let first =
          trans p (p.0, w0) (p.0, w1) (socket_unseen p.1 p.0)
            (init_calm net Unseen calls pad address.ip address.port p.1 p.0) in
        let second = connect_forever_calm net Unseen calls pad1 fuel w1 p.0 in
        if-elim (err == 0) (λ (r : PanelNext × (List Switch × W)). Rel p r.1)
          (λ e.
            and_then p (p.0, w2) (connected_rounds net signals build n fuel pad1 status (p.0, w2)).1
              (trans p (p.0, w1) (p.0, w2) first second)
              (connected-Rel n fuel pad1 status (p.0, w2)) ok)
          (λ e. first)

    abbrev go_on :
        PanelNext → PanelNext × (List Switch × W) → List Switch × W → PanelNext × (List Switch × W)
    go_on next rest p = elim next [
      | connect_again ↦ rest
      | wait_again ↦ (wait_again, p)
      | panel_exit e ↦ (panel_exit e, p)
    ]

    sessions-Rel :
        (k n fuel : ℕ) (pad : PadLink) (address : PadAddress) (p : List Switch × W)
        → Good p
        → Rel p (sessions net signals k build n fuel pad address p).1
    unfolding sessions
    sessions-Rel zero n fuel pad address p ok = still p
    sessions-Rel (suc k) n fuel pad address p ok =
        let (next, p1) = session net signals build n fuel pad address p in
        let rest = sessions net signals k build n fuel pad address p1 in
        let first = session-Rel n fuel pad address p ok in
        elim next as (λ (x : PanelNext). Rel p (go_on x rest p1).1) [
          | wait_again ↦ first
          | connect_again ↦ and_then p p1 rest.1 first (sessions-Rel k n fuel pad address p1) ok
          | panel_exit e ↦ first
        ]

    start_panel-Rel :
        (k n fuel : ℕ) (pad : PadLink) (options : PanelOptions) (p : List Switch × W)
        → Good p
        → Rel p (start_panel net signals build k n fuel pad options p).1
    unfolding start_panel
    start_panel-Rel k n fuel pad (panel_stop e) p ok = still p
    start_panel-Rel k n fuel pad (connect_to address) p ok =
        let (registered, w1) = register_switches net signals build p.0 p.1 in
        let first = switches_calm net Unseen calls signals build p.0 p.1 calm p.0 in
        if-elim registered (λ (r : PanelNext × (List Switch × W)). Rel p r.1)
          (λ e.
            and_then p (p.0, w1) (sessions net signals k build n fuel pad address (p.0, w1)).1 first
              (sessions-Rel k n fuel pad address (p.0, w1)) ok)
          (λ e. first)

    -- From the options to the end of the rounds that are looked at.
    pub panel_main-Rel :
        (k n fuel : ℕ) (opts : List Opt) (p : List Switch × W)
        → Good p
        → Rel p (panel_main net signals build k n fuel opts p).1
    unfolding panel_main
    panel_main-Rel k n fuel opts p ok =
        let (options, w1) = parse_panel_opts net opts default_address p.1 in
        let pad : PadLink = record { sock = negsuc 0; sin_addr = 0; sin_port = 0 } in
        and_then p (p.0, w1) (start_panel net signals build k n fuel pad options (p.0, w1)).1
          (opts_calm net Unseen calls opts default_address p.1 p.0)
          (start_panel-Rel k n fuel pad options (p.0, w1)) ok
