-- ===== src/ControlClient/SetUp.antt =====
-- The calls of the control client before its rounds: options, pins and connection (control_client/src/pad.c and
-- control_client_main.c), for any relation that the calls into the system keep to.
use Prim.Native.String.{String}
use hysim.Base.{
  ℕ, zero, suc, ◌+◌, Bool, Option, none, some, List, [], ℤ, Run, return, is_negative, is_zero,
  is_one, ◌==◌, ◌∷◌, if◌then◌else◌, pos, if-elim,
}
use hysim.Os.{
  Devices, Signals, Sockets, SockOpt, so_keepalive, so_rcvtimeo, tcp_keepidle, tcp_keepintvl,
  tcp_keepcnt,
}
use hysim.Libc.{Opt}
use hysim.ControlClient.{
  PadLink, interval_secs, n_probes, rcvtimeo_sec, client_setsock_keepalive, pad_address, pad_init,
  pad_connect, tries_again, connect_round, pad_connect_forever,
}
use hysim.ControlClient.Switches.{Switch}
use hysim.ControlClient.Panel.{gpio_dev}
use hysim.ControlClient.Loop.{
  PadAddress, PanelOptions, connect_to, panel_stop, apply_panel_opt, parse_panel_opts, PanelBuild,
  keys, pins, register_pin, register_pins, register_switches,
}

-- The calls on sockets are steps of the relation.
pub record CalmNet {W : Type 0} (net : Sockets W) (Calm : W → W → Type 0) : Type 0 where
  pub rest : (w : W) → Calm w w
  pub chain : (u v w : W) → Calm u v → Calm v w → Calm u w
  pub setsockopt_calm : (fd : ℤ) (o : SockOpt) (w : W) → Calm w (net.setsockopt fd o w).1
  pub inet_pton_calm : (text : List ℕ) (w : W) → Calm w (net.inet_pton text w).1
  pub connect_calm : (fd : ℤ) (addr port : ℕ) (w : W) → Calm w (net.connect fd addr port w).1
  pub sleep_calm : (n : ℕ) (w : W) → Calm w (net.sleep n w).1

-- So are those that register a pin.
pub record CalmPins {W : Type 0} (os : Devices W) (signals : Signals W) (Calm : W → W → Type 0)
    : Type 0 where
  pub open_calm : (dev : String) (w : W) → Calm w (os.open_dev dev w).1
  pub register_calm : (fd : ℤ) (i : ℕ) (w : W) → Calm w (signals.gpioc_register fd i w).1
  pub close_calm : (fd : ℤ) (w : W) → Calm w (os.close fd w).1

module _ {W : Type 0} (net : Sockets W) (Calm : W → W → Type 0) (calls : CalmNet net Calm) where
  open calls use {rest, chain, setsockopt_calm, inet_pton_calm, connect_calm, sleep_calm}

  abbrev Keeps : {A : Type 0} → W → W → Run W A → Type 0
  Keeps w v m = Calm w (m v).1

  keepalive_calm : (fd : ℤ) (w : W) → Calm w (client_setsock_keepalive net fd w).1
  unfolding client_setsock_keepalive
  keepalive_calm fd w =
      let (err, w1) = net.setsockopt fd (so_keepalive 1) w in
      let idle : Run W ℤ = net.setsockopt fd (tcp_keepidle interval_secs) in
      let (err1, w2) = (if net.is_apple then return err else idle) w1 in
      let (err2, w3) = net.setsockopt fd (tcp_keepintvl interval_secs) w2 in
      let (err3, w4) = net.setsockopt fd (tcp_keepcnt n_probes) w3 in
      let c1 = setsockopt_calm fd (so_keepalive 1) w in
      let c2 : Calm w w2 =
        if-elim {A = Run W ℤ} net.is_apple (Keeps w w1) (λ e. c1)
          (λ e. chain w w1 (idle w1).1 c1 (setsockopt_calm fd (tcp_keepidle interval_secs) w1)) in
      let c3 = chain w w2 w3 c2 (setsockopt_calm fd (tcp_keepintvl interval_secs) w2) in
      let c4 = chain w w3 w4 c3 (setsockopt_calm fd (tcp_keepcnt n_probes) w3) in
      if-elim {A = Run W ℕ} (is_negative err) (Keeps w w1) (λ e. c1)
        (λ e.
          if-elim {A = Run W ℕ} (is_negative err1) (Keeps w w2) (λ f. c2)
            (λ f.
              if-elim {A = Run W ℕ} (is_negative err2) (Keeps w w3) (λ g. c3)
                (λ g. if-elim {A = Run W ℕ} (is_negative err3) (Keeps w w4) (λ h. c4) (λ h. c4))))

  address_calm :
      (pad : PadLink) (ip : List ℕ) (port : ℕ) (w : W) → Calm w (pad_address net pad ip port w).1
  unfolding pad_address
  address_calm pad ip port w =
      let ((ret, addr), w1) = net.inet_pton ip w in
      let calm = inet_pton_calm ip w in
      if-elim {A = Run W (ℕ × PadLink)} (is_zero ret) (Keeps w w1) (λ e. calm)
        (λ e.
          if-elim {A = Run W (ℕ × PadLink)} (is_negative ret) (Keeps w w1) (λ f. calm) (λ f. calm))

  -- After the socket.
  pub init_calm :
      (pad : PadLink) (ip : List ℕ) (port : ℕ) (w : W)
      → Calm (net.socket_stream w).1 (pad_init net pad ip port w).1
  unfolding pad_init
  init_calm pad ip port w =
      let (sock, w1) = net.socket_stream w in
      let timeout : Run W ℤ = net.setsockopt sock (so_rcvtimeo rcvtimeo_sec) in
      let (err, w2) = (if net.clock_timekeeping then timeout else return (pos 0)) w1 in
      let pad1 = record pad { sock = sock } in
      let c2 : Calm w1 w2 =
        if-elim {A = Run W ℤ} net.clock_timekeeping (Keeps w1 w1)
          (λ e. setsockopt_calm sock (so_rcvtimeo rcvtimeo_sec) w1) (λ e. rest w1) in
      if-elim {A = Run W (ℕ × PadLink)} (is_negative sock) (Keeps w1 w1) (λ e. rest w1)
        (λ e.
          if-elim {A = Run W (ℕ × PadLink)} (is_negative err) (Keeps w1 w2) (λ f. c2)
            (λ f.
              chain w1 w2 (pad_address net pad1 ip port w2).1 c2 (address_calm pad1 ip port w2)))

  pad_connect_calm : (pad : PadLink) (w : W) → Calm w (pad_connect net pad w).1
  unfolding pad_connect
  pad_connect_calm pad w =
      let (err, w1) = net.connect pad.sock pad.sin_addr pad.sin_port w in
      let c1 = connect_calm pad.sock pad.sin_addr pad.sin_port w in
      if-elim {A = Run W ℕ} (is_negative err) (Keeps w w1) (λ e. c1)
        (λ e.
          chain w w1 (client_setsock_keepalive net pad.sock w1).1 c1 (keepalive_calm pad.sock w1))

  round_calm : (pad : PadLink) (w : W) → Calm w (connect_round net pad w).1
  unfolding connect_round
  round_calm pad w =
      let (status, w1) = pad_connect net pad w in
      let c1 = pad_connect_calm pad w in
      if-elim {A = Run W ℕ} (status == 0) (Keeps w w1) (λ e. c1)
        (λ e. chain w w1 (net.sleep 1 w1).1 c1 (sleep_calm 1 w1))

  pub connect_forever_calm :
      (pad : PadLink) (fuel : ℕ) (w : W) → Calm w (pad_connect_forever net pad fuel w).1
  unfolding pad_connect_forever
  connect_forever_calm pad zero w = rest w
  connect_forever_calm pad (suc fuel) w =
      let (status, w1) = connect_round net pad w in
      let c1 = round_calm pad w in
      if-elim {A = Option ℕ × W} (tries_again net status) (λ r. Calm w r.1)
        (λ e.
          chain w w1 (pad_connect_forever net pad fuel w1).1 c1 (connect_forever_calm pad fuel w1))
        (λ e. c1)

  opt_calm : (o : Opt) (address : PadAddress) (w : W) → Calm w (apply_panel_opt net o address w).1
  unfolding apply_panel_opt
  opt_calm o address w =
      let ((valid, addr), w1) = net.inet_pton o.optarg w in
      let calm = inet_pton_calm o.optarg w in
      let none_called = λ (m : Run W PanelOptions). Keeps w w m in
      if-elim {A = Run W PanelOptions} (o.letter == 104) none_called (λ e. rest w)
        (λ e.
          if-elim {A = Run W PanelOptions} (o.letter == 97) none_called
            (λ f.
              if-elim {A = Run W PanelOptions} (is_one valid) (Keeps w w1) (λ g. calm) (λ g. calm))
            (λ f.
              if-elim {A = Run W PanelOptions} (o.letter == 112) none_called (λ g. rest w)
                (λ g.
                  if-elim {A = Run W PanelOptions} (o.letter == 63) none_called (λ h. rest w)
                    (λ h. rest w))))

  abbrev parse_on : List Opt → PanelOptions → W → PanelOptions × W
  parse_on os options w = elim options [
    | connect_to a ↦ parse_panel_opts net os a w
    | panel_stop e ↦ (panel_stop e, w)
  ]

  pub opts_calm :
      (os : List Opt) (address : PadAddress) (w : W) → Calm w (parse_panel_opts net os address w).1
  unfolding parse_panel_opts
  opts_calm [] address w = rest w
  opts_calm (o ∷ os) address w =
      let (options, w1) = apply_panel_opt net o address w in
      let c1 = opt_calm o address w in
      elim options as (λ (x : PanelOptions). Calm w (parse_on os x w1).1) [
        | connect_to a ↦ chain w w1 (parse_panel_opts net os a w1).1 c1 (opts_calm os a w1)
        | panel_stop e ↦ c1
      ]

  -- What a build needs for its pins.
  abbrev pub CalmBuild : Signals W → PanelBuild W → Type 0
  CalmBuild signals keys = Unit {0}
  CalmBuild signals (pins os) = CalmPins os signals Calm

  module _ (signals : Signals W) where
    pin_calm :
        (os : Devices W) (box : CalmPins os signals Calm) (i : ℕ) (dev : Option String) (w : W)
        → Calm w (register_pin os signals i dev w).1
    unfolding register_pin
    pin_calm os box i none w = rest w
    pin_calm os box i (some dev) w =
        let (fd, w1) = os.open_dev dev w in
        let (err, w2) = signals.gpioc_register fd i w1 in
        let w3 : W = (os.close fd w2).1 in
        let c1 = box.open_calm dev w in
        if-elim {A = Run W Bool} (is_negative fd) (Keeps w w1) (λ e. c1)
          (λ e.
            chain w w1 w3 c1 (chain w1 w2 w3 (box.register_calm fd i w1) (box.close_calm fd w2)))

    pins_calm :
        (os : Devices W) (box : CalmPins os signals Calm) (i : ℕ) (sws : List Switch) (w : W)
        → Calm w (register_pins os signals i sws w).1
    unfolding register_pins
    pins_calm os box i [] w = rest w
    pins_calm os box i (sw ∷ sws) w =
        let (registered, w1) = register_pin os signals i (gpio_dev sw) w in
        let c1 = pin_calm os box i (gpio_dev sw) w in
        if-elim {A = Bool × W} registered (λ r. Calm w r.1)
          (λ e.
            chain w w1 (register_pins os signals (i + 1) sws w1).1 c1
              (pins_calm os box (i + 1) sws w1))
          (λ e. c1)

    pub switches_calm :
        (build : PanelBuild W) (sws : List Switch) (w : W)
        → CalmBuild signals build
        → Calm w (register_switches net signals build sws w).1
    unfolding register_switches
    switches_calm keys sws w calm = rest w
    switches_calm (pins os) sws w calm = pins_calm os calm 0 sws w
