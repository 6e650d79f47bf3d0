-- ===== src/ControlClient/Loop.antt =====
-- `main` of control_client/src/control_client_main.c around its scans: options, the registration of the pins, the
-- connection, and the rounds that wait for a key or a signal.
use Prim.Native.String.{String}
use hysim.Base.{
  ℕ, zero, suc, ◌+◌, ◌*◌, Bool, true, false, Option, none, some, List, [], ◌∷◌, negsuc, Run, ◌>>=◌,
  return, is_negative, is_one, if◌then◌else◌, ◌==◌,
}
use hysim.Os.{Devices, Signals, Sockets}
use hysim.Libc.{Opt, strtoul, u16}
use hysim.ControlClient.{PadLink, pad_init, pad_connect_forever, pad_disconnect}
use hysim.ControlClient.Switches.{Switch}
use hysim.ControlClient.Panel.{commands_table, gpio_dev, press_key, scan_switches}

abbrev pub debounce_ms : ℕ
debounce_ms = 30

-- "127.0.0.1"
abbrev pub localhost : List ℕ
localhost = 49 ∷ 50 ∷ 55 ∷ 46 ∷ 48 ∷ 46 ∷ 48 ∷ 46 ∷ 49 ∷ []

-- Address and port.
pub record PadAddress : Type 0 where
  pub ip : List ℕ
  pub port : ℕ

abbrev pub default_address : PadAddress
default_address = record { ip = localhost; port = 50001 }

pub data PanelOptions : Type 0 where
  connect_to : PadAddress → PanelOptions
  panel_stop : ℕ → PanelOptions

-- The build with keys, or the one with pins, which are devices.
pub data PanelBuild (W : Type 0) : Type 0 where
  keys : PanelBuild W
  pins : Devices W → PanelBuild W

-- What the client does next: wait again, connect again, or exit.
pub data PanelNext : Type 0 where
  wait_again : PanelNext
  connect_again : PanelNext
  panel_exit : ℕ → PanelNext

module _ {W : Type 0} (net : Sockets W) where
  -- One round of the option loop. `atoi` of a number that an `int` holds is, in 16 bits, what `strtoul` gives.
  unfoldable pub apply_panel_opt : Opt → PadAddress → Run W PanelOptions
  apply_panel_opt o address =
      if o.letter == 104
      then return (panel_stop 0)
      else if o.letter == 97
      then (do
        (valid, _) ← net.inet_pton o.optarg
        if is_one valid
            then return (connect_to (record address { ip = o.optarg }))
            else return (panel_stop 1))
      else if o.letter == 112
      then return (connect_to (record address { port = u16 (strtoul o.optarg) }))
      else if o.letter == 63
      then return (panel_stop 1)
      else return (connect_to address)

  unfoldable pub parse_panel_opts : List Opt → PadAddress → Run W PanelOptions
  parse_panel_opts [] address w = (connect_to address, w)
  parse_panel_opts (o ∷ os) address w =
      let (options, w1) = apply_panel_opt o address w in
      elim options [ connect_to a ↦ parse_panel_opts os a w1 | panel_stop e ↦ (panel_stop e, w1) ]

  -- The code that the process exits with.
  unfoldable pub handle_term : PadLink → Run W ℕ
  handle_term pad = do _ ← pad_disconnect net pad; return 0

module _ {W : Type 0} (os : Devices W) (signals : Signals W) where
  -- A pin raises a signal that carries the index of its switch; false where the process is to exit.
  unfoldable pub register_pin : ℕ → Option String → Run W Bool
  register_pin i none = return true
  register_pin i (some dev) = do
    fd ← os.open_dev dev
    if is_negative fd then return false else do
      err ← signals.gpioc_register fd i
      _ ← os.close fd
      return (if is_negative err then false else true)

  -- The switches from the index on.
  unfoldable pub register_pins : ℕ → List Switch → Run W Bool
  register_pins i [] w = (true, w)
  register_pins i (sw ∷ sws) w =
      let (registered, w1) = register_pin i (gpio_dev sw) w in
      let rest = register_pins (i + 1) sws w1 in if registered then rest else (false, w1)

module _ {W : Type 0} (signals : Signals W) where
  -- The rest of a line, on fuel for its characters; `none` where no end of it is found.
  unfoldable pub skip_line : ℕ → Run W (Option (Unit {0}))
  skip_line zero w = (none, w)
  skip_line (suc fuel) w =
      let (c, w1) = signals.getc w in
      let rest = skip_line fuel w1 in if c == 10 then (some tt, w1) else rest

  unfoldable pub read_key : ℕ → Run W (Option ℕ)
  read_key fuel w =
      let (key, w1) = signals.getc w in
      let (skipped, w2) = skip_line fuel w1 in
      if key == 10 then (some key, w1) else (elim skipped [ none ↦ none | some _ ↦ some key ], w2)

module _ {W : Type 0} (net : Sockets W) (signals : Signals W) (pad : PadLink) where
  -- A key was read, if one was: what the callback answers is dropped.
  unfoldable pub use_key : Option ℕ → Run (List Switch × W) PanelNext
  use_key none p = (wait_again, p)
  use_key (some key) p = (wait_again, (press_key net pad key commands_table p).1)

  -- A signal, or a failure of the wait for it.
  unfoldable pub use_signal : Devices W → Bool → Run (List Switch × W) PanelNext
  use_signal os true p = (wait_again, p)
  use_signal os false (sws, w) =
      let (_, w1) = signals.debounce_us (debounce_ms * 1000) w in
      let (lost, p1) = scan_switches os net pad (sws, w1) in
      (if lost then connect_again else wait_again, p1)

  -- One round of the inner loop.
  unfoldable pub panel_round : PanelBuild W → ℕ → Run (List Switch × W) PanelNext
  panel_round keys fuel (sws, w) = let (key, w1) = read_key signals fuel w in use_key key (sws, w1)
  panel_round (pins os) fuel (sws, w) =
      let (err, w1) = signals.sigwaitinfo w in use_signal os (is_negative err) (sws, w1)

  -- The inner loop, for so many rounds.
  unfoldable pub panel_rounds : PanelBuild W → ℕ → ℕ → Run (List Switch × W) PanelNext
  panel_rounds build zero fuel p = (wait_again, p)
  panel_rounds build (suc n) fuel p =
      let (next, p1) = panel_round build fuel p in
      let rest = panel_rounds build n fuel p1 in
      elim next [
        | wait_again ↦ rest
        | connect_again ↦ (connect_again, p1)
        | panel_exit e ↦ (panel_exit e, p1)
      ]

module _ {W : Type 0} (net : Sockets W) (signals : Signals W) where
  -- A connection, on fuel for the attempts, and then so many rounds.
  unfoldable pub connected_rounds :
      PanelBuild W → ℕ → ℕ → PadLink → Option ℕ → Run (List Switch × W) PanelNext
  connected_rounds build n fuel pad none p = (wait_again, p)
  connected_rounds build n fuel pad (some err) p =
      if err == 0 then panel_rounds net signals pad build n fuel p else (panel_exit 1, p)

  -- One round of the outer loop.
  unfoldable pub session :
      PanelBuild W → ℕ → ℕ → PadLink → PadAddress → Run (List Switch × W) PanelNext
  session build n fuel pad address (sws, w) =
      let ((err, pad1), w1) = pad_init net pad address.ip address.port w in
      let (status, w2) = pad_connect_forever net pad1 fuel w1 in
      if err == 0
      then connected_rounds build n fuel pad1 status (sws, w2)
      else (panel_exit 1, (sws, w1))

  -- The outer loop, for so many connections.
  unfoldable pub sessions :
      ℕ → PanelBuild W → ℕ → ℕ → PadLink → PadAddress → Run (List Switch × W) PanelNext
  sessions zero build n fuel pad address p = (connect_again, p)
  sessions (suc k) build n fuel pad address p =
      let (next, p1) = session build n fuel pad address p in
      let rest = sessions k build n fuel pad address p1 in
      elim next [
        | connect_again ↦ rest
        | wait_again ↦ (wait_again, p1)
        | panel_exit e ↦ (panel_exit e, p1)
      ]

  -- The pins of the switches, in a build that has them.
  unfoldable pub register_switches : PanelBuild W → List Switch → Run W Bool
  register_switches keys sws = return true
  register_switches (pins os) sws = register_pins os signals 0 sws

  unfoldable pub start_panel :
      PanelBuild W → ℕ → ℕ → ℕ → PadLink → PanelOptions → Run (List Switch × W) PanelNext
  start_panel build k n fuel pad (panel_stop e) p = (panel_exit e, p)
  start_panel build k n fuel pad (connect_to address) (sws, w) =
      let (registered, w1) = register_switches build sws w in
      let rest = sessions k build n fuel pad address (sws, w1) in
      if registered then rest else (panel_exit 1, (sws, w1))

  -- `main` behind the start of the board, with bounds for its loops.
  unfoldable pub panel_main : PanelBuild W → ℕ → ℕ → ℕ → List Opt → Run (List Switch × W) PanelNext
  panel_main build k n fuel opts (sws, w) =
      let (options, w1) = parse_panel_opts net opts default_address w in
      start_panel build k n fuel (record { sock = negsuc 0; sin_addr = 0; sin_port = 0 }) options
        (sws, w1)
