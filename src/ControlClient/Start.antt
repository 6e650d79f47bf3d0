-- ===== src/ControlClient/Start.antt =====
-- The start of the board in control_client/src/control_client_main.c, whose code is the pad server's.
use hysim.Base.{
  ℕ, Bool, true, false, not, ◌&&◌, List, pos, Run, ◌>>=◌, ◌>>◌, return, is_zero, if◌then◌else◌,
}
use hysim.Os.{Board, Signals, Sockets}
use hysim.Libc.{Opt}
use hysim.PadServer.BoardSetup.{
  Config, UsbEnd, usb_return, usb_abort, usb_waiting, usb_init, net_init,
}
use hysim.ControlClient.Switches.{Switch}
use hysim.ControlClient.Loop.{PanelBuild, keys, pins, PanelNext, panel_exit, panel_main}

-- A failed assertion or a wait for the console, or what the loops come to.
pub data PanelEnd : Type 0 where
  panel_ran : PanelNext → PanelEnd
  panel_abort : PanelEnd
  panel_starting : PanelEnd

-- The build with keys is the desktop's.
abbrev pub is_desktop : {W : Type 0} → PanelBuild W → Bool
is_desktop keys = true
is_desktop (pins os) = false

module _ {W : Type 0} (board : Board W) (net : Sockets W) (signals : Signals W)
    (build : PanelBuild W) where
  unfoldable pub panel_usb_init : Config → ℕ → Run W UsbEnd
  panel_usb_init config rounds = usb_init board config rounds

  -- The options of the board, for the build.
  unfoldable pub panel_setup : Config → ℕ → Run W UsbEnd
  panel_setup config rounds = do
    (if not (is_desktop build) && not config.system_nsh
        then (do _ ← board.boardioc_init; return tt)
        else return tt)
    if not (is_desktop build) && (not config.system_nsh && config.cdcacm_console)
        then panel_usb_init config rounds
        else return (usb_return (pos 0))

  -- With bounds for the loops of `panel_main`.
  unfoldable pub after_panel_setup :
      Config → ℕ → ℕ → ℕ → List Opt → UsbEnd → Run (List Switch × W) PanelEnd
  after_panel_setup config k n fuel opts usb_abort p = (panel_abort, p)
  after_panel_setup config k n fuel opts usb_waiting p = (panel_starting, p)
  after_panel_setup config k n fuel opts (usb_return ret) (sws, w) =
      let (_, w1) = net_init board config w in
      let (next, p1) = panel_main net signals build k n fuel opts (sws, w1) in
      if is_zero ret then (panel_ran next, p1) else (panel_ran (panel_exit 1), (sws, w))

  -- `main`.
  unfoldable pub panel_program : Config → ℕ → ℕ → ℕ → ℕ → List Opt → Run (List Switch × W) PanelEnd
  panel_program config rounds k n fuel opts (sws, w) =
      let (usb, w1) = panel_setup config rounds w in
      after_panel_setup config k n fuel opts usb (sws, w1)
