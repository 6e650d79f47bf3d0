-- ===== src/PadServer/BoardSetup.antt =====
-- What `main` of pad_server/src/pad_server_main.c does to the board first, and its `usb_init`.
use hysim.Base.{
  ℕ, zero, suc, Bool, true, false, not, ◌&&◌, List, ℤ, pos, Run, ◌>>=◌, ◌>>◌, return, is_negative,
  is_zero, if◌then◌else◌, ◌==◌,
}
use hysim.Actuator.{Build}
use hysim.Os.{Board, Locks, Sockets, Threads}
use hysim.Libc.{Opt}
use hysim.PadState.{PadState, call}
use hysim.TelemetryThread.{PadThread}
use hysim.PadServer.{ServerEnd, server_exit, server_abort, server_starting, server_main}

-- The options of the build.
pub record Config : Type 0 where
  pub desktop : Bool
  pub system_nsh : Bool
  pub cdcacm_console : Bool
  pub nsh_netinit : Bool
  pub debug_assertions : Bool

-- `usb_init` returns, fails an assertion, or is still waiting for the device.
pub data UsbEnd : Type 0 where
  usb_return : ℤ → UsbEnd
  usb_abort : UsbEnd
  usb_waiting : UsbEnd

-- x > 2
abbrev pub above_two : ℤ → Bool
above_two (pos (suc (suc (suc n)))) = true
above_two _ = false

module _ {W : Type 0} (board : Board W) where
  open board use {
    boardioc_init, usbdev_connect, open_console, console_errno, console_enotconn, dup2,
    close_console, usleep, sleep_secs, netinit_bringup,
  }

  -- The standard streams go to the console.
  unfoldable pub redirect_streams : ℤ → Run W UsbEnd
  redirect_streams ret = do
    usb_fd ← open_console
    dup2 usb_fd 0
    dup2 usb_fd 1
    dup2 usb_fd 2
    (if above_two usb_fd then close_console usb_fd else return tt)
    sleep_secs 1
    return (usb_return ret)

  -- The loop that opens the console, for so many rounds. The assertion comes after a success too.
  unfoldable pub await_console : Config → ℕ → ℤ → Run W UsbEnd
  await_console config zero ret w = (usb_waiting, w)
  await_console config (suc n) ret w =
      let (usb_fd, w1) = open_console w in
      let (_, w2) = usleep 100 w1 in
      let again = await_console config n ret w2 in
      if config.debug_assertions && not (console_errno w1 == console_enotconn)
      then (usb_abort, w1)
      else (if is_negative usb_fd then again else redirect_streams ret w2)

  unfoldable pub usb_init : Config → ℕ → Run W UsbEnd
  usb_init config n = do
    ret ← boardioc_init
    if not (is_zero ret) then return (usb_return ret) else do
      ret1 ← usbdev_connect
      if is_negative ret1 then return (usb_return ret1) else await_console config n ret1

  unfoldable pub net_init : Config → Run W (Unit {0})
  net_init config =
      if config.nsh_netinit && not config.system_nsh
      then (do netinit_bringup; sleep_secs 1)
      else return tt

  unfoldable pub after_usb : Config → UsbEnd → Run W UsbEnd
  after_usb config (usb_return ret) =
      if is_zero ret then (do net_init config; return (usb_return ret)) else return (usb_return ret)
  after_usb config usb_abort = return usb_abort
  after_usb config usb_waiting = return usb_waiting

  -- `usb_return` of 0 where the start-up goes on.
  unfoldable pub board_setup : Config → ℕ → Run W UsbEnd
  board_setup config n = do
    (if not config.desktop && not config.system_nsh
        then (do _ ← boardioc_init; return tt)
        else return tt)
    usb ←
        (if not config.desktop && (not config.system_nsh && config.cdcacm_console)
          then usb_init config n
          else return (usb_return (pos 0)))
    after_usb config usb

module _ {W : Type 0} (board : Board W) (locks : Locks W) (threads : Threads PadThread W)
    (build : Build W) (net : Sockets W) where
  unfoldable pub main_after : Config → List Opt → UsbEnd → Run (PadState W × W) ServerEnd
  main_after config opts (usb_return ret) =
      if is_zero ret
      then server_main locks threads build config.desktop net opts
      else return (server_exit 1)
  main_after config opts usb_abort = return server_abort
  main_after config opts usb_waiting = return server_starting

  -- `main`, with so many rounds of waiting for the console.
  unfoldable pub main : Config → ℕ → List Opt → Run (PadState W × W) ServerEnd
  main config n opts = do usb ← call (board_setup board config n); main_after config opts usb
