-- ===== src/ControlClient/Account.antt =====
-- An account of what happens to the switches of the control client and to the world
-- (control_client/src/control_client_main.c), and what it has to take of the calls that the two builds make.
use Prim.Native.String.{String}
use hysim.Base.{ℕ, Bool, List, ℤ, get_or}
use hysim.Os.{Sockets, Devices, Signals}
use hysim.ControlClient.{PadLink}
use hysim.ControlClient.Switches.{Switch}
use hysim.ControlClient.Panel.{no_switch, flip_switch}
use hysim.ControlClient.Guard.{IsGuarded}

-- `Good` is what the account needs of a state, `Rel` says what has happened between two states, `Allowed` when a switch may be thrown, and `Quiet` which
-- steps of the world are not seen.
pub record Account {W : Type 0} (net : Sockets W) (pad : PadLink) : Type 1 where
  pub Good : List Switch × W → Type 0
  pub Rel : List Switch × W → List Switch × W → Type 0
  pub Allowed : List Switch → ℕ → Bool → Type 0
  pub Quiet : W → W → Type 0
  pub still : (p : List Switch × W) → Rel p p
  pub trans : (p q r : List Switch × W) → Rel p q → Rel q r → Rel p r
  pub unseen : (sws : List Switch) (w v : W) → Quiet w v → Rel (sws, w) (sws, v)
  pub flips :
      (i : ℕ) (b : Bool) (p : List Switch × W)
      → Good p
      → Allowed p.0 i b
      → Rel p (flip_switch net pad i b p).1
  pub keeps : (p r : List Switch × W) → Rel p r → Good p → Good r

-- The calls that a build makes besides those of its callbacks are not seen, and its throws are allowed.
pub record CoversPins {W : Type 0} (net : Sockets W) (pad : PadLink) (signals : Signals W)
    (account : Account net pad) (os : Devices W) : Type 0 where
  pub open_quiet : (dev : String) (w : W) → account.Quiet w (os.open_dev dev w).1
  pub read_quiet : (fd : ℤ) (w : W) → account.Quiet w (os.gpioc_read fd w).1
  pub close_quiet : (fd : ℤ) (w : W) → account.Quiet w (os.close fd w).1
  pub close_sock_quiet : (w : W) → account.Quiet w (net.close_sock pad.sock w).1
  pub sigwaitinfo_quiet : (w : W) → account.Quiet w (signals.sigwaitinfo w).1
  pub debounce_quiet : (us : ℕ) (w : W) → account.Quiet w (signals.debounce_us us w).1
  pub guarded :
      (sws : List Switch) (i : ℕ) (b : Bool)
      → IsGuarded sws (get_or sws i no_switch) b
      → account.Allowed sws i b

-- The desktop build throws a switch in any state.
pub record CoversKeys {W : Type 0} (net : Sockets W) (pad : PadLink) (signals : Signals W)
    (account : Account net pad) : Type 0 where
  pub getc_quiet : (w : W) → account.Quiet w (signals.getc w).1
  pub free : (sws : List Switch) (i : ℕ) (b : Bool) → account.Allowed sws i b

module _ {W : Type 0} (net : Sockets W) (pad : PadLink) (account : Account net pad) where
  open account use {Good, Rel, trans, keeps}

  -- One step, and what follows from the state it leaves.
  pub next_step : (p q r : List Switch × W) → Rel p q → (Good q → Rel q r) → Good p → Rel p r
  next_step p q r first rest ok = trans p q r first (rest (keeps p q first ok))
