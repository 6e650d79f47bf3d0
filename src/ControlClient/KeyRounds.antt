-- ===== src/ControlClient/KeyRounds.antt =====
-- The rounds of the desktop build (control_client/src/control_client_main.c) for any account.
use hysim.Base.{ℕ, zero, suc, Bool, not, List, [], ◌∷◌, Option, none, some, if-elim, ◌==◌, get_or}
use hysim.Os.{Sockets, Signals}
use hysim.ControlClient.{PadLink}
use hysim.ControlClient.Switches.{Switch}
use hysim.ControlClient.Panel.{no_switch, flip_switch, press_key, commands_table}
use hysim.ControlClient.Loop.{keys, skip_line, read_key, use_key, panel_round}
use hysim.ControlClient.Account.{Account, CoversKeys, next_step}

module _ {W : Type 0} (net : Sockets W) (pad : PadLink) (signals : Signals W)
    (account : Account net pad) where
  open account use {Good, Rel, Allowed, still, trans, unseen, flips, keeps}

  -- Keys: every command is looked at, and a switch is thrown at those that have the key.
  module _ (covers : CoversKeys net pad signals account) where
    open covers use {getc_quiet, free}

    pub press_key-Rel :
        (key : ℕ) (cs : List (ℕ × ℕ)) (p : List Switch × W)
        → Good p
        → Rel p (press_key net pad key cs p).1
    unfolding press_key
    press_key-Rel key [] p ok = still p
    press_key-Rel key ((k, i) ∷ cs) p ok =
        let b : Bool = not (get_or p.0 i no_switch).state in
        let flipped : List Switch × W = (flip_switch net pad i b p).1 in
        if-elim (k == key) (λ (q : List Switch × W). Rel p (press_key net pad key cs q).1)
          (λ e.
            next_step net pad account p flipped (press_key net pad key cs flipped).1
              (flips i b p ok (free p.0 i b)) (press_key-Rel key cs flipped) ok)
          (λ e. press_key-Rel key cs p ok)

    use_key-Rel :
        (key : Option ℕ) (p : List Switch × W) → Good p → Rel p (use_key net signals pad key p).1
    unfolding use_key
    use_key-Rel none p ok = still p
    use_key-Rel (some key) p ok = press_key-Rel key commands_table p ok

    skip_line-Rel :
        (fuel : ℕ) (sws : List Switch) (w : W) → Rel (sws, w) (sws, (skip_line signals fuel w).1)
    unfolding skip_line
    skip_line-Rel zero sws w = still (sws, w)
    skip_line-Rel (suc fuel) sws w =
        let (c, w1) = signals.getc w in
        let got = unseen sws w w1 (getc_quiet w) in
        if-elim (c == 10) (λ (t : Option (Unit {0}) × W). Rel (sws, w) (sws, t.1)) (λ e. got)
          (λ e.
            trans (sws, w) (sws, w1) (sws, (skip_line signals fuel w1).1) got
              (skip_line-Rel fuel sws w1))

    pub read_key-Rel :
        (fuel : ℕ) (sws : List Switch) (w : W) → Rel (sws, w) (sws, (read_key signals fuel w).1)
    unfolding read_key
    read_key-Rel fuel sws w =
        let (key, w1) = signals.getc w in
        let got = unseen sws w w1 (getc_quiet w) in
        if-elim (key == 10) (λ (t : Option ℕ × W). Rel (sws, w) (sws, t.1)) (λ e. got)
          (λ e.
            trans (sws, w) (sws, w1) (sws, (skip_line signals fuel w1).1) got
              (skip_line-Rel fuel sws w1))

    pub key_round-Rel :
        (fuel : ℕ) (p : List Switch × W)
        → Good p
        → Rel p (panel_round net signals pad keys fuel p).1
    unfolding panel_round
    key_round-Rel fuel p ok =
        let (key, w1) = read_key signals fuel p.1 in
        next_step net pad account p (p.0, w1) (use_key net signals pad key (p.0, w1)).1
          (read_key-Rel fuel p.0 p.1) (use_key-Rel key (p.0, w1)) ok
