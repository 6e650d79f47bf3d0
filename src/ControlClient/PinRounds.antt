-- ===== src/ControlClient/PinRounds.antt =====
-- The rounds of the NuttX build (control_client/src/control_client_main.c) for any account.
use Prim.Native.String.{String}
use hysim.Base.{
  ℕ, zero, suc, ◌+◌, ◌*◌, inl, inr, Bool, true, false, not, List, Option, Run, if-elim, is_negative,
  get_or, Option-cases, arith, ◌&&◌,
}
use hysim.Os.{Sockets, Devices, Signals}
use hysim.ControlClient.{PadLink, pad_disconnect}
use hysim.ControlClient.Switches.{Switch}
use hysim.ControlClient.Panel.{
  no_switch, valve_arming_switch_idx, turning_off_ignition, same_state, flip_switch, gpio_dev,
  read_pin, lost_connection, throw_switch, take_value, scan_switch, scan_pass, scan_passes,
  scan_switches,
}
use hysim.ControlClient.Loop.{pins, debounce_ms, use_signal, panel_round}
use hysim.ControlClient.Account.{Account, CoversPins, next_step}

module _ {W : Type 0} (net : Sockets W) (pad : PadLink) (signals : Signals W)
    (account : Account net pad) where
  open account use {Good, Rel, Allowed, still, trans, unseen, flips, keeps}

  module _ (os : Devices W) (covers : CoversPins net pad signals account os) where
    open covers use {
      open_quiet, read_quiet, close_quiet, close_sock_quiet, sigwaitinfo_quiet, debounce_quiet,
      guarded,
    }

    disconnect-Rel : (sws : List Switch) (w : W) → Rel (sws, w) (sws, (pad_disconnect net pad w).1)
    unfolding pad_disconnect
    disconnect-Rel sws w =
        let (closed, w1) = net.close_sock pad.sock w in
        let After = λ (m : Run W (ℕ × PadLink)) (v : W). Rel (sws, w) (sws, (m v).1) in
        let gone = unseen sws w w1 (close_sock_quiet w) in
        if-elim {A = Run W (ℕ × PadLink)} (is_negative pad.sock) (λ m. After m w)
          (λ e. still (sws, w))
          (λ e.
            if-elim {A = Run W (ℕ × PadLink)} (is_negative closed) (λ m. After m w1) (λ f. gone)
              (λ f. gone))

    read_pin-Rel :
        (dev : String) (sws : List Switch) (w : W)
        → Rel (sws, w) (sws, (read_pin os net pad dev w).1)
    unfolding read_pin
    read_pin-Rel dev sws w =
        let (fd, w1) = os.open_dev dev w in
        let w2 : W = (os.gpioc_read fd w1).1 in
        let w3 : W = (os.close fd w2).1 in
        let opens = unseen sws w w1 (open_quiet dev w) in
        let reads = unseen sws w1 w2 (read_quiet fd w1) in
        let closes = unseen sws w2 w3 (close_quiet fd w2) in
        if-elim {A = Run W (Option Bool)} (is_negative fd) (λ m. Rel (sws, w) (sws, (m w1).1))
          (λ e. opens)
          (λ e.
            trans (sws, w) (sws, w1) (sws, w3) opens
              (trans (sws, w1) (sws, w2) (sws, w3) reads closes))

    throw_switch-Rel :
        (i : ℕ) (b : Bool) (p : List Switch × W)
        → Good p
        → Allowed p.0 i b
        → Rel p (throw_switch os net pad i b p).1
    unfolding throw_switch
    throw_switch-Rel i b p ok allowed =
        let (err, p1) = flip_switch net pad i b p in
        let thrown = flips i b p ok allowed in
        if-elim (lost_connection os net pad err) (λ (t : Bool × (List Switch × W)). Rel p t.1)
          (λ e.
            trans p p1 (p1.0, (pad_disconnect net pad p1.1).1) thrown (disconnect-Rel p1.0 p1.1))
          (λ e. thrown)

    take_value-Rel :
        (i : ℕ) (b : Bool) (p : List Switch × W) → Good p → Rel p (take_value os net pad i b p).1
    unfolding take_value
    take_value-Rel i b p ok =
        let sw : Switch = get_or p.0 i no_switch in
        let Taken = λ (t : Bool × (List Switch × W)). Rel p t.1 in
        if-elim (same_state b sw.state) Taken (λ e. still p)
          (λ e.
            if-elim
              (turning_off_ignition sw b
                && not (get_or p.0 valve_arming_switch_idx no_switch).state)
              Taken (λ blocked. still p)
              (λ free. throw_switch-Rel i b p ok (guarded p.0 i b (ground (arith, free)))))

    scan_switch-Rel : (i : ℕ) (p : List Switch × W) → Good p → Rel p (scan_switch os net pad i p).1
    unfolding scan_switch
    scan_switch-Rel i p ok = elim (Option-cases (gpio_dev (get_or p.0 i no_switch))) [
      | inl e ↦ rw (e, scan_switch) (still p)
      | inr (dev, e) ↦
          (let (value, w1) = read_pin os net pad dev p.1 in
            let read = read_pin-Rel dev p.0 p.1 in
            elim (Option-cases value) [
              | inl f ↦ rw (e, scan_switch) (rw (f, scan_switch) read)
              | inr (b, f) ↦
                  rw (e, scan_switch)
                    (rw (f, scan_switch)
                      (next_step net pad account p (p.0, w1) (take_value os net pad i b (p.0, w1)).1
                        read (take_value-Rel i b (p.0, w1)) ok))
            ])
    ]

    scan_pass-Rel : (n i : ℕ) (p : List Switch × W) → Good p → Rel p (scan_pass os net pad n i p).1
    unfolding scan_pass
    scan_pass-Rel zero i p ok = still p
    scan_pass-Rel (suc n) i p ok =
        let (again, p1) = scan_switch os net pad i p in
        let first = scan_switch-Rel i p ok in
        if-elim again (λ (t : Bool × (List Switch × W)). Rel p t.1) (λ e. first)
          (λ e.
            next_step net pad account p p1 (scan_pass os net pad n (i + 1) p1).1 first
              (scan_pass-Rel n (i + 1) p1) ok)

    scan_passes-Rel : (k : ℕ) (p : List Switch × W) → Good p → Rel p (scan_passes os net pad k p).1
    unfolding scan_passes
    scan_passes-Rel zero p ok = still p
    scan_passes-Rel (suc k) p ok =
        let (again, p1) = scan_pass os net pad 20 0 p in
        let first = scan_pass-Rel 20 0 p ok in
        if-elim again (λ (t : Bool × (List Switch × W)). Rel p t.1) (λ e. first)
          (λ e.
            next_step net pad account p p1 (scan_passes os net pad k p1).1 first
              (scan_passes-Rel k p1) ok)

    use_signal-Rel :
        (failed : Bool) (p : List Switch × W)
        → Good p
        → Rel p (use_signal net signals pad os failed p).1
    unfolding use_signal scan_switches
    use_signal-Rel true p ok = still p
    use_signal-Rel false p ok =
        let us : ℕ = debounce_ms * 1000 in
        let w1 : W = (signals.debounce_us us p.1).1 in
        next_step net pad account p (p.0, w1) (scan_passes os net pad 20 (p.0, w1)).1
          (unseen p.0 p.1 w1 (debounce_quiet us p.1)) (scan_passes-Rel 20 (p.0, w1)) ok

    pub signal_round-Rel :
        (fuel : ℕ) (p : List Switch × W)
        → Good p
        → Rel p (panel_round net signals pad (pins os) fuel p).1
    unfolding panel_round
    signal_round-Rel fuel p ok =
        let (err, w1) = signals.sigwaitinfo p.1 in
        next_step net pad account p (p.0, w1)
          (use_signal net signals pad os (is_negative err) (p.0, w1)).1
          (unseen p.0 p.1 w1 (sigwaitinfo_quiet p.1)) (use_signal-Rel (is_negative err) (p.0, w1))
          ok
