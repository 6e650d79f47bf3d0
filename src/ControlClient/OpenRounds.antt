-- ===== src/ControlClient/OpenRounds.antt =====
-- Which sockets are open after so many rounds of a connection of the control client
-- (control_client/src/control_client_main.c, both builds).
use hysim.Base.{
  ℕ, zero, suc, ◌*◌, ◌≡◌, refl, ◌∙◌, Bool, true, false, Option, none, some, List, ◌++◌, ℤ,
  is_negative, if◌then◌else◌,
}
use hysim.Os.{Devices, Signals, Sockets}
use hysim.Controller.Descriptors.{one}
use hysim.ControlClient.{PadLink}
use hysim.ControlClient.Switches.{Switch}
use hysim.ControlClient.Panel.{commands_table, scan_switches}
use hysim.ControlClient.Loop.{
  PanelNext, wait_again, connect_again, panel_exit, PanelBuild, keys, pins, debounce_ms, read_key,
  use_key, use_signal, panel_round, panel_rounds,
}
use hysim.ControlClient.Account.{Account, CoversKeys}
use hysim.ControlClient.KeyRounds.{press_key-Rel, read_key-Rel}
use hysim.ControlClient.Closing.{
  OpenSockets, NoSockets, BuildOpens, flip_switch-opens, scan_passes-opens, Ends,
}

module _ {W : Type 0} (net : Sockets W) (signals : Signals W) (sockets : OpenSockets net signals)
    (before : List ℤ) where
  open sockets use {
    opens, socket_opens, setsockopt_opens, inet_pton_opens, connect_opens, sleep_opens,
    register_opens, sigwaitinfo_opens, debounce_opens, getc_opens,
  }

  -- The socket is open, unless the client is to connect again.
  abbrev pub After : PanelNext → ℤ → W → Type 0
  After wait_again fd w = opens w ≡ one fd ++ before
  After connect_again fd w = opens w ≡ before
  After (panel_exit e) fd w = opens w ≡ one fd ++ before

  module _ (pad : PadLink) where
    abbrev Open : W → Type 0
    Open w = opens w ≡ one pad.sock ++ before

    abbrev Kept : PanelNext × (List Switch × W) → Type 0
    Kept t = After t.0 pad.sock t.1.1

    abbrev account : Account net pad
    account = record {
      Good = λ p. Unit {0};
      Rel = λ p r. opens r.1 ≡ opens p.1;
      Allowed = λ sws i b. Unit {0};
      Quiet = λ w v. opens v ≡ opens w;
      still = λ p. refl;
      trans = λ p q r k l. l ∙ k;
      unseen = λ sws w v quiet. quiet;
      flips = λ i b p good meet. flip_switch-opens net signals sockets before pad i b p;
      keeps = λ p r k good. tt;
    }

    abbrev covered : CoversKeys net pad signals account
    covered = record { getc_quiet = getc_opens; free = λ sws i b. tt }

    use_key-opens :
        (key : Option ℕ) (p : List Switch × W) → Open p.1 → Kept (use_key net signals pad key p)
    unfolding use_key
    use_key-opens none p h = h
    use_key-opens (some key) p h =
        press_key-Rel net pad signals account covered key commands_table p tt ∙ h

    scan_lem :
        (lost : Bool) (w : W)
        → Ends net signals sockets before pad lost w
        → After (if lost then connect_again else wait_again) pad.sock w
    scan_lem true w h = h
    scan_lem false w h = h

    use_signal-opens :
        (os : Devices W) (box : NoSockets opens os) (failed : Bool) (p : List Switch × W)
        → Open p.1
        → Kept (use_signal net signals pad os failed p)
    unfolding use_signal scan_switches
    use_signal-opens os box true p h = h
    use_signal-opens os box false p h =
        let w1 : W = (signals.debounce_us (debounce_ms * 1000) p.1).1 in
        let (lost, p1) = scan_switches os net pad (p.0, w1) in
        let scanned =
          scan_passes-opens net signals sockets before pad os box 20 (p.0, w1)
            (debounce_opens (debounce_ms * 1000) p.1 ∙ h) in
        scan_lem lost p1.1 scanned

    panel_round-opens :
        (build : PanelBuild W) (fuel : ℕ) (p : List Switch × W)
        → BuildOpens opens build
        → Open p.1
        → Kept (panel_round net signals pad build fuel p)
    unfolding panel_round
    panel_round-opens keys fuel p box h =
        let (key, w1) = read_key signals fuel p.1 in
        use_key-opens key (p.0, w1) (read_key-Rel net pad signals account covered fuel p.0 p.1 ∙ h)
    panel_round-opens (pins os) fuel p box h =
        let (err, w1) = signals.sigwaitinfo p.1 in
        use_signal-opens os box (is_negative err) (p.0, w1) (sigwaitinfo_opens p.1 ∙ h)

    abbrev go_on :
        PanelNext → PanelNext × (List Switch × W) → List Switch × W → PanelNext × (List Switch × W)
    go_on next rest p = elim next [
      | wait_again ↦ rest
      | connect_again ↦ (connect_again, p)
      | panel_exit e ↦ (panel_exit e, p)
    ]

    pub panel_rounds-opens :
        (build : PanelBuild W) (n fuel : ℕ) (p : List Switch × W)
        → BuildOpens opens build
        → Open p.1
        → Kept (panel_rounds net signals pad build n fuel p)
    unfolding panel_rounds
    panel_rounds-opens build zero fuel p box h = h
    panel_rounds-opens build (suc n) fuel p box h =
        let (next, p1) = panel_round net signals pad build fuel p in
        let rest = panel_rounds net signals pad build n fuel p1 in
        let first = panel_round-opens build fuel p box h in
        (elim next as (λ (x : PanelNext). After x pad.sock p1.1 → Kept (go_on x rest p1)) [
          | wait_again ↦ (λ k. panel_rounds-opens build n fuel p1 box k)
          | connect_again ↦ (λ k. k)
          | panel_exit e ↦ (λ k. k)
        ])
          first
