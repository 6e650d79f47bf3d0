-- ===== src/ControlClient/Watch.antt =====
-- The loops of the control client over its switches (control_client/src/control_client_main.c), for any account
-- of what happens: an account that takes each call of a callback, and misses the other calls, holds of the
-- loops.
use hysim.Base.{ℕ, zero, suc, List}
use hysim.Os.{Sockets, Signals}
use hysim.ControlClient.{PadLink}
use hysim.ControlClient.Switches.{Switch}
use hysim.ControlClient.Loop.{
  PanelNext, wait_again, connect_again, panel_exit, PanelBuild, keys, pins, panel_round,
  panel_rounds,
}
use hysim.ControlClient.Account.{Account, CoversPins, CoversKeys, next_step}
use hysim.ControlClient.PinRounds.{signal_round-Rel}
use hysim.ControlClient.KeyRounds.{key_round-Rel}

abbrev pub Covers :
    {W : Type 0} (net : Sockets W) (pad : PadLink)
    → Signals W
    → Account net pad
    → PanelBuild W
    → Type 0
Covers net pad signals account keys = CoversKeys net pad signals account
Covers net pad signals account (pins os) = CoversPins net pad signals account os

module _ {W : Type 0} (net : Sockets W) (pad : PadLink) (signals : Signals W)
    (account : Account net pad) where
  open account use {Good, Rel, Allowed, still, trans, unseen, flips, keeps}

  panel_round-Rel :
      (build : PanelBuild W) (fuel : ℕ) (p : List Switch × W)
      → Covers net pad signals account build
      → Good p
      → Rel p (panel_round net signals pad build fuel p).1
  panel_round-Rel keys fuel p covers ok = key_round-Rel net pad signals account covers fuel p ok
  panel_round-Rel (pins os) fuel p covers ok =
      signal_round-Rel net pad signals account os covers fuel p ok

  abbrev go_on :
      PanelNext → PanelNext × (List Switch × W) → List Switch × W → PanelNext × (List Switch × W)
  go_on next rest p = elim next [
    | wait_again ↦ rest
    | connect_again ↦ (connect_again, p)
    | panel_exit e ↦ (panel_exit e, p)
  ]

  -- An account that covers a build holds of any number of its rounds.
  pub panel_rounds-Rel :
      (build : PanelBuild W) (n fuel : ℕ) (p : List Switch × W)
      → Covers net pad signals account build
      → Good p
      → Rel p (panel_rounds net signals pad build n fuel p).1
  unfolding panel_rounds
  panel_rounds-Rel build zero fuel p covers ok = still p
  panel_rounds-Rel build (suc n) fuel p covers ok =
      let (next, p1) = panel_round net signals pad build fuel p in
      let rest = panel_rounds net signals pad build n fuel p1 in
      let first = panel_round-Rel build fuel p covers ok in
      elim next as (λ (x : PanelNext). Rel p (go_on x rest p1).1) [
        | wait_again ↦
            next_step net pad account p p1 rest.1 first (panel_rounds-Rel build n fuel p1 covers) ok
        | connect_again ↦ first
        | panel_exit e ↦ first
      ]
