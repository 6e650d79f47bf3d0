-- ===== src/ControlClient/Scans.antt =====
-- The scans of the control box (control_client/src/control_client_main.c, NuttX build) over a whole
-- connection.
use hysim.Base.{ℕ, ◌≡◌, refl, List, [], ◌∷◌, get_or}
use hysim.Os.{Sockets, Devices, Signals}
use hysim.ControlClient.{PadLink}
use hysim.ControlClient.Switches.{Switch}
use hysim.ControlClient.Panel.{no_switch}
use hysim.ControlClient.Loop.{pins, panel_rounds}
use hysim.ControlClient.Guard.{Log, IsGuarded, flip_switch-sent}
use hysim.ControlClient.Account.{Account}
use hysim.ControlClient.Watch.{panel_rounds-Rel}
use hysim.ControlClient.Box.{IsBox, box-IsSwitch}
use hysim.ControlClient.ArmingKey.{Keyed, Keyed-trans, Keyed-still, Keyed-IsBox, keyed_step}

module _ {W : Type 0} (os : Devices W) (net : Sockets W) (pad : PadLink)
    (log : Log os net pad.sock) where
  open log use {sent, open_sent, read_sent, close_sent, close_sock_sent}

  -- The waits for a signal send nothing.
  pub record QuietWaits (signals : Signals W) : Type 0 where
    pub sigwaitinfo_sent : (w : W) → sent (signals.sigwaitinfo w).1 ≡ sent w
    pub debounce_sent : (us : ℕ) (w : W) → sent (signals.debounce_us us w).1 ≡ sent w

  module _ (signals : Signals W) (waits : QuietWaits signals) where
    open waits use {sigwaitinfo_sent, debounce_sent}

    log_account : Account net pad
    log_account = record {
      Good = λ p. IsBox p.0;
      Rel = Keyed sent;
      Allowed = λ sws i b. IsGuarded sws (get_or sws i no_switch) b;
      Quiet = λ w v. sent v ≡ sent w;
      still = λ p. Keyed-still sent p p refl refl;
      trans = λ p q r k l. Keyed-trans sent k l;
      unseen = λ sws w v quiet. Keyed-still sent (sws, w) (sws, v) refl quiet;
      flips = λ i b p ok guarded.
          let (plays, sends) = flip_switch-sent os net pad log i b p (box-IsSwitch p.0 i ok) in
          record {
            throws = (i, b) ∷ [];
            plays = plays;
            sends = sends;
            keyed = (keyed_step i b p.0 ok guarded, tt);
          };
      keeps = λ p r k ok. Keyed-IsBox sent k ok;
    }

    -- In any number of rounds of a connection, from the switches of the table in any states, whatever the pins read
    -- and the pad server answers: the requests sent are those of the switches thrown, in order, and one for
    -- `ARMED_VALVES` leaves only with the arming key on.
    pub panel_rounds-Keyed :
        (n fuel : ℕ) (p : List Switch × W)
        → IsBox p.0
        → Keyed sent p (panel_rounds net signals pad (pins os) n fuel p).1
    unfolding log_account
    panel_rounds-Keyed n fuel p ok =
        panel_rounds-Rel net pad signals log_account (pins os) n fuel p
          (record {
            open_quiet = open_sent;
            read_quiet = read_sent;
            close_quiet = close_sent;
            close_sock_quiet = close_sock_sent;
            sigwaitinfo_quiet = sigwaitinfo_sent;
            debounce_quiet = debounce_sent;
            guarded = λ sws i b guarded. guarded;
          })
          ok
