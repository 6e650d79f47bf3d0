-- ===== src/ControlClient/Requests.antt =====
-- What the control box sends from its options on (control_client/src/control_client_main.c, NuttX build), over any number
-- of connections.
use Prim.Native.String.{String}
use hysim.Base.{ℕ, ◌≡◌, refl, List, [], ◌∷◌, ◌++◌, ℤ}
use hysim.Os.{Sockets, Devices, Signals, SockOpt}
use hysim.Libc.{Opt}
use hysim.ControlClient.Switches.{Switch}
use hysim.ControlClient.Loop.{pins, panel_main}
use hysim.ControlClient.Guard.{Log}
use hysim.ControlClient.Box.{IsBox}
use hysim.ControlClient.ArmingKey.{Keyed, Keyed-trans, Keyed-still, Keyed-IsBox}
use hysim.ControlClient.Scans.{panel_rounds-Keyed}
use hysim.ControlClient.Whole.{Course, panel_main-Rel}

-- The log of what is sent over any socket: `send` appends to it, and no other call of the program does.
pub record SentLog {W : Type 0} (os : Devices W) (net : Sockets W) (signals : Signals W)
    : Type 0 where
  pub sent : W → List (List ℕ)
  pub send_sent : (fd : ℤ) (bs : List ℕ) (w : W) → sent (net.send fd bs w).1 ≡ sent w ++ bs ∷ []
  pub recv_sent : (fd : ℤ) (n : ℕ) (w : W) → sent (net.recv fd n w).1 ≡ sent w
  pub close_sock_sent : (fd : ℤ) (w : W) → sent (net.close_sock fd w).1 ≡ sent w
  pub socket_sent : (w : W) → sent (net.socket_stream w).1 ≡ sent w
  pub setsockopt_sent : (fd : ℤ) (o : SockOpt) (w : W) → sent (net.setsockopt fd o w).1 ≡ sent w
  pub inet_pton_sent : (text : List ℕ) (w : W) → sent (net.inet_pton text w).1 ≡ sent w
  pub connect_sent : (fd : ℤ) (addr port : ℕ) (w : W) → sent (net.connect fd addr port w).1 ≡ sent w
  pub sleep_sent : (n : ℕ) (w : W) → sent (net.sleep n w).1 ≡ sent w
  pub open_sent : (dev : String) (w : W) → sent (os.open_dev dev w).1 ≡ sent w
  pub read_sent : (fd : ℤ) (w : W) → sent (os.gpioc_read fd w).1 ≡ sent w
  pub close_sent : (fd : ℤ) (w : W) → sent (os.close fd w).1 ≡ sent w
  pub register_sent : (fd : ℤ) (i : ℕ) (w : W) → sent (signals.gpioc_register fd i w).1 ≡ sent w
  pub sigwaitinfo_sent : (w : W) → sent (signals.sigwaitinfo w).1 ≡ sent w
  pub debounce_sent : (us : ℕ) (w : W) → sent (signals.debounce_us us w).1 ≡ sent w

module _ {W : Type 0} (os : Devices W) (net : Sockets W) (signals : Signals W)
    (log : SentLog os net signals) where
  open log use {sent}

  abbrev log_of : (sock : ℤ) → Log os net sock
  log_of sock = record {
    sent = sent;
    send_sent = log.send_sent sock;
    recv_sent = log.recv_sent sock;
    close_sock_sent = log.close_sock_sent sock;
    open_sent = log.open_sent;
    read_sent = log.read_sent;
    close_sent = log.close_sent;
  }

  abbrev keyed_course : Course net signals (pins os)
  keyed_course = record {
    Good = λ p. IsBox p.0;
    Rel = Keyed sent;
    still = λ p. Keyed-still sent p p refl refl;
    trans = λ p q r k l. Keyed-trans sent k l;
    keeps = λ p r k ok. Keyed-IsBox sent k ok;
    rounds = λ link n fuel p ok.
        panel_rounds-Keyed os net link (log_of link.sock) signals
          (record { sigwaitinfo_sent = log.sigwaitinfo_sent; debounce_sent = log.debounce_sent }) n
          fuel p ok;
  }

  unseen : (w v : W) → sent v ≡ sent w → (sws : List Switch) → Keyed sent (sws, w) (sws, v)
  unseen w v quiet sws = Keyed-still sent (sws, w) (sws, v) refl quiet

  -- From the switches of the table in any states, on a log that `send` alone appends to, whatever the
  -- options, in any number of connections and rounds of each, whatever the pins read and the pad server
  -- answers: the requests sent are those of the switches thrown, in order, and one for `ARMED_VALVES`
  -- leaves only with the arming key on.
  pub panel_main-Keyed :
      (k n fuel : ℕ) (opts : List Opt) (p : List Switch × W)
      → IsBox p.0
      → Keyed sent p (panel_main net signals (pins os) k n fuel opts p).1
  panel_main-Keyed k n fuel opts p ok =
      panel_main-Rel net signals (pins os) keyed_course
        (record {
          rest = λ w sws. Keyed-still sent (sws, w) (sws, w) refl refl;
          chain = λ u v w first second sws. Keyed-trans sent (first sws) (second sws);
          setsockopt_calm =
              λ fd o w. unseen w (net.setsockopt fd o w).1 (log.setsockopt_sent fd o w);
          inet_pton_calm = λ text w. unseen w (net.inet_pton text w).1 (log.inet_pton_sent text w);
          connect_calm = λ fd addr port w.
              unseen w (net.connect fd addr port w).1 (log.connect_sent fd addr port w);
          sleep_calm = λ n w. unseen w (net.sleep n w).1 (log.sleep_sent n w);
        })
        (λ w. unseen w (net.socket_stream w).1 (log.socket_sent w))
        (record {
          open_calm = λ dev w. unseen w (os.open_dev dev w).1 (log.open_sent dev w);
          register_calm =
              λ fd i w. unseen w (signals.gpioc_register fd i w).1 (log.register_sent fd i w);
          close_calm = λ fd w. unseen w (os.close fd w).1 (log.close_sent fd w);
        })
        k n fuel opts p ok
