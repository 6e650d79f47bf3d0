-- ===== src/Examples/Desk.antt =====
-- The sockets of the controller thread, counted.
use hysim.Base.{false, refl, ap, List, [], ◌∷◌, ℤ, pos, negsuc, return}
use hysim.Os.{Sockets, Devices, Signals}
use hysim.ControlClient.Panel.{switches_table}
use hysim.ControlClient.Loop.{panel_main, pins}
use hysim.ControlClient.Closing.{OpenSockets, NoSockets}
use hysim.ControlClient.Reconnects.{AtMostOne, panel_main-AtMostOne}
use hysim.Actuator.{actuator_init}
use hysim.Actuator.Drivers.{null, dummy_gpio_actuator_on, dummy_gpio_actuator_off}
use hysim.PadState.{PadState}
use hysim.Controller.Messages.{controller_run}
use hysim.Controller.Descriptors.{Descriptors}
use hysim.Controller.Closing.{Closes, controller_run-Closes}
use hysim.Examples.Systems.{granted, plain, working}

-- A world of open sockets, the last in front. Clients connect and are gone at once.
abbrev tail_of : List ℤ → List ℤ
tail_of [] = []
tail_of (fd ∷ fds) = fds

abbrev desk : Sockets (List ℤ)
desk = record plain {
  socket_stream = λ w. (pos 3, pos 3 ∷ w);
  socket_dgram = λ w. (pos 4, pos 4 ∷ w);
  accept = λ fd w. (pos 5, pos 5 ∷ w);
  close_sock = λ fd w. (pos 0, tail_of w);
}

abbrev desk_sockets : Descriptors granted working desk
desk_sockets = record {
  opens = λ w. w;
  socket_opens = λ w. refl;
  accept_opens = λ sock w. refl;
  close_opens = λ fd rest w e. (refl, ap tail_of e);
  setsockopt_opens = λ fd o w. refl;
  bind_opens = λ fd port w. refl;
  listen_opens = λ fd n w. refl;
  select_opens = λ fd n w. refl;
  recv_opens = λ fd n w. refl;
  send_opens = λ fd bs w. refl;
  untouched = record {
    rdlock_line = λ w. refl;
    wrlock_line = λ w. refl;
    rwlock_unlock_line = λ w. refl;
    mutex_lock_line = λ w. refl;
    mutex_unlock_line = λ w. refl;
    cond_signal_line = λ w. refl;
  };
  set_errno_opens = λ e w. refl;
}

-- A pad with one actuator, and a socket that another thread has opened.
abbrev small : PadState (List ℤ) × List ℤ
small = (
  record {
    actuators = actuator_init 0 dummy_gpio_actuator_on dummy_gpio_actuator_off null ∷ [];
    arm_level = 0;
    conn_status = 1;
    update_recorded = false;
  },
  pos 9 ∷ [],
)

controller_run-Closes_example :
    Closes granted working desk desk_sockets
      (pos 9 ∷ [])
      (controller_run granted working desk 50001 2 3 small)
unfolding actuator_init dummy_gpio_actuator_on dummy_gpio_actuator_off
controller_run-Closes_example =
    controller_run-Closes granted working desk desk_sockets 50001 2 3 small
      (record { on_line = λ w. refl; off_line = λ w. refl }, tt)

-- Every request is lost.
abbrev lossy : Sockets (List ℤ)
lossy = record desk { send = λ fd bs. return (negsuc 0) }

abbrev switched : Devices (List ℤ)
switched = record working { gpioc_read = λ fd. return (pos 0, false) }

abbrev signalled : Signals (List ℤ)
signalled = record {
  gpioc_register = λ fd i. return (pos 0);
  sigwaitinfo = return (pos 1);
  debounce_us = λ us. return tt;
  getc = return 10;
}

lossy_sockets : OpenSockets lossy signalled
lossy_sockets = record {
  opens = λ w. w;
  socket_opens = λ w. refl;
  close_sock_opens = λ fd rest w e. ap tail_of e;
  setsockopt_opens = λ fd o w. refl;
  inet_pton_opens = λ text w. refl;
  connect_opens = λ fd addr port w. refl;
  sleep_opens = λ n w. refl;
  recv_opens = λ fd n w. refl;
  send_opens = λ fd bs w. refl;
  register_opens = λ fd i w. refl;
  sigwaitinfo_opens = λ w. refl;
  debounce_opens = λ us w. refl;
  getc_opens = λ w. refl;
}

switched_pins : NoSockets (λ (w : List ℤ). w) switched
switched_pins = record {
  open_opens = λ dev w. refl;
  read_opens = λ fd w. refl;
  close_opens = λ fd w. refl;
}

-- Three connections, each lost at once.
panel_main-AtMostOne_example :
    let (next, q) =
      panel_main lossy signalled (pins switched) 3 2 1 [] (switches_table, pos 9 ∷ []) in
    AtMostOne lossy signalled lossy_sockets (pos 9 ∷ []) next q.1
unfolding lossy_sockets
panel_main-AtMostOne_example =
    panel_main-AtMostOne lossy signalled lossy_sockets (pos 9 ∷ []) (pins switched) switched_pins 3
      2 1 [] (switches_table, pos 9 ∷ []) refl
