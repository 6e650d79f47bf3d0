-- ===== src/Examples/Streams.antt =====
-- The receive loop of the pad server on clients that misbehave.
use hysim.Base.{ℕ, ◌≡◌, ◌≤◌, refl, true, false, [], ◌∷◌, some, arith, take, drop, ◌*◌}
use hysim.Os.{Sockets}
use hysim.Actuator.{
  dummy_gpio_actuator_init, dummy_pwm_actuator_init, actuator_init, actuator_set, actuator_on,
  actuator_off,
}
use hysim.Actuator.Drivers.{dummy_pwm_actuator_on, dummy_gpio_actuator_on}
use hysim.Packet.{packet_header_init}
use hysim.Packet.Wire.{
  encode_header, encode_act_req, encode_arm_req, encode_act_ack, encode_arm_ack,
}
use hysim.PadState.{
  PadState, pad_actuate, padstate_init, init_actuators, init_actuator, padstate_change_level,
  level_changes, padstate_signal_update, padstate_get_level, level_denies, is_solenoid_valve,
  actuate_actuator, set_actuator, after_actuation, follow_actuator,
}
use hysim.PadState.Init.{init-IsSafeStart}
use hysim.PadState.History.{state_of}
use hysim.PadState.Invariant.{IsValid}
use hysim.Controller.{controller_recv, controller_send}
use hysim.Controller.Messages.{
  read_header, receive_loop, handle_act_req, controller_run, serve_message, handle_message,
  handle_arm_req, answer_act_req, answer_arm_req, recv_struct,
}
use hysim.Controller.Rounds.{receive_loop-climbs}
use hysim.Controller.Histories.{Follows, controller_run-Follows, controller_run-IsValid}
use hysim.Controller.Fragments.{Pieces, read_header-reassembles, short_request-misread}
use hysim.Examples.Systems.{Cable, granted, working, sockets, quiet}
use hysim.Examples.Links.{server, talking, talking-obedient}

-- One byte at a time.
abbrev trickle : Sockets Cable
trickle = record sockets {
  recv = λ fd n w. (some (take 1 w.input), record w { input = drop 1 w.input });
  stack = λ n w. 0 ∷ 1 ∷ [];
}

abbrev trickling : Pieces trickle server.client
trickling = record {
  incoming = λ w. w.input;
  taken = λ n w. 1;
  taken_some = λ n w h l. (omega arith, omega arith);
  recv_taken = λ n w h l. refl;
  recv_left = λ n w h l. refl;
}

read_header-reassembles_example :
    let w = record quiet { input = 0 ∷ 2 ∷ 7 ∷ [] } in
    let r = read_header trickle server 2 [] w in (r.0 ≡ some (0 ∷ 2 ∷ [])) × (r.1.input ≡ 7 ∷ [])
read_header-reassembles_example =
    read_header-reassembles trickle server trickling 0 2 (7 ∷ [])
      (record quiet { input = 0 ∷ 2 ∷ 7 ∷ [] }) refl

-- A valid state, with a client that asks for solenoid valve 1 to be off.
abbrev ready : PadState Cable × Cable
ready = (record (talking.0) { arm_level = 1 }, record quiet { input = 1 ∷ 0 ∷ [] })

-- It is switched on.
short_request-misread_example :
    let t = (handle_act_req granted working trickle server ready).1 in
    (t.0
      ≡ (pad_actuate granted working 1 1
          (ready.0, (controller_recv trickle server 2 ready.1).1)).1.0)
    × (t.1.input ≡ 0 ∷ [])
short_request-misread_example =
    short_request-misread trickle server trickling granted working
      (record {
        rdlock_line = λ w. refl;
        wrlock_line = λ w. refl;
        rwlock_unlock_line = λ w. refl;
        mutex_lock_line = λ w. refl;
        mutex_unlock_line = λ w. refl;
        cond_signal_line = λ w. refl;
      })
      (λ bs w. refl) 1 0 0 1 [] ready refl refl refl (talking-obedient (λ w. w.input))

controller_run-Follows_example :
    Follows granted working
      (2 * 4)
      talking
      (controller_run granted working sockets 50001 2 3 talking).1
controller_run-Follows_example = controller_run-Follows granted working sockets 50001 2 3 talking

talking-IsValid : IsValid talking.0
talking-IsValid = (init-IsSafeStart granted quiet working).1.0

controller_run-IsValid_example :
    IsValid (controller_run granted working sockets 50001 2 3 talking).1.0
controller_run-IsValid_example =
    controller_run-IsValid granted working sockets 50001 2 3 talking talking-IsValid

talking_off : state_of 13 talking ≡ false
unfolding padstate_init init_actuators init_actuator dummy_pwm_actuator_init actuator_init
talking_off = refl

session_moves : state_of 13 (receive_loop granted working sockets 3 server talking).1 ≡ true
unfolding receive_loop serve_message read_header handle_message handle_act_req handle_arm_req
    answer_act_req answer_arm_req recv_struct controller_recv controller_send encode_header
    encode_act_req encode_arm_req encode_act_ack encode_arm_ack packet_header_init padstate_init
    init_actuators init_actuator padstate_change_level level_changes padstate_signal_update
    pad_actuate padstate_get_level level_denies is_solenoid_valve actuate_actuator set_actuator
    actuator_set actuator_on actuator_off after_actuation follow_actuator dummy_gpio_actuator_init
    dummy_gpio_actuator_on dummy_pwm_actuator_init dummy_pwm_actuator_on actuator_init
session_moves = refl

-- The quick disconnect is on after three rounds, so after one of them the level was `ARMED_VALVES`.
receive_loop-climbs_example :
    (m : ℕ) × (m ≤ 3) × ((receive_loop granted working sockets m server talking).1.0.arm_level ≡ 1)
unfolding padstate_init
receive_loop-climbs_example =
    receive_loop-climbs granted working (λ w. refl) sockets 13 1 (λ e. cc) (omega arith) 3 server
      talking talking-IsValid (omega arith) (λ e. cc (session_moves, e, talking_off))
