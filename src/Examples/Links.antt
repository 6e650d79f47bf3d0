-- ===== src/Examples/Links.antt =====
-- The receive loop of the pad server on a cable whose ends are known.
use hysim.Base.{ℕ, ◌≡◌, refl, List, [], ◌∷◌, ◌++◌, pos, arith, length}
use hysim.Actuator.{actuator_init, dummy_gpio_actuator_init, dummy_pwm_actuator_init, desktop_build}
use hysim.Actuator.Drivers.{
  null, dummy_gpio_actuator_on, dummy_gpio_actuator_off, dummy_pwm_actuator_on,
  dummy_pwm_actuator_off,
}
use hysim.PadState.{PadState, padstate_init, init_actuators, init_actuator}
use hysim.PadState.Init.{init_with}
use hysim.PadState.Untouched.{AllObedient, IsObedient}
use hysim.Controller.{Controller}
use hysim.Controller.Channel.{Channel}
use hysim.Controller.Messages.{again, receive_loop}
use hysim.Controller.Machine.{Request, act_request, arm_request, encode_requests, view, react_all}
use hysim.Controller.Session.{IsReady, receive_loop-serves}
use hysim.Examples.Systems.{Cable, granted, working, sockets, quiet}

abbrev pub server : Controller
server = record { sock = pos 3; client = pos 5; addr = 0 }

abbrev pub cable_line : Cable → List ℕ × List (List ℕ)
cable_line w = (w.input, w.output)

abbrev pub cable : Channel granted sockets server.client
cable = record {
  line = cable_line;
  recv_some = λ n w h. refl;
  recv_line = λ n w h. refl;
  send_line = λ bs w. refl;
  rdlock_ok = λ w. refl;
  wrlock_ok = λ w. refl;
  untouched = record {
    rdlock_line = λ w. refl;
    wrlock_line = λ w. refl;
    rwlock_unlock_line = λ w. refl;
    mutex_lock_line = λ w. refl;
    mutex_unlock_line = λ w. refl;
    cond_signal_line = λ w. refl;
  };
}

-- Arm up to ignition, disconnect, and ask for an actuator that does not exist.
abbrev pub dialogue : List Request
dialogue =
    arm_request (record { level = 1 })
    ∷ arm_request (record { level = 2 })
    ∷ act_request (record { id = 13; state = 1 })
    ∷ act_request (record { id = 77; state = 1 })
    ∷ []

abbrev pub talking : PadState Cable × Cable
talking = (
  init_with granted quiet desktop_build,
  record quiet { input = encode_requests dialogue ++ 1 ∷ [] },
)

dummy-IsObedient :
    {L : Type 0} (line : Cable → L) (id : ℕ)
    → IsObedient line (actuator_init id dummy_gpio_actuator_on dummy_gpio_actuator_off null)
unfolding actuator_init dummy_gpio_actuator_on dummy_gpio_actuator_off
dummy-IsObedient line id = record {
  on_works = λ w. refl;
  off_works = λ w. refl;
  on_line = λ w. refl;
  off_line = λ w. refl;
}

dummy_pwm-IsObedient :
    {L : Type 0} (line : Cable → L) (id : ℕ)
    → IsObedient line (actuator_init id dummy_pwm_actuator_on dummy_pwm_actuator_off null)
unfolding actuator_init dummy_pwm_actuator_on dummy_pwm_actuator_off
dummy_pwm-IsObedient line id = record {
  on_works = λ w. refl;
  off_works = λ w. refl;
  on_line = λ w. refl;
  off_line = λ w. refl;
}

pub talking-obedient : {L : Type 0} (line : Cable → L) → AllObedient line talking.0.actuators
unfolding padstate_init init_actuators init_actuator dummy_gpio_actuator_init
    dummy_pwm_actuator_init
talking-obedient line = (
  dummy-IsObedient line 0,
  (
    dummy-IsObedient line 1,
    (
      dummy-IsObedient line 2,
      (
        dummy-IsObedient line 3,
        (
          dummy-IsObedient line 4,
          (
            dummy-IsObedient line 5,
            (
              dummy-IsObedient line 6,
              (
                dummy-IsObedient line 7,
                (
                  dummy-IsObedient line 8,
                  (
                    dummy-IsObedient line 9,
                    (
                      dummy-IsObedient line 10,
                      (
                        dummy-IsObedient line 11,
                        (
                          dummy-IsObedient line 12,
                          (dummy_pwm-IsObedient line 13, (dummy_pwm-IsObedient line 14, tt)),
                        ),
                      ),
                    ),
                  ),
                ),
              ),
            ),
          ),
        ),
      ),
    ),
  ),
)

pub talking-IsReady : IsReady granted working sockets server cable talking
unfolding padstate_init
talking-IsReady = record { in_range = omega arith; obedient = talking-obedient cable_line }

receive_loop-serves_example :
    let t = receive_loop granted working sockets (length dialogue) server talking in
    let m = react_all dialogue (view talking.0) [] in
    (t.0 ≡ (again, server)) × (view t.1.0 ≡ m.0) × (cable_line t.1.1 ≡ (1 ∷ [], m.1))
receive_loop-serves_example =
    receive_loop-serves granted working sockets server cable dialogue (1 ∷ []) [] talking
      (omega arith, (omega arith, ((omega arith, omega arith), ((omega arith, omega arith), tt))))
      talking-IsReady refl
