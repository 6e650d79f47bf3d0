-- ===== src/Examples/PadServer.antt =====
-- The pad state and its actuators.
use hysim.Base.{
  ℕ, ◌≡◌, ◌⊎◌, ◌≢◌, ◌↔◌, refl, true, false, List, [], ◌∷◌, pos, negsuc, arith, is_zero,
  if◌then◌else◌,
}
use hysim.Packet.{act_ok, act_denied}
use hysim.Actuator.Drivers.{PwmActInfo, dummy_gpio_actuator_on, dummy_pwm_actuator_on}
use hysim.Actuator.{
  actuator_set, actuator_on, actuator_off, actuator_init, gpio_actuator_init, pwm_actuator_init,
  dummy_gpio_actuator_init, dummy_pwm_actuator_init, desktop_build,
}
use hysim.Actuator.Reports.{GpioWritten, gpio-actuator_set, pwm-actuator_set}
use hysim.PadState.{
  PadState, level_changes, padstate_init, init_actuators, init_actuator, padstate_change_level,
  padstate_signal_update, padstate_get_level, level_denies, is_solenoid_valve, actuate_actuator,
  set_actuator, after_actuation, follow_actuator, pad_actuate,
}
use hysim.PadState.Levels.{Arms, level_changes-Arms, change_level_lem, change_level_refused}
use hysim.PadState.Permission.{pad_actuate-refusal, pad_actuate_unlocked}
use hysim.PadState.Effect.{actuated, pad_actuate-actuators, pad_actuate-level}
use hysim.PadState.Init.{init-IsSafeStart, init_with}
use hysim.PadState.History.{
  Command, change_level, actuate, run, step, Visits, state_of, moved-Visits,
}
use hysim.PadState.Invariant.{IsValid}
use hysim.Examples.Systems.{World, locks_with, granted, working, unplugged}

-- The desktop build after start-up.
abbrev started : PadState World × World
started = (init_with granted tt desktop_build, tt)

abbrev at_level : ℕ → PadState World × World
at_level n = (record (started.0) { arm_level = n }, tt)

started-IsValid : IsValid started.0
started-IsValid = (init-IsSafeStart granted tt working).1.0

-- Arm up to ignition, disconnect, ignite, open the fire valve.
abbrev launch : List (Command World)
launch = change_level 1 ∷ change_level 2 ∷ actuate 13 1 ∷ actuate 0 1 ∷ actuate 5 1 ∷ []

level_changes-Arms_example : (level_changes 4 1 ≡ true) ↔ Arms 4 1
level_changes-Arms_example = level_changes-Arms 4 1 (omega arith)

change_level_lem_example :
    let r = padstate_change_level granted 3 (at_level 2) in
    (r.0 ≡ 0)
    × (r.1.0.arm_level ≡ 3)
    × (r.1.0.conn_status ≡ 1)
    × (r.1.0.actuators ≡ (at_level 2).0.actuators)
unfolding padstate_init
change_level_lem_example = change_level_lem granted 3 (at_level 2) (omega arith) refl

change_level_refused_example : (padstate_change_level granted 4 (at_level 2)).1.0 ≡ (at_level 2).0
unfolding padstate_change_level level_changes
change_level_refused_example = change_level_refused granted 4 (at_level 2) (λ e. cc)

-- The fire valve at `ARMED_DISCONNECTED`.
pad_actuate-refusal_example :
    let r = pad_actuate granted working 5 1 (at_level 3) in
    (r.0 ≡ pos act_denied) × (r.1.0 ≡ (at_level 3).0)
pad_actuate-refusal_example =
    pad_actuate-refusal granted working 5 1 (at_level 3) (omega arith) refl

-- The igniter at `ARMED_PAD`, where the read lock fails with error 11.
pad_actuate_unlocked_example :
    let r = pad_actuate (locks_with 11) working 0 1 (at_level 0) in
    (r.0 ≡ pos act_ok) ⊎ (r.0 ≡ negsuc 0)
pad_actuate_unlocked_example =
    pad_actuate_unlocked (locks_with 11) working 0 1 (at_level 0) (λ e. cc) (omega arith)
      (omega arith)

pad_actuate-actuators_example :
    let r = pad_actuate granted working 14 7 (at_level 0) in
    ((r.0 ≡ pos act_ok)
      × (r.1.0.actuators ≡ actuated 14 7 (at_level 0).0.actuators)
      × (r.1.0.conn_status ≡ (at_level 0).0.conn_status))
    ⊎ ((r.0 ≢ pos act_ok) × (r.1.0 ≡ (at_level 0).0))
pad_actuate-actuators_example = pad_actuate-actuators granted working 14 7 (at_level 0)

-- The quick disconnect is switched off at `ARMED_LAUNCH`: the level stays.
pad_actuate-level_example :
    (pad_actuate granted working 13 0 (at_level 4)).1.0.arm_level
    ≡ (if (is_zero (pad_actuate granted working 13 0 (at_level 4)).0) then 4 else 4)
pad_actuate-level_example =
    pad_actuate-level granted working (λ w. refl) (λ w. refl) 13 0 (at_level 4) (omega arith)

launch_opens : state_of 5 (run granted working launch started) ≡ true
unfolding run step padstate_init init_actuators init_actuator padstate_change_level level_changes
    padstate_signal_update pad_actuate padstate_get_level level_denies is_solenoid_valve
    actuate_actuator set_actuator actuator_set actuator_on actuator_off after_actuation
    follow_actuator dummy_gpio_actuator_init dummy_gpio_actuator_on dummy_pwm_actuator_init
    dummy_pwm_actuator_on actuator_init
launch_opens = refl

started_closed : state_of 5 started ≡ false
unfolding padstate_init init_actuators init_actuator dummy_gpio_actuator_init
    dummy_pwm_actuator_init actuator_init
started_closed = refl

moved-Visits_example : Visits granted working (λ l. l ≡ 3) launch started
unfolding padstate_init
moved-Visits_example =
    moved-Visits granted working (λ w. refl) 5 3 launch started started-IsValid (λ e. cc)
      (omega arith) (omega arith) opened
  where
    opened : state_of 5 (run granted working launch started) ≢ state_of 5 started
    opened e = cc (launch_opens, started_closed)

gpio-actuator_set_example :
    let act = gpio_actuator_init unplugged 1 "/dev/gpio0" in
    let r = (actuator_set act true tt).0 in
    (GpioWritten unplugged "/dev/gpio0" true tt × (r ≡ (pos 0, record act { state = true })))
    ⊎ ((¬ GpioWritten unplugged "/dev/gpio0" true tt) × (r ≡ (negsuc 0, act)))
gpio-actuator_set_example = gpio-actuator_set unplugged 1 "/dev/gpio0" true tt

abbrev dump_info : PwmActInfo
dump_info = record { dev = "/dev/pwm5"; channel = 1; close_duty = 0x4000; open_duty = 0x8000 }

-- The device cannot be opened, and the dump valve is reported as on.
pwm-actuator_set_example :
    let act = pwm_actuator_init unplugged 14 dump_info in
    (actuator_set act true tt).0 ≡ (pos 0, record act { state = true })
pwm-actuator_set_example = pwm-actuator_set unplugged 14 dump_info true tt (λ w. refl)
