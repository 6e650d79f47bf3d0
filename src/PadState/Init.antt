-- ===== src/PadState/Init.antt =====
-- `padstate_init` of pad_server/src/state.c.
use hysim.Base.{◌≡◌, refl, false, List, [], ◌∷◌, map, replicate, get_or, arith}
use hysim.Packet.{armed_pad, conn_reconnecting}
use hysim.Os.{Locks, Devices}
use hysim.Actuator.{
  Actuator, Build, zeroed_actuator, nuttx_build, desktop_build, gpio_actuator_init,
  pwm_actuator_init, dummy_gpio_actuator_init, dummy_pwm_actuator_init, actuator_init,
}
use hysim.PadState.{
  PadState, ActuatorInfo, gpio, pwm, info_id, actuators_table, padstate_init, init_actuators,
  init_actuator, num_actuators,
}
use hysim.PadState.Invariant.{IsValid}

-- The global `state` before `main` runs.
abbrev pub zeroed_state : {W : Type 0} → PadState W
zeroed_state = record {
  actuators = replicate num_actuators zeroed_actuator;
  arm_level = 0;
  conn_status = 0;
  update_recorded = false;
}

abbrev pub All {ℓ} : {A : Type ℓ} → (A → Type 0) → List A → Type 0
All P [] = Unit {0}
All P (x ∷ xs) = P x × All P xs

abbrev pub initialized : {W : Type 0} → Build W → ActuatorInfo → Actuator W
initialized b (gpio id dev) = b.gpio_actuator_init id dev
initialized b (pwm id info) = b.pwm_actuator_init id info

module _ {W : Type 0} (locks : Locks W) (w : W) where
  -- Every row of the table finds its actuator at its own ID: no row overwrites another.
  pub init_installs :
      (b : Build W)
      → All
          (λ row.
            get_or
              (padstate_init locks b (zeroed_state, w)).1.0.actuators
              (info_id row)
              zeroed_actuator
            ≡ initialized b row)
          actuators_table
  unfolding padstate_init init_actuators init_actuator
  init_installs b = (
    refl,
    (
      refl,
      (
        refl,
        (
          refl,
          (
            refl,
            (refl, (refl, (refl, (refl, (refl, (refl, (refl, (refl, (refl, (refl, tt)))))))))),
          ),
        ),
      ),
    ),
  )

  abbrev pub init_with : Build W → PadState W
  init_with b = (padstate_init locks b (zeroed_state, w)).1.0

  abbrev pub IsSafeStart : PadState W → Type 0
  IsSafeStart s =
      IsValid s
      × (s.arm_level ≡ armed_pad)
      × (s.conn_status ≡ conn_reconnecting)
      × (map (λ a. a.state) s.actuators ≡ replicate num_actuators false)

  -- Both builds start valid, at `ARMED_PAD`, with no client connected and every actuator recorded as off.
  pub init-IsSafeStart :
      (os : Devices W)
      → IsSafeStart (init_with (nuttx_build os)) × IsSafeStart (init_with desktop_build)
  unfolding padstate_init init_actuators init_actuator gpio_actuator_init pwm_actuator_init
      dummy_gpio_actuator_init dummy_pwm_actuator_init actuator_init
  init-IsSafeStart os = (
    (record { level = omega arith; conn = omega arith; placed = refl }, refl, refl, refl),
    (record { level = omega arith; conn = omega arith; placed = refl }, refl, refl, refl),
  )
