-- ===== src/Actuator/Reports.antt =====
-- What `actuator_set` (pad_server/src/actuator.c) reports of the drivers in
-- pad_server/src/gpio_actuator.c and pwm_actuator.c.
use Prim.Native.String.{String}
use hysim.Base.{ℕ, ◌≡◌, ◌⊎◌, Bool, false, pos, negsuc, arith, is_negative, is_minus_one}
use hysim.Os.{Devices}
use hysim.Actuator.Drivers.{
  PwmActInfo, gpio_actuator_on, gpio_actuator_off, gpio_actuator_write, pwm_actuator_on,
  pwm_actuator_off, pwm_send_signal,
}
use hysim.Actuator.{actuator_set, actuator_on, actuator_off, gpio_actuator_init, pwm_actuator_init}

module _ {W : Type 0} (os : Devices W) where
  -- The three calls of a GPIO driver all succeed.
  abbrev pub GpioWritten : String → Bool → W → Type 0
  GpioWritten dev b w =
      let (fd, w1) = os.open_dev dev w in
      let (err, w2) = os.gpioc_write fd b w1 in
      (is_negative fd ≡ false)
      × (is_negative err ≡ false)
      × (is_minus_one (os.close fd w2).0 ≡ false)

  -- Setting a GPIO actuator: either opening, writing and closing its device succeeded, and it reports success
  -- and takes the new state, or one of them failed, and it reports -1 and keeps its state.
  pub gpio-actuator_set :
      (id : ℕ) (dev : String) (b : Bool) (w : W)
      → let act = gpio_actuator_init os id dev in
        let r = (actuator_set act b w).0 in
        (GpioWritten dev b w × (r ≡ (pos 0, record act { state = b })))
        ⊎ ((¬ GpioWritten dev b w) × (r ≡ (negsuc 0, act)))
  unfolding actuator_set actuator_on actuator_off gpio_actuator_init gpio_actuator_on
      gpio_actuator_off gpio_actuator_write
  gpio-actuator_set id dev b w = ground arith

  -- Where `errno` is never negative, a PWM actuator reports success and takes the new state, whatever its
  -- driver met.
  pub pwm-actuator_set :
      (id : ℕ) (info : PwmActInfo) (b : Bool) (w : W)
      → ((w : W) → is_negative (os.errno w) ≡ false)
      → let act = pwm_actuator_init os id info in
        (actuator_set act b w).0 ≡ (pos 0, record act { state = b })
  unfolding actuator_set actuator_on actuator_off pwm_actuator_init pwm_actuator_on pwm_actuator_off
      pwm_send_signal
  pwm-actuator_set id info b w positive = grind (arith, positive)
