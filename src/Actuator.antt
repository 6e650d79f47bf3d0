-- ===== src/Actuator.antt =====
-- pad_server/src/actuator.h and actuator.c: an actuator and its drivers. `on` and `off` are the C
-- function pointers. A function that changes `*act` returns the actuator as it leaves it, with its
-- own result. Log lines are left out.
pub mod Drivers
pub mod Reports
use Prim.Native.String.{String}
use hysim.Base.{
  ℕ, Bool, true, false, Option, none, some, ℤ, negsuc, pos, Run, ◌>>=◌, return, ◌==◌, if◌then◌else◌,
  is_minus_one,
}
use hysim.Os.{Devices}
use Drivers.{
  PwmActInfo, Priv, null, gpio_dev, pwm_info, ActuateF, gpio_actuator_on, gpio_actuator_off,
  pwm_actuator_on, pwm_actuator_off, dummy_gpio_actuator_on, dummy_gpio_actuator_off,
  dummy_pwm_actuator_on, dummy_pwm_actuator_off,
}

-- act_id_e
abbrev pub id_igniter : ℕ
id_igniter = 0

abbrev pub id_xv1 : ℕ
id_xv1 = 1

abbrev pub id_xv2 : ℕ
id_xv2 = 2

abbrev pub id_xv3 : ℕ
id_xv3 = 3

abbrev pub id_xv4 : ℕ
id_xv4 = 4

abbrev pub id_xv5 : ℕ
id_xv5 = 5

abbrev pub id_fire_valve : ℕ
id_fire_valve = 5

abbrev pub id_xv6 : ℕ
id_xv6 = 6

abbrev pub id_xv7 : ℕ
id_xv7 = 7

abbrev pub id_xv8 : ℕ
id_xv8 = 8

abbrev pub id_xv9 : ℕ
id_xv9 = 9

abbrev pub id_xv10 : ℕ
id_xv10 = 10

abbrev pub id_xv11 : ℕ
id_xv11 = 11

abbrev pub id_xv12 : ℕ
id_xv12 = 12

abbrev pub id_quick_disconnect : ℕ
id_quick_disconnect = 13

abbrev pub id_dump : ℕ
id_dump = 14

-- actuator_t
pub record Actuator (W : Type 0) : Type 0 where
  pub id : ℕ
  pub state : Bool
  pub on : ActuateF W
  pub off : ActuateF W
  pub priv : Priv

-- The table `ACTUATOR_STR`; `none` is a read past its end.
unfoldable pub actuator_str : ℕ → Option String
actuator_str id =
    if id == id_xv1
    then some "XV-1"
    else (if id == id_xv2
        then some "XV-2"
        else (if id == id_xv3
            then some "XV-3"
            else (if id == id_xv4
                then some "XV-4"
                else (if id == id_fire_valve
                    then some "XV-5 (Fire valve)"
                    else (if id == id_xv6
                        then some "XV-6"
                        else (if id == id_xv7
                            then some "XV-7"
                            else (if id == id_xv8
                                then some "XV-8"
                                else (if id == id_xv9
                                    then some "XV-9"
                                    else (if id == id_xv10
                                        then some "XV-10"
                                        else (if id == id_xv11
                                            then some "XV-11"
                                            else (if id == id_xv12
                                                then some "XV-12"
                                                else (if id == id_quick_disconnect
                                                    then some "Quick disconnect"
                                                    else (if id == id_igniter
                                                        then some "Igniter"
                                                        else (if id == id_dump
                                                            then some "Dump valve"
                                                            else none))))))))))))))

module _ {W : Type 0} where
  unfoldable pub actuator_get_name : Actuator W → Option String
  unfolding actuator_str
  actuator_get_name act = actuator_str act.id

  -- An array element of a global variable before it is initialized. To call its null pointers is
  -- undefined behaviour; `padstate_init` replaces all of them.
  abbrev pub zeroed_actuator : Actuator W
  zeroed_actuator = record {
    id = 0;
    state = false;
    on = λ priv w. (negsuc 1, w);
    off = λ priv w. (negsuc 1, w);
    priv = null;
  }

  unfoldable pub actuator_init : ℕ → ActuateF W → ActuateF W → Priv → Actuator W
  actuator_init id on off priv = record { id = id; state = false; on = on; off = off; priv = priv }

  unfoldable pub actuator_on : Actuator W → Run W (ℤ × Actuator W)
  actuator_on act = do
    err ← act.on act.priv
    return (if is_minus_one err then (err, act) else (pos 0, record act { state = true }))

  unfoldable pub actuator_off : Actuator W → Run W (ℤ × Actuator W)
  actuator_off act = do
    err ← act.off act.priv
    return (if is_minus_one err then (err, act) else (pos 0, record act { state = false }))

  unfoldable pub actuator_set : Actuator W → Bool → Run W (ℤ × Actuator W)
  unfolding actuator_on actuator_off
  actuator_set act new_state = if new_state then actuator_on act else actuator_off act

-- Which drivers a build links: the NuttX build's or the desktop build's.
pub record Build (W : Type 0) : Type 0 where
  pub gpio_actuator_init : ℕ → String → Actuator W
  pub pwm_actuator_init : ℕ → PwmActInfo → Actuator W

module _ {W : Type 0} (os : Devices W) where
  unfoldable pub gpio_actuator_init : ℕ → String → Actuator W
  unfolding actuator_init
  gpio_actuator_init id dev =
      actuator_init id (gpio_actuator_on os) (gpio_actuator_off os) (gpio_dev dev)

  unfoldable pub pwm_actuator_init : ℕ → PwmActInfo → Actuator W
  unfolding actuator_init
  pwm_actuator_init id info =
      actuator_init id (pwm_actuator_on os) (pwm_actuator_off os) (pwm_info info)

  abbrev pub nuttx_build : Build W
  nuttx_build = record {
    gpio_actuator_init = gpio_actuator_init;
    pwm_actuator_init = pwm_actuator_init;
  }

module _ {W : Type 0} where
  unfoldable pub dummy_gpio_actuator_init : ℕ → String → Actuator W
  unfolding actuator_init
  dummy_gpio_actuator_init id dev =
      actuator_init id dummy_gpio_actuator_on dummy_gpio_actuator_off null

  unfoldable pub dummy_pwm_actuator_init : ℕ → PwmActInfo → Actuator W
  unfolding actuator_init
  dummy_pwm_actuator_init id info =
      actuator_init id dummy_pwm_actuator_on dummy_pwm_actuator_off null

  abbrev pub desktop_build : Build W
  desktop_build = record {
    gpio_actuator_init = dummy_gpio_actuator_init;
    pwm_actuator_init = dummy_pwm_actuator_init;
  }
