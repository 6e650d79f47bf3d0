-- ===== src/Actuator/Drivers.antt =====
-- The driver functions: pad_server/src/gpio_actuator.c, pwm_actuator.c, gpio_dummy_actuator.c and
-- pwm_dummy_actuator.c.
use Prim.Native.String.{String}
use hysim.Base.{
  ℕ, Bool, true, false, ℤ, pos, negsuc, Run, ◌>>=◌, return, get_or, set, if◌then◌else◌, is_negative,
  is_minus_one,
}
use hysim.Os.{Devices, PwmChannel, PwmConfig}

-- pwm_actinfo_t
pub record PwmActInfo : Type 0 where
  pub dev : String
  pub channel : ℕ
  pub close_duty : ℕ
  pub open_duty : ℕ

-- What `void *priv` points to.
pub data Priv : Type 0 where
  null : Priv
  gpio_dev : String → Priv
  pwm_info : PwmActInfo → Priv

-- DEFAULT_FREQUENCY: 1 / 0.004 s, in Hz.
abbrev pub default_frequency : ℕ
default_frequency = 250

abbrev pub no_channel : PwmChannel
no_channel = record { channel = 0; cpol = 0; dcpol = 0; duty = 0 }

-- The fields that the code sets before it starts the signal; the other channels stay as read.
unfoldable pub pwm_configure : PwmActInfo → Bool → PwmConfig → PwmConfig
pwm_configure priv open_act config = record {
  frequency = default_frequency;
  channels =
      set config.channels priv.channel (record (get_or config.channels priv.channel no_channel) {
        channel = priv.channel;
        cpol = 1;
        dcpol = 0;
        duty = if open_act then priv.open_duty else priv.close_duty;
      });
}

module _ {W : Type 0} (os : Devices W) where
  open os use {
    errno, open_dev, close, gpioc_write, pwmioc_getcharacteristics, pwmioc_setcharacteristics,
    pwmioc_start,
  }

  -- The bodies of `gpio_actuator_on` and `gpio_actuator_off` differ in the value that is written.
  unfoldable pub gpio_actuator_write : String → Bool → Run W ℤ
  gpio_actuator_write dev value = do
    fd ← open_dev dev
    if is_negative fd then return (negsuc 0) else do
      err ← gpioc_write fd value
      if is_negative err
          then return (negsuc 0)
          else do closed ← close fd; return (if is_minus_one closed then negsuc 0 else pos 0)

  abbrev return_errno : Run W ℤ
  return_errno w = (errno w, w)

  unfoldable pub pwm_send_signal : PwmActInfo → Bool → Run W ℤ
  unfolding pwm_configure
  pwm_send_signal priv open_act = do
    fd ← open_dev priv.dev
    if is_negative fd then return_errno else do
      (err, config) ← pwmioc_getcharacteristics fd
      if is_negative err then return_errno else do
        err' ← pwmioc_setcharacteristics fd (pwm_configure priv open_act config)
        if is_negative err' then return_errno else do
          err'' ← pwmioc_start fd
          if is_negative err'' then return_errno else return err''

-- A driver that finds `priv` of another kind than it casts to: undefined behaviour in C. It does not
-- arise, since each init function below stores the drivers together with the data that they expect.
abbrev pub bad_cast : {W : Type 0} → Run W ℤ
bad_cast w = (negsuc 1, w)

-- actuate_f: the driver functions read `priv` and nothing else of the actuator.
abbrev pub ActuateF : Type 0 → Type 0
ActuateF W = Priv → Run W ℤ

module _ {W : Type 0} (os : Devices W) where
  unfoldable pub gpio_actuator_on : ActuateF W
  unfolding gpio_actuator_write
  gpio_actuator_on (gpio_dev dev) w = gpio_actuator_write os dev true w
  gpio_actuator_on _ w = bad_cast w

  unfoldable pub gpio_actuator_off : ActuateF W
  unfolding gpio_actuator_write
  gpio_actuator_off (gpio_dev dev) w = gpio_actuator_write os dev false w
  gpio_actuator_off _ w = bad_cast w

  unfoldable pub pwm_actuator_on : ActuateF W
  unfolding pwm_send_signal
  pwm_actuator_on (pwm_info info) w = pwm_send_signal os info false w
  pwm_actuator_on _ w = bad_cast w

  unfoldable pub pwm_actuator_off : ActuateF W
  unfolding pwm_send_signal
  pwm_actuator_off (pwm_info info) w = pwm_send_signal os info true w
  pwm_actuator_off _ w = bad_cast w

-- The desktop build's drivers print a line and succeed.
unfoldable pub dummy_gpio_actuator_on : {W : Type 0} → ActuateF W
dummy_gpio_actuator_on priv = return (pos 0)

unfoldable pub dummy_gpio_actuator_off : {W : Type 0} → ActuateF W
dummy_gpio_actuator_off priv = return (pos 0)

unfoldable pub dummy_pwm_actuator_on : {W : Type 0} → ActuateF W
dummy_pwm_actuator_on priv = return (pos 0)

unfoldable pub dummy_pwm_actuator_off : {W : Type 0} → ActuateF W
dummy_pwm_actuator_off priv = return (pos 0)
