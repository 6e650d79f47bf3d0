-- ===== src/PadState/Table.antt =====
-- The table `ACTUATORS` of pad_server/src/state.c.
use Prim.Native.String.{String}
use hysim.Base.{ℕ, List, [], ◌∷◌}
use hysim.Actuator.Drivers.{PwmActInfo}
use hysim.Actuator.{
  id_igniter, id_xv1, id_xv2, id_xv3, id_xv4, id_xv5, id_xv6, id_xv7, id_xv8, id_xv9, id_xv10,
  id_xv11, id_xv12, id_quick_disconnect, id_dump,
}

-- struct actuator_info: the union's member is told by the flag `gpio`.
pub data ActuatorInfo : Type 0 where
  gpio : ℕ → String → ActuatorInfo
  pwm : ℕ → PwmActInfo → ActuatorInfo

abbrev pub info_id : ActuatorInfo → ℕ
info_id (gpio id dev) = id
info_id (pwm id info) = id

abbrev pub actuators_table : List ActuatorInfo
actuators_table =
    gpio id_xv1 "/dev/gpio0"
    ∷ gpio id_xv2 "/dev/gpio1"
    ∷ gpio id_xv3 "/dev/gpio2"
    ∷ gpio id_xv4 "/dev/gpio3"
    ∷ gpio id_xv5 "/dev/gpio4"
    ∷ gpio id_xv6 "/dev/gpio5"
    ∷ gpio id_xv7 "/dev/gpio6"
    ∷ gpio id_xv8 "/dev/gpio11"
    ∷ gpio id_xv9 "/dev/gpio10"
    ∷ gpio id_xv10 "/dev/gpio9"
    ∷ gpio id_xv11 "/dev/gpio8"
    ∷ gpio id_xv12 "/dev/gpio28"
    ∷ gpio id_igniter "/dev/gpio7"
    ∷ pwm id_dump
        (record { dev = "/dev/pwm5"; channel = 1; close_duty = 0x4000; open_duty = 0x8000 })
    ∷ pwm id_quick_disconnect
        (record { dev = "/dev/pwm5"; channel = 0; close_duty = 0x2666; open_duty = 0x8ccc })
    ∷ []
