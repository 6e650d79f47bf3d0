-- ===== src/ControlClient/Panel.antt =====
-- control_client/src/control_client_main.c: the switches of the control box, and the two loops that watch
-- them, one for keys (desktop build) and one for the pins of the box (NuttX build). Both run on the switches
-- and the world. What is printed is left out, but for the complaint about a key.
use Prim.Native.String.{String}
use hysim.Base.{
  ℕ, zero, suc, ◌+◌, Bool, true, false, not, ◌&&◌, ◌||◌, Option, none, some, List, [], ◌∷◌, ℤ, pos,
  Run, ◌>>=◌, return, ◌==◌, if◌then◌else◌, is_negative, get_or, set,
}
use hysim.Packet.{
  cntrl_act_req, cntrl_arm_req, armed_pad, armed_valves, armed_ignition, armed_disconnected,
  armed_launch,
}
use hysim.Actuator.{
  id_xv1, id_xv2, id_xv3, id_xv4, id_fire_valve, id_xv6, id_xv7, id_xv8, id_xv9, id_xv10, id_xv11,
  id_xv12, id_quick_disconnect, id_dump, id_igniter,
}
use hysim.Os.{Sockets, Devices}
use hysim.ControlClient.{PadLink, pad_disconnect}
use hysim.ControlClient.Switches.{Switch, switch_callback}

abbrev pub act_switch : ℕ → Switch
act_switch id = record { act_id = id; kind = cntrl_act_req; state = false }

abbrev pub arm_switch : ℕ → Switch
arm_switch level = record { act_id = level; kind = cntrl_arm_req; state = false }

abbrev pub switches_table : List Switch
switches_table =
    act_switch id_xv1
    ∷ act_switch id_xv2
    ∷ act_switch id_xv3
    ∷ act_switch id_xv4
    ∷ act_switch id_fire_valve
    ∷ act_switch id_xv6
    ∷ act_switch id_xv7
    ∷ act_switch id_xv8
    ∷ act_switch id_xv9
    ∷ act_switch id_xv10
    ∷ act_switch id_xv11
    ∷ act_switch id_xv12
    ∷ act_switch id_quick_disconnect
    ∷ act_switch id_dump
    ∷ act_switch id_igniter
    ∷ arm_switch armed_pad
    ∷ arm_switch armed_valves
    ∷ arm_switch armed_ignition
    ∷ arm_switch armed_disconnected
    ∷ arm_switch armed_launch
    ∷ []

abbrev pub valve_arming_switch_idx : ℕ
valve_arming_switch_idx = 16

-- ACTUATOR_IN, by the identifier.
abbrev pub actuator_in : List (Option String)
actuator_in =
    some "/dev/gpio28"
    ∷ some "/dev/gpio2"
    ∷ some "/dev/gpio3"
    ∷ some "/dev/gpio15"
    ∷ some "/dev/gpio5"
    ∷ some "/dev/gpio6"
    ∷ some "/dev/gpio7"
    ∷ some "/dev/gpio8"
    ∷ some "/dev/gpio9"
    ∷ some "/dev/gpio10"
    ∷ some "/dev/gpio11"
    ∷ some "/dev/gpio12"
    ∷ some "/dev/gpio13"
    ∷ some "/dev/gpio14"
    ∷ some "/dev/gpio4"
    ∷ []

-- ARM_IN, by the level.
abbrev pub arm_in : List (Option String)
arm_in = none ∷ some "/dev/gpio27" ∷ some "/dev/gpio26" ∷ none ∷ none ∷ []

-- A key, by its code, and the index of its switch.
abbrev pub commands_table : List (ℕ × ℕ)
commands_table =
    (113, 0)
    ∷ (119, 1)
    ∷ (101, 2)
    ∷ (114, 3)
    ∷ (116, 4)
    ∷ (121, 5)
    ∷ (117, 6)
    ∷ (105, 7)
    ∷ (112, 8)
    ∷ (97, 9)
    ∷ (115, 10)
    ∷ (100, 11)
    ∷ (102, 12)
    ∷ (103, 13)
    ∷ (104, 14)
    ∷ (122, 15)
    ∷ (120, 16)
    ∷ (99, 17)
    ∷ (118, 18)
    ∷ (98, 19)
    ∷ []

abbrev pub no_switch : Switch
no_switch = act_switch 0

abbrev pub same_state : Bool → Bool → Bool
same_state true b = b
same_state false b = not b

abbrev pub is_last : {A : Type 0} → List A → Bool
is_last [] = true
is_last (x ∷ xs) = false

module _ {W : Type 0} (net : Sockets W) (pad : PadLink) where
  -- The callback on the switch at an index.
  unfoldable pub flip_switch : ℕ → Bool → Run (List Switch × W) ℤ
  flip_switch i value (sws, w) =
      let ((err, sw), w1) = switch_callback net (get_or sws i no_switch) pad value w in
      (err, (set sws i sw, w1))

  -- The loop over the commands after a key: whether the key is called invalid.
  unfoldable pub press_key : ℕ → List (ℕ × ℕ) → Run (List Switch × W) Bool
  press_key key [] p = (false, p)
  press_key key ((k, i) ∷ cs) p =
      let flipped : List Switch × W = (flip_switch i (not (get_or p.0 i no_switch).state) p).1 in
      let after : List Switch × W = if k == key then flipped else p in
      let (invalid, last) = press_key key cs after in
      (((not (k == key)) && is_last cs) || invalid, last)

unfoldable pub gpio_dev : Switch → Option String
gpio_dev sw =
    if sw.kind == cntrl_act_req
    then get_or actuator_in sw.act_id none
    else get_or arm_in sw.act_id none

unfoldable pub turning_off_ignition : Switch → Bool → Bool
turning_off_ignition sw value =
    (sw.kind == cntrl_arm_req) && ((sw.act_id == armed_ignition) && not value)

module _ {W : Type 0} (os : Devices W) (net : Sockets W) (pad : PadLink) where
  -- The pin of a device: none where it cannot be opened or read. The pin is low where the switch is on.
  unfoldable pub read_pin : String → Run W (Option Bool)
  read_pin dev = do
    fd ← os.open_dev dev
    if is_negative fd then return none else do
      (err, value) ← os.gpioc_read fd
      closed ← os.close fd
      return (if is_negative err then none else some (not value))

  unfoldable pub lost_connection : ℤ → Bool
  lost_connection (pos err) =
      (err == net.enotconn) || ((err == net.econnaborted) || (err == net.econnrefused))
  lost_connection _ = false

  -- The switch at an index is thrown; where the connection is lost, it is closed, and true says to connect
  -- again.
  unfoldable pub throw_switch : ℕ → Bool → Run (List Switch × W) Bool
  throw_switch i value p =
      let (err, p1) = flip_switch net pad i value p in
      if lost_connection err then (true, (p1.0, (pad_disconnect net pad p1.1).1)) else (false, p1)

  -- A value that was read, for the switch at an index.
  unfoldable pub take_value : ℕ → Bool → Run (List Switch × W) Bool
  take_value i value p =
      let sw = get_or p.0 i no_switch in
      if same_state value sw.state
      then (false, p)
      else (if turning_off_ignition sw value
            && not (get_or p.0 valve_arming_switch_idx no_switch).state
          then (false, p)
          else throw_switch i value p)

  unfoldable pub scan_switch : ℕ → Run (List Switch × W) Bool
  scan_switch i (sws, w) = elim (gpio_dev (get_or sws i no_switch)) [
    | none ↦ (false, (sws, w))
    | some dev ↦
        (let (value, w1) = read_pin dev w in
          elim value [ none ↦ (false, (sws, w1)) | some b ↦ take_value i b (sws, w1) ])
  ]

  -- The inner loop over the switches from one on, up to the first that says to connect again.
  unfoldable pub scan_pass : ℕ → ℕ → Run (List Switch × W) Bool
  scan_pass zero i p = (false, p)
  scan_pass (suc n) i p =
      let (again, p1) = scan_switch i p in
      let rest = scan_pass n (i + 1) p1 in if again then (true, p1) else rest

  -- The outer loop.
  unfoldable pub scan_passes : ℕ → Run (List Switch × W) Bool
  scan_passes zero p = (false, p)
  scan_passes (suc k) p =
      let (again, p1) = scan_pass 20 0 p in
      let rest = scan_passes k p1 in if again then (true, p1) else rest

  -- What a signal sets off.
  unfoldable pub scan_switches : Run (List Switch × W) Bool
  scan_switches p = scan_passes 20 p
