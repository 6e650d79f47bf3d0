-- ===== src/PadState.antt =====
-- pad_server/src/state.h and state.c: the shared state of the pad server and its operations. An
-- operation runs on the state paired with the world of the operating system. A read of an enum-typed
-- level that fails returns -1, which the unsigned enum type turns into its largest value. Log lines
-- are left out, and so are the lock objects themselves, which live in the world.
mod Table
pub mod Levels
pub mod Permission
pub mod Effect
pub mod Invariant
pub mod Init
pub mod History
pub mod Untouched
pub mod Quiet
pub use Table.{ActuatorInfo, gpio, pwm, info_id, actuators_table}
use hysim.Base.{
  ℕ, ◌+◌, ◌-◌, Bool, true, false, not, ◌&&◌, ◌||◌, List, [], ◌∷◌, ℤ, pos, negsuc, Run, ◌>>=◌, ◌>>◌,
  return, ltb, leb, ◌==◌, if◌then◌else◌, is_zero, set, get_or, replicate,
}
use hysim.Packet.{
  u32, armed_pad, armed_valves, armed_ignition, armed_disconnected, armed_launch, act_ok,
  act_denied, act_dne, act_inv, arm_ok, arm_denied, arm_inv, conn_reconnecting,
}
use hysim.Os.{Locks, Devices}
use hysim.Actuator.{
  Actuator, Build, zeroed_actuator, actuator_set, id_igniter, id_xv1, id_xv12, id_fire_valve,
  id_quick_disconnect, id_dump,
}

abbrev pub num_actuators : ℕ
num_actuators = 12 + 1 + 1 + 1

-- padstate_t
pub record PadState (W : Type 0) : Type 0 where
  pub actuators : List (Actuator W)
  pub arm_level : ℕ
  pub conn_status : ℕ
  pub update_recorded : Bool

-- (arm_lvl_e)-1 and (conn_status_e)-1.
abbrev pub enum_error : ℕ
enum_error = 0xffff_ffff

abbrev pub bool_of : ℕ → Bool
bool_of n = not (n == 0)

module _ {W : Type 0} where
  -- A system call, which leaves the pad state alone.
  abbrev pub call : {A : Type 0} → Run W A → Run (PadState W × W) A
  call m (s, w) = ((m w).0, (s, (m w).1))

  abbrev pub get : {A : Type 0} → (PadState W → A) → Run (PadState W × W) A
  get f (s, w) = (f s, (s, w))

  abbrev pub put : (PadState W → PadState W) → Run (PadState W × W) (Unit {0})
  put f (s, w) = (tt, (f s, w))

  -- One round of the loop of `padstate_init`.
  unfoldable pub init_actuator : Build W → ActuatorInfo → List (Actuator W) → List (Actuator W)
  init_actuator b (gpio id dev) acts = set acts id (b.gpio_actuator_init id dev)
  init_actuator b (pwm id info) acts = set acts id (b.pwm_actuator_init id info)

  unfoldable pub init_actuators :
      Build W → List ActuatorInfo → List (Actuator W) → List (Actuator W)
  init_actuators b [] acts = acts
  init_actuators b (info ∷ rest) acts = init_actuators b rest (init_actuator b info acts)

-- The three conditions of `padstate_change_level`, at the current and the new level.
unfoldable pub level_changes : ℕ → ℕ → Bool
level_changes arm_level new_arm =
    let lvl_increase = (new_arm == u32 (arm_level + 1)) && leb new_arm armed_launch in
    let lvl_decrease_from_armed_valves = arm_level == armed_valves && new_arm == armed_pad in
    let lvl_decrease_from_firing_sequence =
      (new_arm == armed_valves
        && (arm_level == armed_ignition
            || (arm_level == armed_disconnected || arm_level == armed_launch)))
      || new_arm == armed_pad in
    lvl_increase || (lvl_decrease_from_armed_valves || lvl_decrease_from_firing_sequence)

module _ {W : Type 0} (locks : Locks W) where
  open locks use {
    rwlock_init, rdlock, wrlock, rwlock_unlock, mutex_init, mutex_lock, mutex_unlock, cond_init,
    cond_signal,
  }

  unfoldable pub padstate_init : Build W → Run (PadState W × W) (Unit {0})
  padstate_init b = do
    call rwlock_init
    put (λ s. record s { arm_level = armed_pad; conn_status = conn_reconnecting })
    put (λ s. record s { actuators = init_actuators b actuators_table s.actuators })
    call mutex_init
    call cond_init
    put (λ s. record s { update_recorded = false })

  unfoldable pub padstate_get_level : Run (PadState W × W) ℕ
  padstate_get_level = do
    err ← call rdlock
    if err == 0
        then (do level ← get (λ s. s.arm_level); call rwlock_unlock; return level)
        else return enum_error

  unfoldable pub padstate_get_connstatus : Run (PadState W × W) ℕ
  padstate_get_connstatus = do
    err ← call rdlock
    if err == 0
        then (do status ← get (λ s. s.conn_status); call rwlock_unlock; return status)
        else return enum_error

  unfoldable pub padstate_signal_update : Run (PadState W × W) ℕ
  padstate_signal_update = do
    err ← call mutex_lock
    if err == 0
        then (do
          put (λ s. record s { update_recorded = true })
          err' ← call cond_signal
          call mutex_unlock
          return err')
        else return err

  unfoldable pub padstate_change_level : ℕ → Run (PadState W × W) ℕ
  padstate_change_level new_arm =
      if ltb armed_launch new_arm || ltb new_arm armed_pad then return arm_inv else do
        err ← call wrlock
        if err == 0
            then (do
              arm_level ← get (λ s. s.arm_level)
              if level_changes arm_level new_arm
                  then (do
                    put (λ s. record s { arm_level = new_arm })
                    call rwlock_unlock
                    padstate_signal_update
                    return arm_ok)
                  else do call rwlock_unlock; return arm_denied)
            else return arm_denied

  unfoldable pub padstate_set_connstatus : ℕ → Run (PadState W × W) ℕ
  padstate_set_connstatus new_status = do
    err ← call wrlock
    if err == 0
        then (do
          put (λ s. record s { conn_status = new_status })
          call rwlock_unlock
          padstate_signal_update
          return arm_ok)
        else return err

module _ {W : Type 0} where
  -- The result, and the variable that `act_val` points to.
  unfoldable pub padstate_get_actstate : PadState W → ℕ → Bool → ℤ × Bool
  padstate_get_actstate s act_id act_val =
      if leb num_actuators act_id
      then (negsuc 0, act_val)
      else (pos 0, (get_or s.actuators act_id zeroed_actuator).state)

  -- The actuator that `act` points to is set in place.
  unfoldable pub set_actuator : ℕ → Bool → Run (PadState W × W) ℤ
  set_actuator id new_state = do
    act ← get (λ s. get_or s.actuators id zeroed_actuator)
    (err, act') ← call (actuator_set act new_state)
    put (λ s. record s { actuators = set s.actuators id act' })
    return err

unfoldable pub is_solenoid_valve : ℕ → Bool
is_solenoid_valve id = (leb id_xv1 id && leb id id_xv12) && not (id == id_fire_valve)

-- The switch of `pad_actuate`: whether it denies the actuator at this level. `ARMED_LAUNCH` and a
-- level that is no enumerator fall through.
unfoldable pub level_denies : ℕ → ℕ → Bool
unfolding is_solenoid_valve
level_denies arm_lvl id =
    if arm_lvl == armed_pad
    then true
    else (if arm_lvl == armed_valves
        then not (is_solenoid_valve id)
        else (if arm_lvl == armed_ignition
            then not (is_solenoid_valve id) && not (id == id_quick_disconnect)
            else (if arm_lvl == armed_disconnected
                then not (is_solenoid_valve id)
                  && (not (id == id_quick_disconnect) && not (id == id_igniter))
                else false)))

module _ {W : Type 0} (locks : Locks W) where
  -- `if (req_state && padstate_get_level(state) < level) padstate_change_level(state, level);` and
  -- `if (!req_state) padstate_change_level(state, below);`.
  unfoldable pub follow_actuator : ℕ → ℕ → ℕ → Run (PadState W × W) (Unit {0})
  follow_actuator req_state level below =
      if bool_of req_state
      then (do
        current ← padstate_get_level locks
        if ltb current level then (do padstate_change_level locks level; return tt) else return tt)
      else (do padstate_change_level locks below; return tt)

  -- What happens to the arming level once the actuator is set.
  unfoldable pub after_actuation : ℕ → ℕ → Run (PadState W × W) (Unit {0})
  after_actuation id req_state =
      if id == id_quick_disconnect
      then follow_actuator req_state armed_disconnected armed_ignition
      else (if id == id_igniter
          then follow_actuator req_state armed_launch armed_disconnected
          else return tt)

module _ {W : Type 0} (locks : Locks W) (os : Devices W) where
  -- From the label `actuate_actuator` on.
  unfoldable pub actuate_actuator : ℕ → ℕ → Run (PadState W × W) ℤ
  actuate_actuator id req_state = do
    err ← set_actuator id (bool_of req_state)
    if is_zero err
        then (do
          after_actuation locks id req_state
          padstate_signal_update locks
          return (pos act_ok))
        else (do call (λ w. (tt, os.set_errno err w)); return (negsuc 0))

  unfoldable pub pad_actuate : ℕ → ℕ → Run (PadState W × W) ℤ
  pad_actuate id req_state =
      if leb num_actuators id
      then return (pos act_dne)
      else (if id == id_dump
          then actuate_actuator id req_state
          else (if not (req_state == 0) && not (req_state == 1) then return (pos act_inv) else (do
            arm_lvl ← padstate_get_level locks
            if level_denies arm_lvl id
                then return (pos act_denied)
                else actuate_actuator id req_state)))
