-- ===== src/PadState/Permission.antt =====
-- Which requests `pad_actuate` (pad_server/src/state.c) refuses, against a table of the lowest level
-- at which each actuator may be used.
use hysim.Base.{
  ℕ, ◌≤◌, ◌<◌, ◌≡◌, ◌≢◌, ◌⊎◌, Option, none, some, ltb, ◌==◌, ℤ, pos, negsuc, if◌then◌else◌, arith,
}
use hysim.Packet.{act_ok, act_denied, act_dne, act_inv}
use hysim.Os.{Locks, Devices}
use hysim.PadState.{
  PadState, level_denies, is_solenoid_valve, pad_actuate, actuate_actuator, padstate_get_level,
}
use hysim.PadState.Levels.{get_level-keeps, get_level_lem}

-- The lowest level for each actuator: none for the dump valve, `ARMED_VALVES` for the solenoid valves
-- but the fire valve, then quick disconnect, igniter and fire valve, one level each.
abbrev pub min_level : ℕ → ℕ
min_level id =
    if id == 14
    then 0
    else (if id == 13 then 2 else (if id == 0 then 3 else (if id == 5 then 4 else 1)))

-- The switch of the code denies exactly below the table's level.
pub level_denies-min_level : (l id : ℕ) → l ≤ 4 → id < 14 → level_denies l id ≡ ltb l (min_level id)
unfolding level_denies is_solenoid_valve
level_denies-min_level l id h k = ground arith

-- The refusal that a request meets, if any, in the order of the checks.
abbrev pub refusal : ℕ → ℕ → ℕ → Option ℕ
refusal l id req_state =
    if ltb 14 id
    then some act_dne
    else (if id == 14
        then none
        else (if ltb 1 req_state
            then some act_inv
            else (if ltb l (min_level id) then some act_denied else none)))

-- What a result and the state after it are for a refusal, and for a request that is let through: the
-- answer is then `ACT_OK` or the error -1.
abbrev pub Answers : {W : Type 0} → Option ℕ → PadState W → ℤ × (PadState W × W) → Type 0
Answers (some v) s r = (r.0 ≡ pos v) × (r.1.0 ≡ s)
Answers none s r = (r.0 ≡ pos act_ok) ⊎ (r.0 ≡ negsuc 0)

module _ {W : Type 0} (locks : Locks W) (os : Devices W) where
  pub actuate_actuator_cases :
      (id req_state : ℕ) (p : PadState W × W)
      → ((actuate_actuator locks os id req_state p).0 ≡ pos act_ok)
        ⊎ ((actuate_actuator locks os id req_state p).0 ≡ negsuc 0)
  unfolding actuate_actuator
  actuate_actuator_cases id req_state p = ground arith

  -- With the read lock granted and a level in range, a request that meets a refusal of the table is answered
  -- by it and changes nothing, and any other is answered by `ACT_OK` or the error -1.
  pub pad_actuate-refusal :
      (id req_state : ℕ) (p : PadState W × W)
      → p.0.arm_level ≤ 4
      → (locks.rdlock p.1).0 ≡ 0
      → Answers (refusal p.0.arm_level id req_state) p.0 (pad_actuate locks os id req_state p)
  unfolding pad_actuate
  pad_actuate-refusal id req_state p h k = ground (
    arith,
    level_denies-min_level p.0.arm_level id,
    get_level-keeps locks p,
    get_level_lem locks p,
    actuate_actuator_cases id req_state p,
    actuate_actuator_cases id req_state (padstate_get_level locks p).1,
  )

  -- Where the read lock fails, a request with an actuator and a state that exist is never refused, at
  -- whatever level: `ARMED_PAD` too.
  pub pad_actuate_unlocked :
      (id req_state : ℕ) (p : PadState W × W)
      → (locks.rdlock p.1).0 ≢ 0
      → id < 15
      → req_state ≤ 1
      → let r = pad_actuate locks os id req_state p in (r.0 ≡ pos act_ok) ⊎ (r.0 ≡ negsuc 0)
  unfolding pad_actuate level_denies
  pad_actuate_unlocked id req_state p h k b = ground (
    arith,
    get_level_lem locks p,
    actuate_actuator_cases id req_state p,
    actuate_actuator_cases id req_state (padstate_get_level locks p).1,
  )
