-- ===== src/PadState/Invariant.antt =====
-- The valid pad states (pad_server/src/state.c): the level and the connection status
-- are enumerators, and the actuator at each index carries that index as its ID.
use hysim.Base.{ℕ, zero, suc, ◌≤◌, ◌≡◌, refl, ap, Bool, List, [], ◌∷◌, map, arith, set, get_or}
use hysim.Os.{Locks, Devices}
use hysim.Actuator.{Actuator, zeroed_actuator}
use hysim.PadState.{
  PadState, bool_of, padstate_change_level, padstate_set_connstatus, padstate_signal_update,
  pad_actuate,
}
use hysim.PadState.Levels.{change_level_bounds, change_level-keeps}
use hysim.PadState.Effect.{pad_actuate-actuators, pad_actuate_bounds}

abbrev pub ids : {W : Type 0} → List (Actuator W) → List ℕ
ids = map (λ a. a.id)

abbrev pub all_ids : List ℕ
all_ids = 0 ∷ 1 ∷ 2 ∷ 3 ∷ 4 ∷ 5 ∷ 6 ∷ 7 ∷ 8 ∷ 9 ∷ 10 ∷ 11 ∷ 12 ∷ 13 ∷ 14 ∷ []

pub record IsValid {W : Type 0} (s : PadState W) : Type 0 where
  pub level : s.arm_level ≤ 4
  pub conn : s.conn_status ≤ 2
  pub placed : ids s.actuators ≡ all_ids

ids-set :
    {W : Type 0} (acts : List (Actuator W)) (i : ℕ) (b : Bool)
    → ids (set acts i (record (get_or acts i zeroed_actuator) { state = b })) ≡ ids acts
ids-set [] i b = refl
ids-set (a ∷ acts) zero b = refl
ids-set (a ∷ acts) (suc i) b = ap (◌∷◌ a.id) (ids-set acts i b)

module _ {W : Type 0} (locks : Locks W) where
  -- A change of the arming level keeps the state valid, whatever the request and the locks.
  pub change_level-IsValid :
      (n : ℕ) (p : PadState W × W) → IsValid p.0 → IsValid (padstate_change_level locks n p).1.0
  change_level-IsValid n p v =
      ground (arith, change_level_bounds locks n p, change_level-keeps locks n p)

  pub set_connstatus-IsValid :
      (n : ℕ) (p : PadState W × W)
      → n ≤ 2
      → IsValid p.0
      → IsValid (padstate_set_connstatus locks n p).1.0
  unfolding padstate_set_connstatus padstate_signal_update
  set_connstatus-IsValid n p h v = ground arith

  -- So does an actuation.
  pub pad_actuate-IsValid :
      (os : Devices W) (id req_state : ℕ) (p : PadState W × W)
      → IsValid p.0
      → IsValid (pad_actuate locks os id req_state p).1.0
  pad_actuate-IsValid os id req_state p v = ground (
    arith,
    pad_actuate_bounds locks os id req_state p,
    pad_actuate-actuators locks os id req_state p,
    ids-set p.0.actuators id (bool_of req_state),
  )
