-- ===== src/PadState/Effect.antt =====
-- What `pad_actuate` and the functions it calls (pad_server/src/state.c) do to the actuators and to
-- the arming level.
use hysim.Base.{
  ℕ, zero, suc, ◌+◌, ◌≤◌, ◌≡◌, ◌≢◌, ◌⊎◌, refl, ap, Bool, List, [], ◌∷◌, ◌&&◌, ltb, ◌==◌, pos,
  negsuc, is_zero, if◌then◌else◌, arith, set, get_or,
}
use hysim.Packet.{act_ok}
use hysim.Os.{Locks, Devices}
use hysim.Actuator.{Actuator, actuator_set, actuator_on, actuator_off, zeroed_actuator}
use hysim.PadState.{
  PadState, bool_of, set_actuator, after_actuation, follow_actuator, pad_actuate, actuate_actuator,
  padstate_get_level,
}
use hysim.PadState.Levels.{
  get_level-keeps, get_level_lem, change_level-keeps, change_level_bounds, change_level_lem,
  signal_update-keeps, allowed,
}
use hysim.PadState.Permission.{min_level, level_denies-min_level}

-- The actuators after `id` was told to take the state `req_state`.
abbrev pub actuated : {W : Type 0} → ℕ → ℕ → List (Actuator W) → List (Actuator W)
actuated id req_state acts =
    set acts id (record (get_or acts id zeroed_actuator) { state = bool_of req_state })

module _ {W : Type 0} where
  -- On success the actuator holds the new state, and on failure it is as it was.
  pub actuator_set_lem :
      (act : Actuator W) (b : Bool) (w : W)
      → let (err, act') = (actuator_set act b w).0 in
        ((err ≡ pos 0) × (act' ≡ record act { state = b })) ⊎ ((err ≡ negsuc 0) × (act' ≡ act))
  unfolding actuator_set actuator_on actuator_off
  actuator_set_lem act b w = ground arith

  set_same :
      (acts : List (Actuator W)) (i : ℕ) (d : Actuator W) → set acts i (get_or acts i d) ≡ acts
  set_same [] i d = refl
  set_same (x ∷ xs) zero d = refl
  set_same (x ∷ xs) (suc i) d = ap (◌∷◌ x) (set_same xs i d)

  pub set_actuator_lem :
      (id : ℕ) (b : Bool) (p : PadState W × W)
      → let old = get_or p.0.actuators id zeroed_actuator in
        let r = set_actuator id b p in
        ((r.0 ≡ pos 0)
          × (r.1.0 ≡ record (p.0) { actuators = set p.0.actuators id (record old { state = b }) }))
        ⊎ ((r.0 ≡ negsuc 0) × (r.1.0 ≡ p.0))
  unfolding set_actuator
  set_actuator_lem id b p = ground (
    arith,
    actuator_set_lem (get_or p.0.actuators id zeroed_actuator) b p.1,
    set_same p.0.actuators id zeroed_actuator,
  )

module _ {W : Type 0} (locks : Locks W) where
  pub after_actuation_bounds :
      (id req_state : ℕ) (p : PadState W × W)
      → p.0.arm_level ≤ 4
      → let t = (after_actuation locks id req_state p).1.0 in
        (t.arm_level ≤ p.0.arm_level + 1) × (t.arm_level ≤ 4)
  unfolding after_actuation follow_actuator
  after_actuation_bounds id req_state p h = ground (
    arith,
    get_level-keeps locks p,
    change_level_bounds locks 2 p,
    change_level_bounds locks 3 p,
    change_level_bounds locks 3 (padstate_get_level locks p).1,
    change_level_bounds locks 4 (padstate_get_level locks p).1,
  )

  pub after_actuation-keeps :
      (id req_state : ℕ) (p : PadState W × W)
      → let t = (after_actuation locks id req_state p).1.0 in
        (t.conn_status ≡ p.0.conn_status) × (t.actuators ≡ p.0.actuators)
  unfolding after_actuation follow_actuator
  after_actuation-keeps id req_state p = ground (
    arith,
    get_level-keeps locks p,
    change_level-keeps locks 2 p,
    change_level-keeps locks 3 p,
    change_level-keeps locks 3 (padstate_get_level locks p).1,
    change_level-keeps locks 4 (padstate_get_level locks p).1,
  )

module _ {W : Type 0} (locks : Locks W) (os : Devices W) where
  -- Where an actuator is set: the actuators and the connection status afterwards.
  actuate_actuator_lem :
      (id req_state : ℕ) (p : PadState W × W)
      → let r = actuate_actuator locks os id req_state p in
        ((r.0 ≡ pos act_ok)
          × (r.1.0.actuators ≡ actuated id req_state p.0.actuators)
          × (r.1.0.conn_status ≡ p.0.conn_status))
        ⊎ ((r.0 ≡ negsuc 0) × (r.1.0 ≡ p.0))
  unfolding actuate_actuator
  actuate_actuator_lem id req_state p =
      let q : PadState W × W = (set_actuator id (bool_of req_state) p).1 in
      ground (
        arith,
        set_actuator_lem id (bool_of req_state) p,
        after_actuation-keeps locks id req_state q,
        signal_update-keeps locks (after_actuation locks id req_state q).1,
      )

  actuate_actuator_bounds :
      (id req_state : ℕ) (p : PadState W × W)
      → p.0.arm_level ≤ 4
      → let t = (actuate_actuator locks os id req_state p).1.0 in
        (t.arm_level ≤ p.0.arm_level + 1) × (t.arm_level ≤ 4)
  unfolding actuate_actuator
  actuate_actuator_bounds id req_state p h =
      let q : PadState W × W = (set_actuator id (bool_of req_state) p).1 in
      ground (
        arith,
        set_actuator_lem id (bool_of req_state) p,
        after_actuation_bounds locks id req_state q,
        signal_update-keeps locks (after_actuation locks id req_state q).1,
      )

  -- With any locks and drivers: after `ACT_OK` the actuator holds the requested state, the others and the
  -- connection status are as they were; after any other answer the whole pad state is.
  pub pad_actuate-actuators :
      (id req_state : ℕ) (p : PadState W × W)
      → let r = pad_actuate locks os id req_state p in
        ((r.0 ≡ pos act_ok)
          × (r.1.0.actuators ≡ actuated id req_state p.0.actuators)
          × (r.1.0.conn_status ≡ p.0.conn_status))
        ⊎ ((r.0 ≢ pos act_ok) × (r.1.0 ≡ p.0))
  unfolding pad_actuate
  pad_actuate-actuators id req_state p = ground (
    arith,
    get_level-keeps locks p,
    actuate_actuator_lem id req_state p,
    actuate_actuator_lem id req_state (padstate_get_level locks p).1,
  )

  pub pad_actuate_bounds :
      (id req_state : ℕ) (p : PadState W × W)
      → p.0.arm_level ≤ 4
      → let t = (pad_actuate locks os id req_state p).1.0 in
        (t.arm_level ≤ p.0.arm_level + 1) × (t.arm_level ≤ 4)
  unfolding pad_actuate
  pad_actuate_bounds id req_state p h = ground (
    arith,
    get_level-keeps locks p,
    actuate_actuator_bounds id req_state p,
    actuate_actuator_bounds id req_state (padstate_get_level locks p).1,
  )

-- The arming level after a successful actuation: only switching the quick disconnect on at
-- `ARMED_IGNITION` and the igniter on at `ARMED_DISCONNECTED` moves it.
abbrev pub raised : ℕ → ℕ → ℕ → ℕ
raised l id req_state =
    if id == 13 && (l == 2 && bool_of req_state)
    then 3
    else (if id == 0 && (l == 3 && bool_of req_state) then 4 else l)

module _ {W : Type 0} (locks : Locks W) (os : Devices W)
    (granted_rd : (w : W) → (locks.rdlock w).0 ≡ 0)
    (granted_wr : (w : W) → (locks.wrlock w).0 ≡ 0) where
  follow_actuator_lem :
      (req_state level below : ℕ) (p : PadState W × W)
      → p.0.arm_level ≤ 4
      → level ≤ 4
      → below ≤ 4
      → (follow_actuator locks req_state level below p).1.0.arm_level ≡ (
          if bool_of req_state
          then (if ltb p.0.arm_level level && allowed p.0.arm_level level
              then level
              else p.0.arm_level)
          else (if allowed p.0.arm_level below then below else p.0.arm_level))
  unfolding follow_actuator
  follow_actuator_lem req_state level below p h k m =
      let q : PadState W × W = (padstate_get_level locks p).1 in
      ground (
        arith,
        get_level-keeps locks p,
        get_level_lem locks p,
        granted_rd p.1,
        granted_wr p.1,
        granted_wr q.1,
        change_level_lem locks below p,
        change_level_lem locks level q,
      )

  after_actuation-level :
      (id req_state : ℕ) (p : PadState W × W)
      → p.0.arm_level ≤ 4
      → min_level id ≤ p.0.arm_level
      → (after_actuation locks id req_state p).1.0.arm_level ≡ raised p.0.arm_level id req_state
  unfolding after_actuation
  after_actuation-level id req_state p h k =
      ground (arith, follow_actuator_lem req_state 3 2 p, follow_actuator_lem req_state 4 3 p)

  actuate_actuator-level :
      (id req_state : ℕ) (p : PadState W × W)
      → p.0.arm_level ≤ 4
      → min_level id ≤ p.0.arm_level
      → (actuate_actuator locks os id req_state p).0 ≡ pos act_ok
      → (actuate_actuator locks os id req_state p).1.0.arm_level ≡ raised p.0.arm_level id req_state
  unfolding actuate_actuator
  actuate_actuator-level id req_state p h k e =
      let q : PadState W × W = (set_actuator id (bool_of req_state) p).1 in
      ground (
        arith,
        set_actuator_lem id (bool_of req_state) p,
        after_actuation-level id req_state q,
        signal_update-keeps locks (after_actuation locks id req_state q).1,
      )

  -- With the locks granted and a level in range, a successful request moves the arming level as `raised`
  -- says, up a level or not at all, also where it switches an actuator off; any other request leaves it.
  pub pad_actuate-level :
      (id req_state : ℕ) (p : PadState W × W)
      → p.0.arm_level ≤ 4
      → (pad_actuate locks os id req_state p).1.0.arm_level ≡ (
          if (is_zero (pad_actuate locks os id req_state p).0)
          then raised p.0.arm_level id req_state
          else p.0.arm_level)
  unfolding pad_actuate
  pad_actuate-level id req_state p h = ground (
    arith,
    get_level-keeps locks p,
    get_level_lem locks p,
    granted_rd p.1,
    level_denies-min_level p.0.arm_level id,
    actuate_actuator_lem locks os id req_state p,
    actuate_actuator_lem locks os id req_state (padstate_get_level locks p).1,
    actuate_actuator-level id req_state p,
    actuate_actuator-level id req_state (padstate_get_level locks p).1,
  )
