-- ===== src/PadState/History.antt =====
-- Histories of the pad state: any sequence of the operations of pad_server/src/state.c, with any
-- answers of the operating system.
use hysim.Base.{
  ℕ, ◌+◌, ◌≤◌, ◌<◌, ◌≡◌, ◌≢◌, ◌⊎◌, inl, inr, refl, ◌∙◌, Bool, true, false, List, [], ◌∷◌, pos,
  arith, get_or, get_or-set_ne, leb, if◌then◌else◌, Bool-cases, ◌==◌,
}
use hysim.Packet.{act_ok}
use hysim.Os.{Locks, Devices}
use hysim.Actuator.{zeroed_actuator}
use hysim.PadState.{
  PadState, bool_of, padstate_change_level, padstate_set_connstatus, padstate_signal_update,
  pad_actuate,
}
use hysim.PadState.Levels.{change_level_bounds, change_level-keeps}
use hysim.PadState.Permission.{min_level, pad_actuate-refusal}
use hysim.PadState.Effect.{pad_actuate-actuators, pad_actuate_bounds}
use hysim.PadState.Invariant.{
  IsValid, change_level-IsValid, set_connstatus-IsValid, pad_actuate-IsValid,
}

-- `connect` stands for the two statuses that the controller sets: connected, reconnecting. `outside` is
-- anything that is no operation of state.c: it leaves the state and puts the world anywhere.
pub data Command (W : Type 0) : Type 0 where
  change_level : ℕ → Command W
  actuate : ℕ → ℕ → Command W
  connect : Bool → Command W
  outside : W → Command W

abbrev pub state_of : {W : Type 0} → ℕ → PadState W × W → Bool
state_of i p = (get_or p.0.actuators i zeroed_actuator).state

module _ {W : Type 0} (locks : Locks W) (os : Devices W) where
  unfoldable pub step : Command W → PadState W × W → PadState W × W
  step (change_level n) p = (padstate_change_level locks n p).1
  step (actuate id req_state) p = (pad_actuate locks os id req_state p).1
  step (connect b) p = (padstate_set_connstatus locks (if b then 0 else 1) p).1
  step (outside w) p = (p.0, w)

  unfoldable pub run : List (Command W) → PadState W × W → PadState W × W
  run [] p = p
  run (c ∷ cs) p = run cs (step c p)

  -- The level satisfies `P` at some point of the history, its two ends included.
  abbrev pub Visits : (ℕ → Type 0) → List (Command W) → PadState W × W → Type 0
  Visits P [] p = P p.0.arm_level
  Visits P (c ∷ cs) p = P p.0.arm_level ⊎ Visits P cs (step c p)

  pub step-IsValid : (c : Command W) (p : PadState W × W) → IsValid p.0 → IsValid (step c p).0
  unfolding step
  step-IsValid (change_level n) p v = change_level-IsValid locks n p v
  step-IsValid (actuate id r) p v = pad_actuate-IsValid locks os id r p v
  step-IsValid (connect true) p v = set_connstatus-IsValid locks 0 p (omega arith) v
  step-IsValid (connect false) p v = set_connstatus-IsValid locks 1 p (omega arith) v
  step-IsValid (outside w) p v = v

  -- A history that starts in a valid state, with any locks and drivers, ends in one.
  pub run-IsValid :
      (cs : List (Command W)) (p : PadState W × W) → IsValid p.0 → IsValid (run cs p).0
  unfolding run
  run-IsValid [] p v = v
  run-IsValid (c ∷ cs) p v = run-IsValid cs (step c p) (step-IsValid c p v)

  pub step_bound :
      (c : Command W) (p : PadState W × W)
      → IsValid p.0
      → (step c p).0.arm_level ≤ p.0.arm_level + 1
  unfolding step padstate_set_connstatus padstate_signal_update
  step_bound (change_level n) p v = ground (arith, change_level_bounds locks n p)
  step_bound (actuate id r) p v = ground (arith, pad_actuate_bounds locks os id r p)
  step_bound (connect b) p v = ground arith
  step_bound (outside w) p v = omega arith

  -- On its way up the level skips no level.
  Visits-each :
      (k : ℕ) (cs : List (Command W)) (p : PadState W × W)
      → IsValid p.0
      → p.0.arm_level ≤ k
      → Visits (λ l. k ≤ l) cs p
      → Visits (λ l. l ≡ k) cs p
  Visits-each k [] p v lo hi = omega arith
  Visits-each k (c ∷ cs) p v lo (inl hi) = inl (omega arith)
  Visits-each k (c ∷ cs) p v lo (inr hi) = elim (Bool-cases (p.0.arm_level == k)) [
    | inl e ↦ inl (ground arith)
    | inr e ↦
        inr (Visits-each k cs (step c p) (step-IsValid c p v) (ground (arith, step_bound c p)) hi)
  ]

  Visits-mono :
      (a b : ℕ) (cs : List (Command W)) (p : PadState W × W)
      → a ≤ b
      → Visits (λ l. b ≤ l) cs p
      → Visits (λ l. a ≤ l) cs p
  Visits-mono a b [] p h v = omega arith
  Visits-mono a b (c ∷ cs) p h (inl v) = inl (omega arith)
  Visits-mono a b (c ∷ cs) p h (inr v) = inr (Visits-mono a b cs (step c p) h v)

module _ {W : Type 0} (locks : Locks W) (os : Devices W)
    (granted_rd : (w : W) → (locks.rdlock w).0 ≡ 0) where
  ok_level :
      (id r : ℕ) (p : PadState W × W)
      → p.0.arm_level ≤ 4
      → id ≢ 14
      → (pad_actuate locks os id r p).0 ≡ pos act_ok
      → min_level id ≤ p.0.arm_level
  ok_level id r p h k e = ground (arith, pad_actuate-refusal locks os id r p, granted_rd p.1)

  actuate_still :
      (i id r : ℕ) (p : PadState W × W)
      → p.0.arm_level ≤ 4
      → i ≢ 14
      → p.0.arm_level < min_level i
      → state_of i (pad_actuate locks os id r p).1 ≡ state_of i p
  actuate_still i id r p h k low = ground (
    arith,
    pad_actuate-actuators locks os id r p,
    ok_level id r p h,
    get_or-set_ne p.0.actuators id i
        (record (get_or p.0.actuators id zeroed_actuator) { state = bool_of r }) zeroed_actuator,
  )

  pub step_still :
      (i : ℕ) (c : Command W) (p : PadState W × W)
      → p.0.arm_level ≤ 4
      → i ≢ 14
      → p.0.arm_level < min_level i
      → state_of i (step locks os c p) ≡ state_of i p
  unfolding step padstate_set_connstatus padstate_signal_update
  step_still i (change_level n) p h k low = ground (arith, change_level-keeps locks n p)
  step_still i (actuate id r) p h k low = actuate_still i id r p h k low
  step_still i (connect b) p h k low = ground arith
  step_still i (outside w) p h k low = refl

  run_moves :
      (i : ℕ) (cs : List (Command W)) (p : PadState W × W)
      → IsValid p.0
      → i ≢ 14
      → state_of i (run locks os cs p) ≢ state_of i p
      → Visits locks os (λ l. min_level i ≤ l) cs p
  unfolding run
  run_moves i [] p v k moved = absurd (moved refl)
  run_moves i (c ∷ cs) p v k moved = elim (Bool-cases (leb (min_level i) p.0.arm_level)) [
    | inl above ↦ inl (ground arith)
    | inr below ↦ inr (
        run_moves i cs (step locks os c p) (step-IsValid locks os c p v) k
          (λ e. moved (e ∙ step_still i c p v.level k (ground arith))))
  ]

  -- Where every read lock is granted and the history starts valid: if it has changed the recorded state of an
  -- actuator other than the dump valve, it was at every arming level from the one at its start up to the
  -- lowest that permits the actuator. From `ARMED_PAD` to the fire valve, these are all five.
  pub moved-Visits :
      (i k : ℕ) (cs : List (Command W)) (p : PadState W × W)
      → IsValid p.0
      → i ≢ 14
      → p.0.arm_level ≤ k
      → k ≤ min_level i
      → state_of i (run locks os cs p) ≢ state_of i p
      → Visits locks os (λ l. l ≡ k) cs p
  moved-Visits i k cs p v e lo hi moved =
      Visits-each locks os k cs p v lo
        (Visits-mono locks os k (min_level i) cs p hi (run_moves i cs p v e moved))
