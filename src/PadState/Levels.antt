-- ===== src/PadState/Levels.antt =====
-- The arming level: which changes `padstate_change_level` (pad_server/src/state.c) accepts, and what
-- each result says of the state.
use hysim.Base.{ℕ, ◌+◌, ◌≤◌, ◌≡◌, ◌≢◌, ◌↔◌, Bool, true, ◌&&◌, ◌||◌, ltb, ◌==◌, if◌then◌else◌, arith}
use hysim.Packet.{arm_ok, arm_denied, arm_inv}
use hysim.Os.{Locks}
use hysim.PadState.{
  PadState, enum_error, level_changes, padstate_change_level, padstate_signal_update,
  padstate_get_level,
}

-- The firing sequence as a diagram: one level up, all the way down, or out of the firing sequence
-- to the armed valves.
pub data Arms (l n : ℕ) : Type 0 where
  advance : n ≡ l + 1 → n ≤ 4 → Arms l n
  disarm : n ≡ 0 → Arms l n
  leave_firing : n ≡ 1 → 2 ≤ l → Arms l n

-- From a level in range, the three conditions in the code accept exactly the edges of the diagram.
pub level_changes-Arms : (l n : ℕ) → l ≤ 4 → (level_changes l n ≡ true) ↔ Arms l n
unfolding level_changes
level_changes-Arms l n h = (
  λ e. ground arith,
  elim [
    | Arms.advance e b ↦ ground arith
    | Arms.disarm e ↦ ground arith
    | Arms.leave_firing e b ↦ ground arith
  ],
)

-- The same as a test.
abbrev pub allowed : ℕ → ℕ → Bool
allowed l n = (n == l + 1) || (n == 0 || (n == 1 && ltb 1 l))

module _ {W : Type 0} (locks : Locks W) where
  pub signal_update-keeps :
      (p : PadState W × W)
      → let t = (padstate_signal_update locks p).1.0 in
        (t.arm_level ≡ p.0.arm_level)
        × (t.conn_status ≡ p.0.conn_status)
        × (t.actuators ≡ p.0.actuators)
  unfolding padstate_signal_update
  signal_update-keeps p = ground arith

  -- With the write lock granted and a level in range, the result and the new level are those of `allowed`, and
  -- the connection status and the actuators stay.
  pub change_level_lem :
      (n : ℕ) (p : PadState W × W)
      → p.0.arm_level ≤ 4
      → (locks.wrlock p.1).0 ≡ 0
      → let r = padstate_change_level locks n p in
        (r.0
          ≡ (if ltb 4 n then arm_inv else (if allowed p.0.arm_level n then arm_ok else arm_denied)))
        × (r.1.0.arm_level ≡ (
            if ltb 4 n
            then p.0.arm_level
            else (if allowed p.0.arm_level n then n else p.0.arm_level)))
        × (r.1.0.conn_status ≡ p.0.conn_status)
        × (r.1.0.actuators ≡ p.0.actuators)
  unfolding padstate_change_level level_changes padstate_signal_update
  change_level_lem n p h k = ground arith

  -- Whatever the locks do, a request that is not answered by `ARM_OK` leaves the state as it was.
  pub change_level_refused :
      (n : ℕ) (p : PadState W × W)
      → (padstate_change_level locks n p).0 ≢ arm_ok
      → (padstate_change_level locks n p).1.0 ≡ p.0
  unfolding padstate_change_level
  change_level_refused n p h = ground arith

  -- The level rises by one at most, and stays in range.
  pub change_level_bounds :
      (n : ℕ) (p : PadState W × W)
      → p.0.arm_level ≤ 4
      → let t = (padstate_change_level locks n p).1.0 in
        (t.arm_level ≤ p.0.arm_level + 1) × (t.arm_level ≤ 4)
  unfolding padstate_change_level level_changes padstate_signal_update
  change_level_bounds n p h = ground arith

  pub change_level-keeps :
      (n : ℕ) (p : PadState W × W)
      → let t = (padstate_change_level locks n p).1.0 in
        (t.conn_status ≡ p.0.conn_status) × (t.actuators ≡ p.0.actuators)
  unfolding padstate_change_level padstate_signal_update
  change_level-keeps n p = ground arith

  pub get_level-keeps : (p : PadState W × W) → (padstate_get_level locks p).1.0 ≡ p.0
  unfolding padstate_get_level
  get_level-keeps p = ground arith

  pub get_level_lem :
      (p : PadState W × W)
      → (padstate_get_level locks p).0
        ≡ (if (locks.rdlock p.1).0 == 0 then p.0.arm_level else enum_error)
  unfolding padstate_get_level
  get_level_lem p = ground arith
