-- ===== src/PadState/Untouched.antt =====
-- What the operations of pad_server/src/state.c leave alone: a view of the world that neither the locks
-- nor the actuators' drivers touch.
use hysim.Base.{
  ℕ, ◌≡◌, refl, Bool, false, List, [], ◌∷◌, pos, arith, is_minus_one, get_or, set, suc, zero,
}
use hysim.Os.{Locks, Devices}
use hysim.Actuator.{Actuator, actuator_set, actuator_on, actuator_off, zeroed_actuator}
use hysim.Packet.{act_ok}
use hysim.PadState.{
  PadState, bool_of, padstate_get_level, padstate_signal_update, padstate_change_level,
  set_actuator, follow_actuator, after_actuation, actuate_actuator, pad_actuate,
}
use hysim.PadState.Levels.{get_level-keeps}

pub record Untouched {W L : Type 0} (locks : Locks W) (line : W → L) : Type 0 where
  pub rdlock_line : (w : W) → line (locks.rdlock w).1 ≡ line w
  pub wrlock_line : (w : W) → line (locks.wrlock w).1 ≡ line w
  pub rwlock_unlock_line : (w : W) → line (locks.rwlock_unlock w).1 ≡ line w
  pub mutex_lock_line : (w : W) → line (locks.mutex_lock w).1 ≡ line w
  pub mutex_unlock_line : (w : W) → line (locks.mutex_unlock w).1 ≡ line w
  pub cond_signal_line : (w : W) → line (locks.cond_signal w).1 ≡ line w

-- The drivers of an actuator never fail and do not touch the view.
pub record IsObedient {W L : Type 0} (line : W → L) (act : Actuator W) : Type 0 where
  pub on_works : (w : W) → is_minus_one (act.on act.priv w).0 ≡ false
  pub off_works : (w : W) → is_minus_one (act.off act.priv w).0 ≡ false
  pub on_line : (w : W) → line (act.on act.priv w).1 ≡ line w
  pub off_line : (w : W) → line (act.off act.priv w).1 ≡ line w

abbrev pub AllObedient : {W L : Type 0} → (W → L) → List (Actuator W) → Type 0
AllObedient line [] = Unit {0}
AllObedient line (a ∷ acts) = IsObedient line a × AllObedient line acts

module _ {W L : Type 0} (locks : Locks W) (line : W → L) (u : Untouched locks line) where
  open u use {
    rdlock_line, wrlock_line, rwlock_unlock_line, mutex_lock_line, mutex_unlock_line,
    cond_signal_line,
  }

  pub get_level-line : (p : PadState W × W) → line (padstate_get_level locks p).1.1 ≡ line p.1
  unfolding padstate_get_level
  get_level-line p = ground (arith, rdlock_line p.1, rwlock_unlock_line (locks.rdlock p.1).1)

  pub signal_update-line :
      (p : PadState W × W) → line (padstate_signal_update locks p).1.1 ≡ line p.1
  unfolding padstate_signal_update
  signal_update-line p = grind (arith, mutex_lock_line, cond_signal_line, mutex_unlock_line)

  pub change_level-line :
      (n : ℕ) (p : PadState W × W) → line (padstate_change_level locks n p).1.1 ≡ line p.1
  unfolding padstate_change_level
  change_level-line n p =
      let w1 : W = (locks.wrlock p.1).1 in
      ground (
        arith,
        wrlock_line p.1,
        rwlock_unlock_line w1,
        signal_update-line (record (p.0) { arm_level = n }, (locks.rwlock_unlock w1).1),
      )

  pub after_actuation-line :
      (id r : ℕ) (p : PadState W × W) → line (after_actuation locks id r p).1.1 ≡ line p.1
  unfolding after_actuation follow_actuator
  after_actuation-line id r p =
      let q : PadState W × W = (padstate_get_level locks p).1 in
      ground (
        arith,
        get_level-line p,
        change_level-line 2 p,
        change_level-line 3 p,
        change_level-line 3 q,
        change_level-line 4 q,
      )

AllObedient-get_or :
    {W L : Type 0} (line : W → L) (acts : List (Actuator W)) (i : ℕ)
    → AllObedient line acts
    → IsObedient line (get_or acts i zeroed_actuator)
AllObedient-get_or line [] i h = record {
  on_works = λ w. refl;
  off_works = λ w. refl;
  on_line = λ w. refl;
  off_line = λ w. refl;
}
AllObedient-get_or line (a ∷ acts) zero h = h.0
AllObedient-get_or line (a ∷ acts) (suc i) h = AllObedient-get_or line acts i h.1

-- A new state does not change the drivers.
pub AllObedient-set :
    {W L : Type 0} (line : W → L) (acts : List (Actuator W)) (i : ℕ) (b : Bool)
    → AllObedient line acts
    → AllObedient line (set acts i (record (get_or acts i zeroed_actuator) { state = b }))
AllObedient-set line [] i b h = tt
AllObedient-set line (a ∷ acts) zero b h = (
  record {
    on_works = h.0.on_works;
    off_works = h.0.off_works;
    on_line = h.0.on_line;
    off_line = h.0.off_line;
  },
  h.1,
)
AllObedient-set line (a ∷ acts) (suc i) b h = (h.0, AllObedient-set line acts i b h.1)

module _ {W L : Type 0} (locks : Locks W) (os : Devices W) (line : W → L)
    (u : Untouched locks line) where
  set_actuator-line :
      (id : ℕ) (b : Bool) (p : PadState W × W)
      → AllObedient line p.0.actuators
      → ((set_actuator id b p).0 ≡ pos 0) × (line (set_actuator id b p).1.1 ≡ line p.1)
  unfolding set_actuator actuator_set actuator_on actuator_off
  set_actuator-line id b p h =
      let o = AllObedient-get_or line p.0.actuators id h in
      ground (arith, o.on_works p.1, o.off_works p.1, o.on_line p.1, o.off_line p.1)

  actuate_actuator-line :
      (id r : ℕ) (p : PadState W × W)
      → AllObedient line p.0.actuators
      → ((actuate_actuator locks os id r p).0 ≡ pos act_ok)
        × (line (actuate_actuator locks os id r p).1.1 ≡ line p.1)
  unfolding actuate_actuator
  actuate_actuator-line id r p h =
      let q : PadState W × W = (set_actuator id (bool_of r) p).1 in
      ground (
        arith,
        set_actuator-line id (bool_of r) p h,
        after_actuation-line locks line u id r q,
        signal_update-line locks line u (after_actuation locks id r q).1,
      )

  -- With such drivers a request is never answered by the error -1, and does not touch the view.
  pub pad_actuate-line :
      (id r : ℕ) (p : PadState W × W)
      → AllObedient line p.0.actuators
      → (is_minus_one (pad_actuate locks os id r p).0 ≡ false)
        × (line (pad_actuate locks os id r p).1.1 ≡ line p.1)
  unfolding pad_actuate
  pad_actuate-line id r p h =
      let q : PadState W × W = (padstate_get_level locks p).1 in
      ground (
        arith,
        get_level-keeps locks p,
        get_level-line locks line u p,
        actuate_actuator-line id r p h,
        actuate_actuator-line id r q (rw (get_level-keeps locks p) h),
      )
