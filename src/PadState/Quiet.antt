-- ===== src/PadState/Quiet.antt =====
-- The operations of pad_server/src/state.c with drivers that may fail: a view of the world that locks and
-- drivers do not touch stays as it is.
use hysim.Base.{
  ℕ, zero, suc, ◌≡◌, refl, sym, subst, ap, Bool, List, [], ◌∷◌, inl, inr, arith, get_or, set,
}
use hysim.Os.{Locks, Devices}
use hysim.Actuator.{Actuator, actuator_set, actuator_on, actuator_off, zeroed_actuator}
use hysim.PadState.{
  PadState, bool_of, set_actuator, after_actuation, actuate_actuator, pad_actuate,
  padstate_get_level, padstate_set_connstatus, padstate_signal_update,
}
use hysim.PadState.Levels.{get_level-keeps, change_level-keeps}
use hysim.PadState.Effect.{pad_actuate-actuators}
use hysim.PadState.History.{Command, change_level, actuate, connect, outside, step}
use hysim.PadState.Untouched.{Untouched, get_level-line, signal_update-line, after_actuation-line}

-- The drivers of an actuator do not touch the view.
pub record IsQuiet {W L : Type 0} (line : W → L) (act : Actuator W) : Type 0 where
  pub on_line : (w : W) → line (act.on act.priv w).1 ≡ line w
  pub off_line : (w : W) → line (act.off act.priv w).1 ≡ line w

abbrev pub AllQuiet : {W L : Type 0} → (W → L) → List (Actuator W) → Type 0
AllQuiet line [] = Unit {0}
AllQuiet line (a ∷ acts) = IsQuiet line a × AllQuiet line acts

AllQuiet-get_or :
    {W L : Type 0} (line : W → L) (acts : List (Actuator W)) (i : ℕ)
    → AllQuiet line acts
    → IsQuiet line (get_or acts i zeroed_actuator)
AllQuiet-get_or line [] i h = record { on_line = λ w. refl; off_line = λ w. refl }
AllQuiet-get_or line (a ∷ acts) zero h = h.0
AllQuiet-get_or line (a ∷ acts) (suc i) h = AllQuiet-get_or line acts i h.1

AllQuiet-set :
    {W L : Type 0} (line : W → L) (acts : List (Actuator W)) (i : ℕ) (b : Bool)
    → AllQuiet line acts
    → AllQuiet line (set acts i (record (get_or acts i zeroed_actuator) { state = b }))
AllQuiet-set line [] i b h = tt
AllQuiet-set line (a ∷ acts) zero b h =
    (record { on_line = h.0.on_line; off_line = h.0.off_line }, h.1)
AllQuiet-set line (a ∷ acts) (suc i) b h = (h.0, AllQuiet-set line acts i b h.1)

module _ {W L : Type 0} (locks : Locks W) (os : Devices W) (line : W → L) (u : Untouched locks line)
    (set_errno_line : (e : _) (w : W) → line (os.set_errno e w) ≡ line w) where
  set_actuator-quiet :
      (id : ℕ) (b : Bool) (p : PadState W × W)
      → AllQuiet line p.0.actuators
      → line (set_actuator id b p).1.1 ≡ line p.1
  unfolding set_actuator actuator_set actuator_on actuator_off
  set_actuator-quiet id b p h =
      let o = AllQuiet-get_or line p.0.actuators id h in
      ground (arith, o.on_line p.1, o.off_line p.1)

  actuate_actuator-quiet :
      (id r : ℕ) (p : PadState W × W)
      → AllQuiet line p.0.actuators
      → line (actuate_actuator locks os id r p).1.1 ≡ line p.1
  unfolding actuate_actuator
  actuate_actuator-quiet id r p h =
      let (err, q) = set_actuator id (bool_of r) p in
      ground (
        arith,
        set_actuator-quiet id (bool_of r) p h,
        after_actuation-line locks line u id r q,
        signal_update-line locks line u (after_actuation locks id r q).1,
        set_errno_line err q.1,
      )

  pub pad_actuate-quiet :
      (id r : ℕ) (p : PadState W × W)
      → AllQuiet line p.0.actuators
      → line (pad_actuate locks os id r p).1.1 ≡ line p.1
  unfolding pad_actuate
  pad_actuate-quiet id r p h =
      let q : PadState W × W = (padstate_get_level locks p).1 in
      ground (
        arith,
        get_level-line locks line u p,
        actuate_actuator-quiet id r p h,
        actuate_actuator-quiet id r q (rw (get_level-keeps locks p) h),
      )

  pub set_connstatus-quiet :
      (n : ℕ) (p : PadState W × W) → line (padstate_set_connstatus locks n p).1.1 ≡ line p.1
  unfolding padstate_set_connstatus
  set_connstatus-quiet n p =
      let w1 : W = (locks.wrlock p.1).1 in
      ground (
        arith,
        u.wrlock_line p.1,
        u.rwlock_unlock_line w1,
        signal_update-line locks line u
            (record (p.0) { conn_status = n }, (locks.rwlock_unlock w1).1),
      )

module _ {W L : Type 0} (locks : Locks W) (os : Devices W) (line : W → L) where
  AllQuiet-moved :
      {acts acts' : List (Actuator W)} → acts' ≡ acts → AllQuiet line acts → AllQuiet line acts'
  AllQuiet-moved e h = subst (AllQuiet line) (sym e) h

  -- The drivers stay, whatever the command.
  pub step-AllQuiet :
      (c : Command W) (p : PadState W × W)
      → AllQuiet line p.0.actuators
      → AllQuiet line (step locks os c p).0.actuators
  unfolding step padstate_set_connstatus padstate_signal_update
  step-AllQuiet (change_level n) p h = AllQuiet-moved (change_level-keeps locks n p).1 h
  step-AllQuiet (actuate id r) p h = elim (pad_actuate-actuators locks os id r p) [
    | inl (_, moved, _) ↦ AllQuiet-moved moved (AllQuiet-set line p.0.actuators id (bool_of r) h)
    | inr (_, same) ↦ AllQuiet-moved (ap (λ (s : PadState W). s.actuators) same) h
  ]
  step-AllQuiet (connect b) p h = AllQuiet-moved (ground arith) h
  step-AllQuiet (outside w) p h = h
