-- ===== src/ControlClient/Operator.antt =====
-- An operator at the control client (control_client/src/control_client_main.c) throws switches, and the pad
-- server answers each request.
use hysim.Base.{
  ℕ, ◌≡◌, refl, sym, subst, ap, ap₂, Bool, List, [], ◌∷◌, ◌++◌, ℤ, pos, get_or, set, Run,
}
use hysim.Os.{Devices, Locks, Sockets}
use hysim.Controller.{Controller}
use hysim.Controller.Channel.{Channel}
use hysim.Controller.Machine.{encode_request, react, view, Pad}
use hysim.ControlClient.{PadLink}
use hysim.ControlClient.Switches.{Switch}
use hysim.ControlClient.Panel.{flip_switch, no_switch}
use hysim.ControlClient.Replies.{request_of, verdict}
use hysim.ControlClient.Box.{IsBox, box-IsSwitch, thrown, thrown-IsBox}
use hysim.ControlClient.ArmingKey.{play}
use hysim.ControlClient.Lockstep.{Ends, IsIdle, network, switch_callback-IsIdle}

-- Switches thrown one after the other, and what the callbacks return.
abbrev pub flips :
    {W : Type 0} → Sockets W → PadLink → List (ℕ × Bool) → Run (List Switch × W) (List ℤ)
flips net link [] p = ([], p)
flips net link ((i, b) ∷ ts) p =
    let (err, p1) = flip_switch net link i b p in
    let (errs, p2) = flips net link ts p1 in (err ∷ errs, p2)

-- The same on the abstract pad: the error numbers that the requests deserve, and the pad after them.
abbrev pub answers : {W : Type 0} → Sockets W → List (ℕ × Bool) → List Switch → Pad → List ℤ × Pad
answers net [] sws pad = ([], pad)
answers net ((i, b) ∷ ts) sws pad =
    let q = request_of (get_or sws i no_switch) b in
    let (errs, after) = answers net ts (thrown i b sws) (react q pad).0 in
    (pos (verdict net q pad) ∷ errs, after)

module _ {S : Type 0} (locks : Locks S) (os : Devices S) (server : Sockets S) (c : Controller)
    (ch : Channel locks server c.client) (deliver : List ℕ → S → S)
    (deliver_line : (bs : List ℕ) (w : S)
      → ch.line (deliver bs w) ≡ ((ch.line w).0 ++ bs, (ch.line w).1))
    (base : Sockets (Ends S)) (link : PadLink) where
  abbrev net : Sockets (Ends S)
  net = network locks os server c ch deliver base

  abbrev Idle : Ends S → Type 0
  Idle e = IsIdle locks os server c ch deliver e

  pub flip_switch-IsIdle :
      (i : ℕ) (b : Bool) (sws : List Switch) (e : Ends S)
      → IsBox sws
      → Idle e
      → let q = request_of (get_or sws i no_switch) b in
        let t = flip_switch net link i b (sws, e) in
        (t.0 ≡ pos (verdict net q (view e.pad.0)))
        × (t.1.0 ≡ thrown i b sws)
        × Idle t.1.1
        × (view t.1.1.pad.0 ≡ (react q (view e.pad.0)).0)
        × (t.1.1.sent ≡ e.sent ++ encode_request q ∷ [])
  unfolding flip_switch
  flip_switch-IsIdle i b sws e ok idle =
      let (result, idle', state, sends) =
        switch_callback-IsIdle locks os server c ch deliver deliver_line base link
          (get_or sws i no_switch) b e (box-IsSwitch sws i ok) idle in
      (
        ap (λ (r : ℤ × Switch). r.0) result,
        ap (λ (r : ℤ × Switch). set sws i r.1) result,
        idle',
        state,
        sends,
      )

  -- What the rest of the session does from where the machine and the switches are.
  abbrev Agrees : List (ℕ × Bool) → List Switch × Ends S → List Switch → Pad → Type 0
  Agrees ts p sws pad =
      let r = flips net link ts p in
      let m = answers net ts sws pad in
      (r.0 ≡ m.0) × (r.1.0 ≡ play ts sws) × (view r.1.1.pad.0 ≡ m.1)

  -- From the switches of the table in any states, with nothing on its way, granted locks, drivers that
  -- never fail and a network in lockstep that loses no connection: the callbacks return the error numbers
  -- that the requests deserve one after the other, the switches are as they were thrown, and the pad
  -- server's level and actuators are those of the abstract machine.
  pub flips-answers :
      (ts : List (ℕ × Bool)) (sws : List Switch) (e : Ends S)
      → IsBox sws
      → IsIdle locks os server c ch deliver e
      → let r = flips (network locks os server c ch deliver base) link ts (sws, e) in
        let m = answers (network locks os server c ch deliver base) ts sws (view e.pad.0) in
        (r.0 ≡ m.0) × (r.1.0 ≡ play ts sws) × (view r.1.1.pad.0 ≡ m.1)
  flips-answers [] sws e ok idle = (refl, refl, refl)
  flips-answers ((i, b) ∷ ts) sws e ok idle =
      let (err, (sws', e')) = flip_switch net link i b (sws, e) in
      let (verdict_e, switches, idle', state, _) = flip_switch-IsIdle i b sws e ok idle in
      let rest =
        flips-answers ts sws' e' (subst IsBox (sym switches) (thrown-IsBox i b sws ok)) idle' in
      let moved : Agrees ts (sws', e') (thrown i b sws)
          (react (request_of (get_or sws i no_switch) b) (view e.pad.0)).0 =
        subst (λ (x : List Switch × Pad). Agrees ts (sws', e') x.0 x.1)
          (ap₂ (λ (a : List Switch) (m : Pad). (a, m)) switches state) rest in
      (ap₂ (λ (x : ℤ) (xs : List ℤ). x ∷ xs) verdict_e moved.0, moved.1, moved.2)
