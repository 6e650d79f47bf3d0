-- ===== src/ControlClient/Disarmed.antt =====
-- What the arming key of the control box (control_client/src/control_client_main.c) means for the arming level
-- and the actuators of the pad server (pad_server/src/state.c).
use hysim.Base.{
  Bool-cases, ℕ, ◌≡◌, ◌≢◌, ◌⊎◌, inl, inr, refl, ap, ◌∙◌, Bool, true, false, List, [], ◌∷◌, ◌++◌,
  arith, get_or, get_or-set_ne,
}
use hysim.Os.{Devices, Locks, Sockets, Signals}
use hysim.PadState.{bool_of}
use hysim.Controller.{Controller}
use hysim.Controller.Channel.{Channel}
use hysim.Controller.Machine.{Request, act_request, arm_request, react, view, Pad}
use hysim.ControlClient.{PadLink}
use hysim.ControlClient.Switches.{Switch}
use hysim.ControlClient.Panel.{no_switch}
use hysim.ControlClient.Loop.{pins, panel_rounds}
use hysim.ControlClient.Replies.{request_of}
use hysim.ControlClient.Guard.{IsGuarded}
use hysim.ControlClient.Box.{IsBox, thrown, thrown-IsBox}
use hysim.ControlClient.ArmingKey.{needs_key, key_on, IsKeyed, keyed_step, play, requests}
use hysim.ControlClient.Lockstep.{Ends, IsIdle, network}
use hysim.ControlClient.Operator.{answers, flips, flips-answers}
use hysim.ControlClient.Live.{
  AllMeet, Rule, rule_of, Played, ApartCalls, ApartPins, panel_rounds-Played,
}

-- Some throw asked for a level that needs the arming key, and left the key on.
abbrev pub KeyUsed : List (ℕ × Bool) → List Switch → Type 0
KeyUsed [] sws = ⊥
KeyUsed ((i, b) ∷ ts) sws =
    ((needs_key (request_of (get_or sws i no_switch) b) ≡ true) × (key_on (thrown i b sws) ≡ true))
    ⊎ KeyUsed ts (thrown i b sws)

abbrev guarded_rule : Rule
guarded_rule sws i b = IsGuarded sws (get_or sws i no_switch) b

-- What stays at `ARMED_PAD`: the level, and each actuator but the dump valve.
abbrev SafeAt : ℕ → Pad → Pad → Type 0
SafeAt i before after = (after.level ≡ 0) × (get_or after.on i false ≡ get_or before.on i false)

react-SafeAt :
    (i : ℕ) (q : Request) (pad : Pad)
    → i ≢ 14
    → pad.level ≡ 0
    → needs_key q ≡ false
    → SafeAt i pad (react q pad).0
react-SafeAt i (act_request r) pad not_dump e k =
    ground (arith, e, get_or-set_ne pad.on r.id i (bool_of r.state) false)
react-SafeAt i (arm_request r) pad not_dump e k = ground (arith, e, k)

answers-SafeAt :
    {W : Type 0} (net : Sockets W) (i : ℕ) (ts : List (ℕ × Bool)) (sws : List Switch) (pad : Pad)
    → i ≢ 14
    → IsBox sws
    → pad.level ≡ 0
    → AllMeet guarded_rule ts sws
    → KeyUsed ts sws ⊎ SafeAt i pad (answers net ts sws pad).1
answers-SafeAt net i [] sws pad not_dump ok e meets = inr (e, refl)
answers-SafeAt net i ((j, b) ∷ ts) sws pad not_dump ok e (guarded, meets) =
    let q : Request = request_of (get_or sws j no_switch) b in
    let asks = keyed_step j b sws ok guarded in
    elim (Bool-cases (needs_key q)) [
      | inl needed ↦
          inl (inl (needed, elim asks [ inl free ↦ absurd (cc (free, needed)) | inr on ↦ on ]))
      | inr free ↦
          (let (level, same) = react-SafeAt i q pad not_dump e free in
            elim (answers-SafeAt net i ts (thrown j b sws) (react q pad).0 not_dump
              (thrown-IsBox j b sws ok) level meets) [
                | inl later ↦ inl (inr later)
                | inr (safe, kept) ↦ inr (safe, kept ∙ same)
              ])
    ]

module _ {S : Type 0} (locks : Locks S) (os : Devices S) (server : Sockets S) (c : Controller)
    (ch : Channel locks server c.client) (deliver : List ℕ → S → S)
    (deliver_line : (bs : List ℕ) (w : S)
      → ch.line (deliver bs w) ≡ ((ch.line w).0 ++ bs, (ch.line w).1))
    (base : Sockets (Ends S)) where
  -- From `p` to `r` switches were thrown and their requests and no others were sent. The key was used, or all is
  -- safe at `ARMED_PAD`.
  abbrev pub KeyedOrSafe : ℕ → List Switch × Ends S → List Switch × Ends S → Type 0
  KeyedOrSafe i p r =
      (ts : List (ℕ × Bool)) × (r.0 ≡ play ts p.0)
      × (r.1.sent ≡ p.1.sent ++ requests ts p.0)
      × (KeyUsed ts p.0
          ⊎ ((r.1.pad.0.arm_level ≡ 0)
              × (get_or (view r.1.pad.0).on i false ≡ get_or (view p.1.pad.0).on i false)))

  pub Played-SafeAt :
      (box : Devices (Ends S)) (i : ℕ) (p r : List Switch × Ends S)
      → IsBox p.0
      → p.1.pad.0.arm_level ≡ 0
      → i ≢ 14
      → Played locks os server c ch deliver deliver_line base (rule_of {W = Ends S} (pins box)) p r
      → KeyedOrSafe i p r
  Played-SafeAt box i p r ok level not_dump played = (
    played.throws,
    played.plays,
    played.sends,
    elim (answers-SafeAt (network locks os server c ch deliver base) i played.throws p.0
        (view p.1.pad.0) not_dump ok level played.meets) [
          | inl on ↦ inl on
          | inr (safe, kept) ↦ inr (
            ap (λ (pad : Pad). pad.level) played.machine ∙ safe,
            ap (λ (pad : Pad). get_or pad.on i false) played.machine ∙ kept,
          )
        ],
  )

module _ {S : Type 0} (locks : Locks S) (os : Devices S) (server : Sockets S) (c : Controller)
    (ch : Channel locks server c.client) (deliver : List ℕ → S → S)
    (deliver_line : (bs : List ℕ) (w : S)
      → ch.line (deliver bs w) ≡ ((ch.line w).0 ++ bs, (ch.line w).1))
    (base : Sockets (Ends S)) (link : PadLink) (signals : Signals (Ends S))
    (calls : ApartCalls locks os server c ch deliver deliver_line base link signals) where
  -- The control box with a pad server at `ARMED_PAD`, in any number of rounds, whatever the pins read: the requests sent
  -- are those of switches thrown, which are as they were thrown last. Either one of the throws asked for a level
  -- that needs the arming key and left the key on, or the server is still at `ARMED_PAD`, and the recorded state of
  -- each actuator but the dump valve is as before.
  pub panel_rounds-SafeAt :
      (box : Devices (Ends S)) (n fuel i : ℕ) (p : List Switch × Ends S)
      → ApartPins locks os server c ch deliver deliver_line base box
      → IsBox p.0
      → IsIdle locks os server c ch deliver p.1
      → p.1.pad.0.arm_level ≡ 0
      → i ≢ 14
      → KeyedOrSafe locks os server c ch deliver deliver_line base i p
          (panel_rounds
            (network locks os server c ch deliver base)
            signals
            link
            (pins box)
            n
            fuel
            p).1
  panel_rounds-SafeAt box n fuel i p apart ok idle level not_dump =
      let net = network locks os server c ch deliver base in
      Played-SafeAt locks os server c ch deliver deliver_line base box i p
        (panel_rounds net signals link (pins box) n fuel p).1 ok level not_dump
        (panel_rounds-Played locks os server c ch deliver deliver_line base link signals calls
          (pins box) n fuel p apart ok idle)

-- The arming key is off after every throw.
abbrev pub KeyStaysOff : List (ℕ × Bool) → List Switch → Type 0
KeyStaysOff [] sws = Unit {0}
KeyStaysOff ((i, b) ∷ ts) sws = (key_on (thrown i b sws) ≡ false) × KeyStaysOff ts (thrown i b sws)

react_disarmed :
    (q : Request) (pad : Pad) → pad.level ≡ 0 → needs_key q ≡ false → (react q pad).0.level ≡ 0
react_disarmed (act_request r) pad e k = ground (arith, e)
react_disarmed (arm_request r) pad e k = ground (arith, e, k)

answers_disarmed :
    {W : Type 0} (net : Sockets W) (ts : List (ℕ × Bool)) (sws : List Switch) (pad : Pad)
    → pad.level ≡ 0
    → IsKeyed ts sws
    → KeyStaysOff ts sws
    → (answers net ts sws pad).1.level ≡ 0
answers_disarmed net [] sws pad e keyed off = e
answers_disarmed net ((i, b) ∷ ts) sws pad e (needs, keyed) (key, off) =
    let q : Request = request_of (get_or sws i no_switch) b in
    let free : needs_key q ≡ false = elim needs [
      | inl none_needed ↦ none_needed
      | inr on ↦ absurd (cc (on, key))
    ] in
    answers_disarmed net ts (thrown i b sws) (react q pad).0 (react_disarmed q pad e free) keyed off

module _ {S : Type 0} (locks : Locks S) (os : Devices S) (server : Sockets S) (c : Controller)
    (ch : Channel locks server c.client) (deliver : List ℕ → S → S)
    (deliver_line : (bs : List ℕ) (w : S)
      → ch.line (deliver bs w) ≡ ((ch.line w).0 ++ bs, (ch.line w).1))
    (base : Sockets (Ends S)) (link : PadLink) where
  -- The pad server is at `ARMED_PAD`, with nothing on its way, granted locks and drivers that never fail. Switches are
  -- thrown one after the other; one that asks for `ARMED_VALVES` leaves the arming key on, and the key is off
  -- after each of them. Then the server is still at `ARMED_PAD`.
  pub flips_disarmed :
      (ts : List (ℕ × Bool)) (sws : List Switch) (e : Ends S)
      → IsBox sws
      → IsIdle locks os server c ch deliver e
      → e.pad.0.arm_level ≡ 0
      → IsKeyed ts sws
      → KeyStaysOff ts sws
      → (flips (network locks os server c ch deliver base) link ts (sws, e)).1.1.pad.0.arm_level ≡ 0
  flips_disarmed ts sws e ok idle level keyed off =
      let (_, _, state) =
        flips-answers locks os server c ch deliver deliver_line base link ts sws e ok idle in
      ap (λ (pad : Pad). pad.level) state
      ∙ answers_disarmed (network locks os server c ch deliver base) ts sws (view e.pad.0) level
          keyed off
