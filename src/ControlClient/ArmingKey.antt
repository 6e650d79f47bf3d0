-- ===== src/ControlClient/ArmingKey.antt =====
-- The control box (control_client/src/control_client_main.c, NuttX build) asks the pad server for
-- `ARMED_VALVES` only with the arming key on.
use hysim.Base.{
  ℕ, ◌≡◌, ◌≢◌, refl, sym, subst, ap, ap₂, ◌∙◌, ◌⊎◌, Bool, true, false, List, [], ◌∷◌, ◌++◌,
  Bool-cases, arith, get_or, get_or-set_self, get_or-set_ne, ◌==◌,
}
use mathlib.Core.List.{append-nil, append_assoc}
use hysim.Packet.{armed_valves, cntrl_arm_req}
use hysim.Controller.Machine.{Request, act_request, arm_request, encode_request}
use hysim.ControlClient.Switches.{Switch}
use hysim.ControlClient.Panel.{no_switch, valve_arming_switch_idx, turning_off_ignition}
use hysim.ControlClient.Replies.{request_of, IsSwitch}
use hysim.ControlClient.Guard.{IsGuarded}
use hysim.ControlClient.Box.{
  IsBox, thrown, thrown-IsBox, box-IsSwitch, key_index, key_label, length_of_box,
}

abbrev pub needs_key : Request → Bool
needs_key (act_request r) = false
needs_key (arm_request r) = r.level == armed_valves

abbrev pub key_on : List Switch → Bool
key_on sws = (get_or sws valve_arming_switch_idx no_switch).state

-- Switches thrown one after the other: their states at the end, the requests sent, and that a request for
-- `ARMED_VALVES` leaves with the arming key on.
abbrev pub play : List (ℕ × Bool) → List Switch → List Switch
play [] sws = sws
play ((i, b) ∷ ts) sws = play ts (thrown i b sws)

abbrev pub requests : List (ℕ × Bool) → List Switch → List (List ℕ)
requests [] sws = []
requests ((i, b) ∷ ts) sws =
    encode_request (request_of (get_or sws i no_switch) b) ∷ requests ts (thrown i b sws)

abbrev pub IsKeyed : List (ℕ × Bool) → List Switch → Type 0
IsKeyed [] sws = Unit {0}
IsKeyed ((i, b) ∷ ts) sws =
    ((needs_key (request_of (get_or sws i no_switch) b) ≡ false) ⊎ (key_on (thrown i b sws) ≡ true))
    × IsKeyed ts (thrown i b sws)

-- A step back from ignition does not touch the key.
key_kept :
    (i : ℕ) (b : Bool) (sws : List Switch)
    → IsBox sws
    → (get_or sws i no_switch).act_id ≢ armed_valves
    → key_on (thrown i b sws) ≡ key_on sws
key_kept i b sws ok other =
    ap (λ (sw : Switch). sw.state)
      (get_or-set_ne sws i valve_arming_switch_idx (record (get_or sws i no_switch) { state = b })
        no_switch
        (λ e. other (ap (λ (j : ℕ). (get_or sws j no_switch).act_id) e ∙ key_label sws ok)))

key_turned :
    (sws : List Switch) → IsBox sws → key_on (thrown valve_arming_switch_idx true sws) ≡ true
key_turned sws ok =
    ap (λ (sw : Switch). sw.state)
      (get_or-set_self sws valve_arming_switch_idx
        (record (get_or sws valve_arming_switch_idx no_switch) { state = true }) no_switch
        (ground (arith, length_of_box sws ok)))

asks_on :
    (sw : Switch)
    → IsSwitch sw
    → needs_key (request_of sw true) ≡ true
    → (sw.kind ≡ cntrl_arm_req) × (sw.act_id ≡ armed_valves)
asks_on sw ok e = ground (arith, ok.0)

asks_off :
    (sw : Switch)
    → IsSwitch sw
    → needs_key (request_of sw false) ≡ true
    → (turning_off_ignition sw false ≡ true) × (sw.act_id ≢ armed_valves)
unfolding turning_off_ignition
asks_off sw ok e = ground (arith, ok.0)

keyed_on :
    (i : ℕ) (sws : List Switch)
    → IsBox sws
    → needs_key (request_of (get_or sws i no_switch) true) ≡ true
    → key_on (thrown i true sws) ≡ true
keyed_on i sws ok e =
    let (kind, id) = asks_on (get_or sws i no_switch) (box-IsSwitch sws i ok) e in
    subst (λ (j : ℕ). key_on (thrown j true sws) ≡ true) (sym (key_index sws i ok kind id))
      (key_turned sws ok)

keyed_off :
    (i : ℕ) (sws : List Switch)
    → IsBox sws
    → IsGuarded sws (get_or sws i no_switch) false
    → needs_key (request_of (get_or sws i no_switch) false) ≡ true
    → key_on (thrown i false sws) ≡ true
keyed_off i sws ok guarded e =
    let (off, other) = asks_off (get_or sws i no_switch) (box-IsSwitch sws i ok) e in
    key_kept i false sws ok other ∙ ground (arith, guarded, off)

pub keyed_step :
    (i : ℕ) (b : Bool) (sws : List Switch)
    → IsBox sws
    → IsGuarded sws (get_or sws i no_switch) b
    → (needs_key (request_of (get_or sws i no_switch) b) ≡ false) ⊎ (key_on (thrown i b sws) ≡ true)
keyed_step i true sws ok guarded =
    ground
      (arith, Bool-cases (needs_key (request_of (get_or sws i no_switch) true)), keyed_on i sws ok)
keyed_step i false sws ok guarded = ground (
  arith,
  Bool-cases (needs_key (request_of (get_or sws i no_switch) false)),
  keyed_off i sws ok guarded,
)

-- The throws of two histories, one after the other.
pub play_++ :
    (ts us : List (ℕ × Bool)) (sws : List Switch) → play (ts ++ us) sws ≡ play us (play ts sws)
play_++ [] us sws = refl
play_++ ((i, b) ∷ ts) us sws = play_++ ts us (thrown i b sws)

pub requests_++ :
    (ts us : List (ℕ × Bool)) (sws : List Switch)
    → requests (ts ++ us) sws ≡ requests ts sws ++ requests us (play ts sws)
requests_++ [] us sws = refl
requests_++ ((i, b) ∷ ts) us sws =
    ap (◌∷◌ (encode_request (request_of (get_or sws i no_switch) b)))
      (requests_++ ts us (thrown i b sws))

IsKeyed-++ :
    (ts us : List (ℕ × Bool)) (sws : List Switch)
    → IsKeyed ts sws
    → IsKeyed us (play ts sws)
    → IsKeyed (ts ++ us) sws
IsKeyed-++ [] us sws k l = l
IsKeyed-++ ((i, b) ∷ ts) us sws (first, k) l = (first, IsKeyed-++ ts us (thrown i b sws) k l)

pub play-IsBox : (ts : List (ℕ × Bool)) (sws : List Switch) → IsBox sws → IsBox (play ts sws)
play-IsBox [] sws ok = ok
play-IsBox ((i, b) ∷ ts) sws ok = play-IsBox ts (thrown i b sws) (thrown-IsBox i b sws ok)

module _ {W : Type 0} (sent : W → List (List ℕ)) where
  -- From `p` to `r`, switches were thrown with the key on where it is needed, and nothing else was sent.
  pub record Keyed (p r : List Switch × W) : Type 0 where
    pub throws : List (ℕ × Bool)
    pub plays : r.0 ≡ play throws p.0
    pub sends : sent r.1 ≡ sent p.1 ++ requests throws p.0
    pub keyed : IsKeyed throws p.0

  pub Keyed-trans : {p q r : List Switch × W} → Keyed p q → Keyed q r → Keyed p r
  Keyed-trans {p} {q} {r} k l =
      let again : IsKeyed l.throws (play k.throws p.0) = subst (IsKeyed l.throws) k.plays l.keyed in
      record {
        throws = k.throws ++ l.throws;
        plays = l.plays ∙ ap (play l.throws) k.plays ∙ sym (play_++ k.throws l.throws p.0);
        sends =
            l.sends
            ∙ ap₂ (λ (out : List (List ℕ)) (sws : List Switch). out ++ requests l.throws sws)
                k.sends k.plays
            ∙ append_assoc (sent p.1) (requests k.throws p.0)
                (requests l.throws (play k.throws p.0))
            ∙ ap (λ (qs : List (List ℕ)). sent p.1 ++ qs) (sym (requests_++ k.throws l.throws p.0));
        keyed = IsKeyed-++ k.throws l.throws p.0 k.keyed again;
      }

  pub Keyed-still : (p r : List Switch × W) → r.0 ≡ p.0 → sent r.1 ≡ sent p.1 → Keyed p r
  Keyed-still p r same quiet = record {
    throws = [];
    plays = same;
    sends = quiet ∙ sym (append-nil (sent p.1));
    keyed = tt;
  }

  pub Keyed-IsBox : {p r : List Switch × W} → Keyed p r → IsBox p.0 → IsBox r.0
  Keyed-IsBox {p} k ok = subst IsBox (sym k.plays) (play-IsBox k.throws p.0 ok)
