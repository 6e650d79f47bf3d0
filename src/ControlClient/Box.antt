-- ===== src/ControlClient/Box.antt =====
-- What stays of the switches of control_client/src/control_client_main.c while they are thrown: which
-- actuator or level each is for. Only their states change.
use hysim.Base.{
  ℕ, zero, suc, ◌+◌, ◌≡◌, refl, subst, sym, ap, ◌∙◌, Bool, true, not, ◌&&◌, ◌||◌, List, [], ◌∷◌,
  map, arith, get_or, set, ◌==◌, ltb, length,
}
use hysim.Packet.{cntrl_act_req, cntrl_arm_req, armed_valves}
use hysim.ControlClient.Switches.{Switch}
use hysim.ControlClient.Panel.{switches_table, no_switch, valve_arming_switch_idx}
use hysim.ControlClient.Replies.{IsSwitch}

-- A switch without its state: the ID and the kind.
abbrev pub Label : Type 0
Label = ℕ × ℕ

abbrev pub label : Switch → Label
label sw = (sw.act_id, sw.kind)

abbrev no_label : Label
no_label = label no_switch

-- The switches of the control box, in any states.
abbrev pub IsBox : List Switch → Type 0
IsBox sws = map label sws ≡ map label switches_table

-- One switch thrown.
abbrev pub thrown : ℕ → Bool → List Switch → List Switch
thrown i b sws = set sws i (record (get_or sws i no_switch) { state = b })

label-thrown : (i : ℕ) (b : Bool) (sws : List Switch) → map label (thrown i b sws) ≡ map label sws
label-thrown i b [] = refl
label-thrown zero b (sw ∷ sws) = refl
label-thrown (suc i) b (sw ∷ sws) = ap (◌∷◌ (label sw)) (label-thrown i b sws)

pub thrown-IsBox : (i : ℕ) (b : Bool) (sws : List Switch) → IsBox sws → IsBox (thrown i b sws)
thrown-IsBox i b sws ok = label-thrown i b sws ∙ ok

get_or-label :
    (sws : List Switch) (i : ℕ) → label (get_or sws i no_switch) ≡ get_or (map label sws) i no_label
get_or-label [] i = refl
get_or-label (sw ∷ sws) zero = refl
get_or-label (sw ∷ sws) (suc i) = get_or-label sws i

-- A test that every label passes at its index, from one on.
abbrev all_from : (ℕ → Label → Bool) → ℕ → List Label → Bool
all_from test n [] = true
all_from test n (l ∷ ls) = test n l && all_from test (n + 1) ls

all_from-get_or :
    (test : ℕ → Label → Bool) (n i : ℕ) (ls : List Label)
    → ((j : ℕ) → test j no_label ≡ true)
    → all_from test n ls ≡ true
    → test (n + i) (get_or ls i no_label) ≡ true
all_from-get_or test n i [] default all = default (n + i)
all_from-get_or test n zero (l ∷ ls) default all =
    let same : n ≡ n + 0 = omega arith in
    subst (λ (m : ℕ). test m l ≡ true) same (ground (arith, all))
all_from-get_or test n (suc i) (l ∷ ls) default all =
    let same : n + 1 + i ≡ n + suc i = omega arith in
    subst (λ (m : ℕ). test m (get_or ls i no_label) ≡ true) same
      (all_from-get_or test (n + 1) i ls default (ground (arith, all)))

-- A test that the labels of the table pass is passed by the switch at any index of a box.
passes :
    (test : ℕ → Label → Bool) (sws : List Switch) (i : ℕ)
    → ((j : ℕ) → test j no_label ≡ true)
    → all_from test 0 (map label switches_table) ≡ true
    → IsBox sws
    → test (0 + i) (label (get_or sws i no_switch)) ≡ true
passes test sws i default all ok =
    let same : label (get_or sws i no_switch) ≡ get_or (map label switches_table) i no_label =
      get_or-label sws i ∙ ap (λ (ls : List Label). get_or ls i no_label) ok in
    subst (λ (l : Label). test (0 + i) l ≡ true) (sym same)
      (all_from-get_or test 0 i (map label switches_table) default all)

abbrev is_switch : ℕ → Label → Bool
is_switch j l = ((l.1 == cntrl_act_req) || (l.1 == cntrl_arm_req)) && ltb l.0 256

-- Only one arming switch is for `ARMED_VALVES`.
abbrev is_key_only : ℕ → Label → Bool
is_key_only j l =
    not ((l.1 == cntrl_arm_req) && (l.0 == armed_valves)) || (j == valve_arming_switch_idx)

pub box-IsSwitch : (sws : List Switch) (i : ℕ) → IsBox sws → IsSwitch (get_or sws i no_switch)
box-IsSwitch sws i ok = ground (arith, passes is_switch sws i (λ j. refl) refl ok)

pub key_index :
    (sws : List Switch) (i : ℕ)
    → IsBox sws
    → (get_or sws i no_switch).kind ≡ cntrl_arm_req
    → (get_or sws i no_switch).act_id ≡ armed_valves
    → i ≡ valve_arming_switch_idx
key_index sws i ok kind id = ground (arith, passes is_key_only sws i (λ j. refl) refl ok, kind, id)

pub key_label :
    (sws : List Switch)
    → IsBox sws
    → (get_or sws valve_arming_switch_idx no_switch).act_id ≡ armed_valves
key_label sws ok =
    ap (λ (l : Label). l.0)
      (get_or-label sws valve_arming_switch_idx
        ∙ ap (λ (ls : List Label). get_or ls valve_arming_switch_idx no_label) ok)

length-map : (sws : List Switch) → length (map label sws) ≡ length sws
length-map [] = refl
length-map (sw ∷ sws) = ap suc (length-map sws)

pub length_of_box : (sws : List Switch) → IsBox sws → length sws ≡ 20
length_of_box sws ok = sym (length-map sws) ∙ ap (λ (ls : List Label). length ls) ok
