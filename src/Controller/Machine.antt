-- ===== src/Controller/Machine.antt =====
-- The requests that the control client sends to pad_server/src/controller.c, and a machine that knows only
-- the arming level and which actuators are on: what it does with a request, and the acknowledgement.
use hysim.Base.{
  ℕ, zero, suc, ◌≡◌, refl, ap, Bool, List, [], ◌∷◌, ◌++◌, map, Option, some, none, get_or, set, ltb,
  if◌then◌else◌,
}
use hysim.Packet.{
  ActReq, ArmReq, arm_ok, arm_denied, arm_inv, type_cntrl, cntrl_act_req, cntrl_arm_req,
  packet_header_init,
}
use hysim.Packet.Wire.{encode_header, encode_act_req, encode_arm_req}
use hysim.Packet.RoundTrip.{IsU8}
use hysim.Actuator.{Actuator, zeroed_actuator}
use hysim.PadState.{PadState, bool_of}
use hysim.PadState.Levels.{allowed}
use hysim.PadState.Permission.{refusal}
use hysim.PadState.Effect.{raised}

-- What the control client sends: a header and the body of a request.
pub data Request : Type 0 where
  act_request : ActReq → Request
  arm_request : ArmReq → Request

abbrev pub encode_request : Request → List ℕ
encode_request (act_request r) =
    encode_header (packet_header_init type_cntrl cntrl_act_req) ++ encode_act_req r
encode_request (arm_request r) =
    encode_header (packet_header_init type_cntrl cntrl_arm_req) ++ encode_arm_req r

abbrev pub encode_requests : List Request → List ℕ
encode_requests [] = []
encode_requests (q ∷ qs) = encode_request q ++ encode_requests qs

abbrev pub IsEncodable : Request → Type 0
IsEncodable (act_request r) = IsU8 r.id × IsU8 r.state
IsEncodable (arm_request r) = IsU8 r.level

abbrev pub AllEncodable : List Request → Type 0
AllEncodable [] = Unit {0}
AllEncodable (q ∷ qs) = IsEncodable q × AllEncodable qs

-- The machine: the arming level, and for each actuator whether it is on.
pub record Pad : Type 0 where
  pub level : ℕ
  pub on : List Bool

abbrev pub view : {W : Type 0} → PadState W → Pad
view s = record { level = s.arm_level; on = map (λ a. a.state) s.actuators }

-- One request: the machine after it, and the acknowledgement.
abbrev pub obey : ActReq → Option ℕ → Pad → Pad × List ℕ
obey r (some v) pad = (pad, r.id ∷ v ∷ [])
obey r none pad = (
  record { level = raised pad.level r.id r.state; on = set pad.on r.id (bool_of r.state) },
  r.id ∷ 0 ∷ [],
)

abbrev pub react : Request → Pad → Pad × List ℕ
react (act_request r) pad = obey r (refusal pad.level r.id r.state) pad
react (arm_request r) pad =
    if ltb 4 r.level
    then (pad, arm_inv ∷ [])
    else (if allowed pad.level r.level
        then (record pad { level = r.level }, arm_ok ∷ [])
        else (pad, arm_denied ∷ []))

abbrev pub react_all : List Request → Pad → List (List ℕ) → Pad × List (List ℕ)
react_all [] pad out = (pad, out)
react_all (q ∷ qs) pad out = let (pad', ack) = react q pad in react_all qs pad' (out ++ ack ∷ [])

pub map-set :
    {W : Type 0} (acts : List (Actuator W)) (i : ℕ) (b : Bool)
    → map
        (λ (a : Actuator W). a.state)
        (set acts i (record (get_or acts i zeroed_actuator) { state = b }))
      ≡ set (map (λ (a : Actuator W). a.state) acts) i b
map-set [] i b = refl
map-set (a ∷ acts) zero b = refl
map-set (a ∷ acts) (suc i) b = ap (◌∷◌ a.state) (map-set acts i b)
