-- ===== src/ControlClient/Replies.antt =====
-- The switches of control_client/src/switch.c against the machine of the pad server: the bytes of a
-- request, and the error number that its acknowledgement is turned into.
use hysim.Base.{
  ℕ, ◌-◌, ◌≡◌, refl, sym, subst, ap, ◌∙◌, ◌⊎◌, inl, inr, Bool, false, List, [], ◌∷◌, ◌++◌, none,
  some, ℤ, pos, arith, ltb, ◌==◌, if◌then◌else◌, Run, get_or, is_negative,
}
use hysim.Packet.{ActReq, ArmReq, cntrl_act_req, cntrl_arm_req, packet_header_init, type_cntrl}
use hysim.Packet.Wire.{encode_header, encode_arm_req}
use hysim.Packet.RoundTrip.{IsU8}
use hysim.PadState.Levels.{allowed}
use hysim.PadState.Permission.{refusal, min_level}
use hysim.Controller.Machine.{Request, act_request, arm_request, encode_request, Pad, react}
use hysim.Os.{Sockets}
use hysim.ControlClient.{PadLink, pad_send, pad_recv}
use hysim.ControlClient.Switches.{
  Switch, switch_callback, send_and_check, check_act_response, check_arm_response, arm_errno,
  act_errno, arm_req_level,
}

-- What a switch asks for: an actuator on or off, a level, or the level before it. Below level 0 there is
-- 255, which is no level.
abbrev pub request_of : Switch → Bool → Request
request_of sw b =
    if sw.kind == cntrl_act_req
    then act_request (record { id = sw.act_id; state = if b then 1 else 0 })
    else arm_request (record {
      level = if b then sw.act_id else (if sw.act_id == 0 then 255 else sw.act_id - 1);
    })

-- The size of the acknowledgement.
abbrev pub ack_size : Request → ℕ
ack_size (act_request r) = 2
ack_size (arm_request r) = 1

abbrev pub IsSwitch : Switch → Type 0
IsSwitch sw = ((sw.kind ≡ cntrl_act_req) ⊎ (sw.kind ≡ cntrl_arm_req)) × IsU8 sw.act_id

-- The bytes of an arming switch are those of its request.
pub arm_req_lem :
    (id : ℕ) (b : Bool)
    → IsU8 id
    → encode_header (record { type = type_cntrl; subtype = cntrl_arm_req })
        ++ encode_arm_req (record { level = arm_req_level id b })
      ≡ encode_request
          (arm_request (record { level = if b then id else (if id == 0 then 255 else id - 1) }))
unfolding arm_req_level packet_header_init encode_arm_req encode_header
arm_req_lem id b ok = ground arith

module _ {W : Type 0} (net : Sockets W) where
  -- The error number that a request deserves at a state of the pad.
  abbrev pub verdict : Request → Pad → ℕ
  verdict (act_request r) pad =
      if ltb 14 r.id
      then net.enodev
      else (if r.id == 14
          then 0
          else (if ltb 1 r.state
              then net.einval
              else (if ltb pad.level (min_level r.id) then net.eperm else 0)))
  verdict (arm_request r) pad =
      if ltb 4 r.level then net.einval else (if allowed pad.level r.level then 0 else net.eperm)

  act_status : ActReq → Pad → ℕ
  act_status r pad = elim (refusal pad.level r.id r.state) [ none ↦ 0 | some v ↦ v ]

  act_ack_lem :
      (r : ActReq) (pad : Pad) → (react (act_request r) pad).1 ≡ r.id ∷ act_status r pad ∷ []
  unfolding act_status
  act_ack_lem r pad = ground arith

  act_errno-verdict :
      (r : ActReq) (pad : Pad) → act_errno net (act_status r pad) ≡ verdict (act_request r) pad
  unfolding act_errno act_status
  act_errno-verdict r pad = ground arith

  arm_errno-verdict :
      (r : ArmReq) (pad : Pad)
      → (react (arm_request r) pad).1 ≡ get_or (react (arm_request r) pad).1 0 0 ∷ []
  arm_errno-verdict r pad = ground arith

  -- A connection on which sending works; `sent` is what was sent.
  pub record Peer (sock : ℤ) : Type 0 where
    pub sent : W → List (List ℕ)
    pub send_works : (bs : List ℕ) (w : W) → is_negative (net.send sock bs w).0 ≡ false
    pub send_sent : (bs : List ℕ) (w : W) → sent (net.send sock bs w).1 ≡ sent w ++ bs ∷ []
    pub recv_sent : (n : ℕ) (w : W) → sent (net.recv sock n w).1 ≡ sent w

  module _ (link : PadLink) (peer : Peer link.sock) where
    open peer use {sent, send_works, send_sent, recv_sent}

    abbrev Reply : Switch → Bool → Pad → W → Type 0
    Reply sw b pad w =
        (net.recv link.sock (ack_size (request_of sw b))
          (net.send link.sock (encode_request (request_of sw b)) w).1).0
        ≡ some (react (request_of sw b) pad).1

    abbrev Answered : Switch → Bool → Pad → W → Type 0
    Answered sw b pad w =
        let t = switch_callback net sw link b w in
        (t.0.0 ≡ pos (verdict (request_of sw b) pad))
        × (t.0.1 ≡ record sw { state = b })
        × (sent t.1 ≡ sent w ++ encode_request (request_of sw b) ∷ [])

    send_and_check_lem :
        (bs : List ℕ) (check : Run W ℕ) (w : W)
        → send_and_check net link bs check w
          ≡ (pos (check (net.send link.sock bs w).1).0, (check (net.send link.sock bs w).1).1)
    unfolding send_and_check pad_send
    send_and_check_lem bs check w = rw (send_works bs w) refl

    check_act_response_lem :
        (r : ActReq) (pad : Pad) (w : W)
        → (net.recv link.sock 2 w).0 ≡ some (react (act_request r) pad).1
        → ((check_act_response net link w).0 ≡ verdict (act_request r) pad)
          × (sent (check_act_response net link w).1 ≡ sent w)
    unfolding check_act_response pad_recv
    check_act_response_lem r pad w reply = (
      rw (reply ∙ ap some (act_ack_lem r pad), check_act_response) (act_errno-verdict r pad),
      recv_sent 2 w,
    )

    check_arm_response_lem :
        (r : ArmReq) (pad : Pad) (w : W)
        → (net.recv link.sock 1 w).0 ≡ some (react (arm_request r) pad).1
        → ((check_arm_response net link w).0 ≡ verdict (arm_request r) pad)
          × (sent (check_arm_response net link w).1 ≡ sent w)
    unfolding check_arm_response pad_recv arm_errno
    check_arm_response_lem r pad w reply = (ground (arith, reply), recv_sent 1 w)

    exchanged :
        (bs : List ℕ) (q : Request) (check : Run W ℕ) (v : ℕ) (w : W)
        → bs ≡ encode_request q
        → (check (net.send link.sock (encode_request q) w).1).0 ≡ v
        → sent (check (net.send link.sock (encode_request q) w).1).1
          ≡ sent (net.send link.sock (encode_request q) w).1
        → ((send_and_check net link bs check w).0 ≡ pos v)
          × (sent (send_and_check net link bs check w).1 ≡ sent w ++ encode_request q ∷ [])
    exchanged bs q check v w same value quiet =
        rw (same, send_and_check_lem (encode_request q) check w)
          (ap pos value, quiet ∙ send_sent (encode_request q) w)

    act_switch-verdict :
        (id : ℕ) (s b : Bool) (pad : Pad) (w : W)
        → IsU8 id
        → let sw : Switch = record { act_id = id; kind = cntrl_act_req; state = s } in
          Reply sw b pad w → Answered sw b pad w
    unfolding switch_callback packet_header_init
    act_switch-verdict id s b pad w ok reply =
        let q : ActReq = record { id = id; state = if b then 1 else 0 } in
        let w1 : W = (net.send link.sock (encode_request (act_request q)) w).1 in
        let checked = check_act_response_lem q pad w1 reply in
        let done =
          exchanged _ (act_request q) (check_act_response net link) _ w refl checked.0 checked.1 in
        (done.0, refl, done.1)

    arm_switch-verdict :
        (id : ℕ) (s b : Bool) (pad : Pad) (w : W)
        → IsU8 id
        → let sw : Switch = record { act_id = id; kind = cntrl_arm_req; state = s } in
          Reply sw b pad w → Answered sw b pad w
    unfolding switch_callback packet_header_init
    arm_switch-verdict id s b pad w ok reply =
        let q : ArmReq = record { level = if b then id else (if id == 0 then 255 else id - 1) } in
        let w1 : W = (net.send link.sock (encode_request (arm_request q)) w).1 in
        let checked = check_arm_response_lem q pad w1 reply in
        let same = arm_req_lem id b ok in
        let done =
          exchanged _ (arm_request q) (check_arm_response net link) _ w same checked.0 checked.1 in
        (done.0, refl, done.1)

    -- Throwing a switch of one of the two kinds, where sending works and what is received is the
    -- acknowledgement of a machine at `pad`: the one request that the switch stands for is sent, the error
    -- number that it deserves at `pad` is returned, and the switch is in its new state whatever the answer.
    pub switch_callback-verdict :
        (sw : Switch) (b : Bool) (pad : Pad) (w : W)
        → IsSwitch sw
        → (net.recv link.sock
            (ack_size (request_of sw b))
            (net.send link.sock (encode_request (request_of sw b)) w).1).0
          ≡ some (react (request_of sw b) pad).1
        → let t = switch_callback net sw link b w in
          (t.0.0 ≡ pos (verdict (request_of sw b) pad))
          × (t.0.1 ≡ record sw { state = b })
          × (sent t.1 ≡ sent w ++ encode_request (request_of sw b) ∷ [])
    switch_callback-verdict sw b pad w (inl k, ok) =
        let same : sw ≡ record sw { kind = cntrl_act_req } =
          ap (λ (n : ℕ). record sw { kind = n }) k in
        subst (λ (x : Switch). Reply x b pad w → Answered x b pad w) (sym same)
          (act_switch-verdict sw.act_id sw.state b pad w ok)
    switch_callback-verdict sw b pad w (inr k, ok) =
        let same : sw ≡ record sw { kind = cntrl_arm_req } =
          ap (λ (n : ℕ). record sw { kind = n }) k in
        subst (λ (x : Switch). Reply x b pad w → Answered x b pad w) (sym same)
          (arm_switch-verdict sw.act_id sw.state b pad w ok)
