-- ===== src/ControlClient/Switches.antt =====
-- control_client/src/switch.h and switch.c: the request that a switch sends, and what its reply means.
use hysim.Base.{
  ℕ, ◌+◌, Bool, none, some, List, ◌++◌, ℤ, pos, negsuc, Run, ◌>>=◌, return, ◌==◌, if◌then◌else◌,
  is_negative, get_or, ◌-◌,
}
use hysim.Packet.{
  ActAck, ArmAck, u8, type_cntrl, cntrl_act_req, cntrl_arm_req, act_ok, act_denied, act_dne,
  act_inv, arm_ok, arm_denied, arm_inv,
}
use hysim.Packet.Wire.{encode_header, encode_act_req, encode_arm_req}
use hysim.Os.{Sockets}
use hysim.Controller.Messages.{filled}
use hysim.ControlClient.{PadLink, pad_send, pad_recv}

-- switch_t
pub record Switch : Type 0 where
  pub act_id : ℕ
  pub kind : ℕ
  pub state : Bool

abbrev pub arm_ack_of : List ℕ → ArmAck
arm_ack_of bs = record { status = get_or bs 0 0 }

abbrev pub act_ack_of : List ℕ → ActAck
act_ack_of bs = record { id = get_or bs 0 0; status = get_or bs 1 0 }

-- The level of an arming switch: its own, or the one before it, as a uint8_t.
unfoldable pub arm_req_level : ℕ → Bool → ℕ
arm_req_level act_id newstate = u8 (if newstate then act_id else act_id + 255)

module _ {W : Type 0} (net : Sockets W) where
  -- The switches over the status.
  unfoldable pub arm_errno : ℕ → ℕ
  arm_errno status =
      if status == arm_ok
      then 0
      else (if status == arm_denied
          then net.eperm
          else (if status == arm_inv then net.einval else 0))

  unfoldable pub act_errno : ℕ → ℕ
  act_errno status =
      if status == act_ok
      then 0
      else (if status == act_denied
          then net.eperm
          else (if status == act_dne
              then net.enodev
              else (if status == act_inv then net.einval else 0)))

  -- A short read is not noticed: the bytes that did not arrive are those of the stack.
  unfoldable pub check_arm_response : PadLink → Run W ℕ
  check_arm_response pad w =
      let (bread, w1) = pad_recv net pad 1 w in
      (
        elim bread [
          | none ↦ net.sock_errno w1
          | some bs ↦ arm_errno (arm_ack_of (filled net 1 (net.stack 1 w) (some bs))).status
        ],
        w1,
      )

  unfoldable pub check_act_response : PadLink → Run W ℕ
  check_act_response pad w =
      let (bread, w1) = pad_recv net pad 2 w in
      (
        elim bread [
          | none ↦ net.sock_errno w1
          | some bs ↦ act_errno (act_ack_of (filled net 2 (net.stack 2 w) (some bs))).status
        ],
        w1,
      )

  -- The request is sent and its response checked.
  unfoldable pub send_and_check : PadLink → List ℕ → Run W ℕ → Run W ℤ
  send_and_check pad bs check = do
    sent ← pad_send net pad bs
    if is_negative sent
        then (λ w. (pos (net.sock_errno w), w))
        else do err ← check; return (pos err)

  -- The error number and the switch as it is left.
  unfoldable pub switch_callback : Switch → PadLink → Bool → Run W (ℤ × Switch)
  switch_callback sw pad newstate = do
    let hdr = encode_header (record { type = type_cntrl; subtype = sw.kind })
    let sw1 = record sw { state = newstate }
    if sw.kind == cntrl_act_req
        then (do
          let act_req =
              encode_act_req (record { id = sw.act_id; state = if newstate then 1 else 0 })
          err ← send_and_check pad (hdr ++ act_req) (check_act_response pad)
          return (err, sw1))
        else (if sw.kind == cntrl_arm_req
            then (do
              let arm_req = encode_arm_req (record { level = arm_req_level sw.act_id newstate })
              err ← send_and_check pad (hdr ++ arm_req) (check_arm_response pad)
              return (err, sw1))
            else return (negsuc (net.einval - 1), sw1))
