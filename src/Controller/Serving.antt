-- ===== src/Controller/Serving.antt =====
-- That serving a message opens and closes no socket (pad_server/src/controller.c).
use hysim.Base.{
  ℕ, zero, suc, ◌-◌, ◌≡◌, leb, pos_part, refl, sym, subst, ◌∙◌, List, [], ◌∷◌, ◌++◌, ℤ, Option,
  some, none, arith, if-elim, length,
}
use hysim.Packet.{Header, ActReq, ArmReq, u8, arm_ok, arm_denied, arm_inv}
use hysim.Packet.Wire.{encode_act_ack, encode_arm_ack}
use hysim.Os.{Locks, Devices, Sockets}
use hysim.PadState.{PadState, pad_actuate, padstate_change_level}
use hysim.PadState.Untouched.{change_level-line}
use hysim.PadState.Quiet.{AllQuiet, step-AllQuiet, pad_actuate-quiet}
use hysim.Controller.{Controller, controller_recv, controller_send}
use hysim.Controller.Messages.{
  act_req_of, arm_req_of, read_header, recv_struct, answer_act_req, handle_act_req, answer_arm_req,
  handle_arm_req, handle_message,
}
use hysim.Controller.Rounds.{Acts}
use hysim.Controller.Descriptors.{Descriptors}

module _ {W : Type 0} (locks : Locks W) (os : Devices W) (net : Sockets W)
    (descriptors : Descriptors locks os net) where
  open descriptors use {opens, recv_opens, send_opens, untouched, set_errno_opens}

  recv-opens : (c : Controller) (n : ℕ) (w : W) → opens (controller_recv net c n w).1 ≡ opens w
  unfolding controller_recv
  recv-opens c n w = recv_opens c.client n w

  -- The loop after a call of `recv`.
  abbrev read_on : Controller → ℕ → List ℕ → Option (List ℕ) → W → Option (List ℕ) × W
  read_on c fuel got bread w1 = elim bread [
    | none ↦ (none, w1)
    | some [] ↦ (none, w1)
    | some (b ∷ bs) ↦ read_header net c fuel (got ++ b ∷ bs) w1
  ]

  pub read_header-opens :
      (c : Controller) (fuel : ℕ) (got : List ℕ) (w : W)
      → opens (read_header net c fuel got w).1 ≡ opens w
  unfolding read_header
  read_header-opens c zero got w = refl
  read_header-opens c (suc fuel) got w =
      let (bread, w1) = controller_recv net c (2 - length got) w in
      let still = recv-opens c (2 - length got) w in
      if-elim (leb 2 (length got)) (λ (t : Option (List ℕ) × W). opens t.1 ≡ opens w) (λ e. refl)
        (λ e. elim bread as (λ (x : Option (List ℕ)). opens (read_on c fuel got x w1).1 ≡ opens w) [
          | none ↦ still
          | some [] ↦ still
          | some (b ∷ bs) ↦ read_header-opens c fuel (got ++ b ∷ bs) w1 ∙ still
        ])

  answer_act_req-opens :
      (c : Controller) (r : ActReq) (p : PadState W × W)
      → AllQuiet opens p.0.actuators
      → opens (answer_act_req locks os net c r p).1.1 ≡ opens p.1
  unfolding answer_act_req controller_send
  answer_act_req-opens c r p h =
      let t : ℤ × (PadState W × W) = pad_actuate locks os r.id r.state p in
      let ack : List ℕ = encode_act_ack (record { id = r.id; status = u8 (pos_part t.0) }) in
      ground (
        arith,
        pad_actuate-quiet locks os opens untouched set_errno_opens r.id r.state p h,
        send_opens c.client ack t.1.1,
      )

  answer_arm_req-opens :
      (c : Controller) (r : ArmReq) (p : PadState W × W)
      → opens (answer_arm_req locks os net c r p).1.1 ≡ opens p.1
  unfolding answer_arm_req controller_send encode_arm_ack
  answer_arm_req-opens c r p =
      let t : ℕ × (PadState W × W) = padstate_change_level locks r.level p in
      ground (
        arith,
        change_level-line locks opens untouched r.level p,
        send_opens c.client (arm_ok ∷ []) t.1.1,
        send_opens c.client (arm_denied ∷ []) t.1.1,
        send_opens c.client (arm_inv ∷ []) t.1.1,
      )

  pub handle_message-opens :
      (c : Controller) (h : Header) (p : PadState W × W)
      → AllQuiet opens p.0.actuators
      → opens (handle_message locks os net c h p).1.1 ≡ opens p.1
  unfolding handle_message handle_act_req handle_arm_req recv_struct
  handle_message-opens c h p quiet =
      let w1 : W = (controller_recv net c 2 p.1).1 in
      let w2 : W = (controller_recv net c 1 p.1).1 in
      let act = answer_act_req-opens c (act_req_of (recv_struct net c 2 p.1).0) (p.0, w1) quiet in
      let arm = answer_arm_req-opens c (arm_req_of (recv_struct net c 1 p.1).0) (p.0, w2) in
      ground (arith, recv-opens c 2 p.1, recv-opens c 1 p.1, act, arm)

  pub Acts-AllQuiet :
      (p q : PadState W × W)
      → Acts locks os p q
      → AllQuiet opens p.0.actuators
      → AllQuiet opens q.0.actuators
  Acts-AllQuiet p q (c, w, e) quiet =
      subst (λ (s : PadState W). AllQuiet opens s.actuators) (sym e)
        (step-AllQuiet locks os opens c (p.0, w) quiet)
