-- ===== src/Controller/Session.antt =====
-- The receive loop of pad_server/src/controller.c against a machine that knows the arming level and which
-- actuators are on.
use hysim.Base.{
  ℕ, ◌≤◌, ◌≡◌, refl, sym, subst, ◌∙◌, ap, List, [], ◌∷◌, ◌++◌, ℤ, pos, some, none, arith, length,
  pos_part, Option-cases, inl, inr,
}
use mathlib.Core.List.{append_assoc}
use hysim.Packet.{ActReq, ArmReq, act_ok, arm_ok, arm_denied, arm_inv, packet_header_init, u8}
use hysim.Packet.Wire.{
  encode_header, encode_act_req, encode_arm_req, encode_act_ack, encode_arm_ack,
}
use hysim.Packet.RoundTrip.{IsU8}
use hysim.Os.{Locks, Devices, Sockets}
use hysim.PadState.{PadState, bool_of, pad_actuate, padstate_change_level}
use hysim.PadState.Levels.{change_level_lem}
use hysim.PadState.Permission.{refusal, pad_actuate-refusal, Answers}
use hysim.PadState.Effect.{raised, actuated, pad_actuate-actuators, pad_actuate-level}
use hysim.PadState.Untouched.{AllObedient, AllObedient-set, change_level-line, pad_actuate-line}
use hysim.Controller.{Controller, controller_send}
use hysim.Controller.Messages.{
  Next, again, recv_struct, read_header, handle_act_req, handle_arm_req, answer_act_req,
  answer_arm_req, handle_message, serve_message, receive_loop,
}
use hysim.Controller.Machine.{
  Request, act_request, arm_request, encode_request, encode_requests, IsEncodable, AllEncodable,
  Pad, view, obey, react, react_all, map-set,
}
use hysim.Controller.Channel.{Channel, read_header-line, recv_act_req, recv_arm_req}

module _ {W : Type 0} (locks : Locks W) (os : Devices W) (net : Sockets W) (c : Controller)
    (ch : Channel locks net c.client) where
  open ch use {line, untouched, rdlock_ok, wrlock_ok, send_line}

  -- What the loop relies on between two messages.
  pub record IsReady (p : PadState W × W) : Type 0 where
    pub in_range : p.0.arm_level ≤ 4
    pub obedient : AllObedient line p.0.actuators

  abbrev Obeyed : ActReq → PadState W × W → ℤ × (PadState W × W) → Pad × List ℕ → Type 0
  Obeyed r p t m =
      (encode_act_ack (record { id = r.id; status = u8 (pos_part t.0) }) ≡ m.1)
      × (view t.1.0 ≡ m.0)
      × (t.1.0.arm_level ≤ 4)
      × (AllObedient line t.1.0.actuators)

  refused_obey :
      (r : ActReq) (p : PadState W × W) (v : ℕ) (t : ℤ × (PadState W × W))
      → IsU8 r.id
      → IsReady p
      → refusal p.0.arm_level r.id r.state ≡ some v
      → t.0 ≡ pos v
      → t.1.0 ≡ p.0
      → Obeyed r p t (obey r (some v) (view p.0))
  unfolding encode_act_ack
  refused_obey r p v t b ready e et es =
      (ground arith, ap view es, rw es ready.in_range, rw es ready.obedient)

  accepted_obey :
      (r : ActReq) (p : PadState W × W) (t : ℤ × (PadState W × W))
      → IsU8 r.id
      → IsReady p
      → t.0 ≡ pos act_ok
      → t.1.0.actuators ≡ actuated r.id r.state p.0.actuators
      → t.1.0.arm_level ≡ raised p.0.arm_level r.id r.state
      → Obeyed r p t (obey r none (view p.0))
  unfolding encode_act_ack
  accepted_obey r p t b ready et ea el = (
    ground arith,
    ground (arith, map-set p.0.actuators r.id (bool_of r.state)),
    ground (arith, ready.in_range),
    rw ea (AllObedient-set line p.0.actuators r.id (bool_of r.state) ready.obedient),
  )

  -- `pad_actuate` in the terms of the machine.
  pad_actuate-obey :
      (r : ActReq) (p : PadState W × W)
      → IsU8 r.id
      → IsReady p
      → Obeyed r p
          (pad_actuate locks os r.id r.state p)
          (obey r (refusal p.0.arm_level r.id r.state) (view p.0))
  pad_actuate-obey r p b ready =
      let t : ℤ × (PadState W × W) = pad_actuate locks os r.id r.state p in
      let answers = pad_actuate-refusal locks os r.id r.state p ready.in_range (rdlock_ok p.1) in
      let works = pad_actuate-line locks os line untouched r.id r.state p ready.obedient in
      let acts = pad_actuate-actuators locks os r.id r.state p in
      let level = pad_actuate-level locks os rdlock_ok wrlock_ok r.id r.state p ready.in_range in
      elim (Option-cases (refusal p.0.arm_level r.id r.state)) [
        | inl e ↦
            (let ok : t.0 ≡ pos act_ok = ground (arith, e, answers, works) in
              rw e (accepted_obey r p t b ready ok (ground arith) (ground arith)))
        | inr (v, e) ↦
            (let refused : Answers (some v) p.0 t = rw e at answers in
              rw e (refused_obey r p v t b ready e refused.0 refused.1))
      ]

  -- After a message: the machine has reacted, the acknowledgement is the last message sent, and the
  -- bytes behind the request are still to be read.
  abbrev pub Served : Pad × List ℕ → List ℕ → List (List ℕ) → PadState W × W → Type 0
  Served m rest out t = (view t.0 ≡ m.0) × (line t.1 ≡ (rest, out ++ m.1 ∷ [])) × IsReady t

  answer_act_req-serves :
      (r : ActReq) (rest : List ℕ) (out : List (List ℕ)) (p : PadState W × W)
      → IsU8 r.id
      → IsReady p
      → line p.1 ≡ (rest, out)
      → Served (react (act_request r) (view p.0)) rest out (answer_act_req locks os net c r p).1
  unfolding answer_act_req controller_send
  answer_act_req-serves r rest out p b ready e =
      let t : ℤ × (PadState W × W) = pad_actuate locks os r.id r.state p in
      let obeyed = pad_actuate-obey r p b ready in
      let works = pad_actuate-line locks os line untouched r.id r.state p ready.obedient in
      let ack : List ℕ = encode_act_ack (record { id = r.id; status = u8 (pos_part t.0) }) in
      let sent = send_line ack t.1.1 in
      rw works.0 (
        obeyed.1,
        ground (arith, sent, works.1, e, obeyed.0),
        record { in_range = obeyed.2; obedient = obeyed.3 },
      )

  answer_arm_req-serves :
      (r : ArmReq) (rest : List ℕ) (out : List (List ℕ)) (p : PadState W × W)
      → IsReady p
      → line p.1 ≡ (rest, out)
      → Served (react (arm_request r) (view p.0)) rest out (answer_arm_req locks os net c r p).1
  unfolding answer_arm_req controller_send encode_arm_ack
  answer_arm_req-serves r rest out p ready e =
      let t : ℕ × (PadState W × W) = padstate_change_level locks r.level p in
      let lem = change_level_lem locks r.level p ready.in_range (wrlock_ok p.1) in
      let same = change_level-line locks line untouched r.level p in
      let kept : (answer_arm_req locks os net c r p).1.0.actuators ≡ p.0.actuators =
        ground (arith, lem) in
      (
        ground (arith, lem),
        ground (
          arith,
          lem,
          same,
          send_line (arm_ok ∷ []) t.1.1,
          send_line (arm_denied ∷ []) t.1.1,
          send_line (arm_inv ∷ []) t.1.1,
        ),
        record {
          in_range = ground (arith, lem, ready.in_range);
          obedient = subst (AllObedient line) (sym kept) ready.obedient;
        },
      )

  pub handle_message-serves :
      (q : Request) (rest : List ℕ) (out : List (List ℕ)) (p : PadState W × W)
      → IsEncodable q
      → IsReady p
      → line p.1 ≡ (encode_request q ++ rest, out)
      → let t = serve_message locks os net c p in
        (t.0 ≡ (again, c)) × Served (react q (view p.0)) rest out t.1
  unfolding serve_message handle_message handle_act_req handle_arm_req encode_header encode_act_req
      encode_arm_req packet_header_init
  handle_message-serves (act_request r) rest out p ok ready e =
      let body : List ℕ = r.id ∷ r.state ∷ rest in
      let hdr = read_header-line locks net c ch 0 0 body out p.1 (ground (arith, e)) in
      let w1 : W = (read_header net c 2 [] p.1).1 in
      let p2 : PadState W × W = (p.0, (recv_struct net c 2 w1).1) in
      let (req, after) = recv_act_req locks net c ch r.id r.state rest out w1 hdr.1 in
      let served =
        answer_act_req-serves r rest out p2 ok.0
          (record { in_range = ready.in_range; obedient = ready.obedient }) after in
      rw (hdr.0, serve_message) (refl, rw req served)
  handle_message-serves (arm_request r) rest out p ok ready e =
      let body : List ℕ = r.level ∷ rest in
      let hdr = read_header-line locks net c ch 0 2 body out p.1 (ground (arith, e)) in
      let w1 : W = (read_header net c 2 [] p.1).1 in
      let p2 : PadState W × W = (p.0, (recv_struct net c 1 w1).1) in
      let (req, after) = recv_arm_req locks net c ch r.level rest out w1 hdr.1 in
      let served =
        answer_arm_req-serves r rest out p2
          (record { in_range = ready.in_range; obedient = ready.obedient }) after in
      rw (hdr.0, serve_message) (refl, rw req served)

  -- Where the loop is after it has served `qs` from `p`, seen from a machine at `pad`.
  abbrev Reached : List Request → List ℕ → List (List ℕ) → PadState W × W → Pad → Type 0
  Reached qs rest out p pad =
      let t = receive_loop locks os net (length qs) c p in
      let m = react_all qs pad out in
      (t.0 ≡ (again, c)) × (view t.1.0 ≡ m.0) × (line t.1.1 ≡ (rest, m.1))

  -- On a channel where the requests have arrived and the locks are granted, with drivers that never fail and
  -- requests whose fields fit a byte: the loop carries them out in order and acknowledges each once. The pad
  -- state is where the machine is, the acknowledgements sent are the machine's, and what follows the
  -- requests is unread.
  pub receive_loop-serves :
      (qs : List Request) (rest : List ℕ) (out : List (List ℕ)) (p : PadState W × W)
      → AllEncodable qs
      → IsReady p
      → line p.1 ≡ (encode_requests qs ++ rest, out)
      → let t = receive_loop locks os net (length qs) c p in
        let m = react_all qs (view p.0) out in
        (t.0 ≡ (again, c)) × (view t.1.0 ≡ m.0) × (line t.1.1 ≡ (rest, m.1))
  unfolding receive_loop
  receive_loop-serves [] rest out p ok ready e = (refl, refl, e)
  receive_loop-serves (q ∷ qs) rest out p ok ready e =
      let e' : line p.1 ≡ (encode_request q ++ (encode_requests qs ++ rest), out) =
        e
        ∙ ap (λ (bs : List ℕ). (bs, out))
            (append_assoc (encode_request q) (encode_requests qs) rest) in
      let head = handle_message-serves q (encode_requests qs ++ rest) out p ok.0 ready e' in
      let tail =
        receive_loop-serves qs rest (out ++ (react q (view p.0)).1 ∷ [])
          (serve_message locks os net c p).1 ok.1 head.1.2 head.1.1 in
      let client_kept = ap (λ (x : Next × Controller). x.1) head.0 in
      rw (head.0, receive_loop)
        (rw client_kept (
          subst
            (Reached qs rest (out ++ (react q (view p.0)).1 ∷ [])
              (serve_message locks os net c p).1)
            head.1.0 tail))
