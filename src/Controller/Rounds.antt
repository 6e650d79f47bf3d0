-- ===== src/Controller/Rounds.antt =====
-- A round of the receive loop of pad_server/src/controller.c, whatever the socket, the locks and the
-- drivers answer: garbage, short reads, failed calls, a client that is gone.
use hysim.Base.{
  ℕ, suc, zero, get_or, [], ◌+◌, ◌≤◌, ◌<◌, ◌≡◌, ◌≢◌, refl, sym, subst, ap, ◌∙◌, false, Run, inl,
  inr, arith, Bool-cases, Option-cases, is_minus_one, ◌==◌, if-elim,
}
use hysim.Packet.{Header, ActReq, ArmReq, cntrl_act_req, cntrl_arm_req, type_cntrl}
use hysim.Os.{Locks, Devices, Sockets}
use hysim.PadState.{PadState, pad_actuate}
use hysim.PadState.History.{
  Command, change_level, actuate, connect, outside, step, state_of, step-IsValid, step_bound,
  step_still,
}
use hysim.PadState.Invariant.{IsValid}
use hysim.PadState.Permission.{min_level}
use hysim.Actuator.{zeroed_actuator}
use hysim.Controller.{Controller, controller_client_disconnect}
use hysim.Controller.Messages.{
  Next, again, reconnect, receive_loop, handle_act_req, handle_arm_req, answer_act_req,
  answer_arm_req, handle_message, serve_message, recv_struct, read_header, act_req_of, arm_req_of,
  header_of,
}

module _ {W : Type 0} (locks : Locks W) (os : Devices W) where
  -- `q` holds the state after one command, given at `p` with the world in any state.
  abbrev pub Acts : PadState W × W → PadState W × W → Type 0
  Acts p q = (c : Command W) × (w : W) × (q.0 ≡ (step locks os c (p.0, w)).0)

  module _ (net : Sockets W) (c : Controller) where
    answer_act_req-Acts :
        (r : ActReq) (p : PadState W × W) → Acts p (answer_act_req locks os net c r p).1
    unfolding answer_act_req step
    answer_act_req-Acts r p =
        if-elim {A = Run (PadState W × W) (Unit {0})}
          (is_minus_one (pad_actuate locks os r.id r.state p).0)
          (λ m. Acts p (m (pad_actuate locks os r.id r.state p).1).1)
          (λ _. (actuate r.id r.state, p.1, refl)) (λ _. (actuate r.id r.state, p.1, refl))

    handle_act_req-Acts : (p : PadState W × W) → Acts p (handle_act_req locks os net c p).1
    unfolding handle_act_req
    handle_act_req-Acts p =
        let buf = recv_struct net c 2 p.1 in answer_act_req-Acts (act_req_of buf.0) (p.0, buf.1)

    answer_arm_req-Acts :
        (r : ArmReq) (p : PadState W × W) → Acts p (answer_arm_req locks os net c r p).1
    unfolding answer_arm_req step
    answer_arm_req-Acts r p = (change_level r.level, p.1, ground arith)

    handle_arm_req-Acts : (p : PadState W × W) → Acts p (handle_arm_req locks os net c p).1
    unfolding handle_arm_req
    handle_arm_req-Acts p =
        let buf = recv_struct net c 1 p.1 in answer_arm_req-Acts (arm_req_of buf.0) (p.0, buf.1)

    handle_message-Acts :
        (h : Header) (p : PadState W × W) → Acts p (handle_message locks os net c h p).1
    unfolding handle_message step
    handle_message-Acts h p =
        let Q = λ (m : Run (PadState W × W) (Unit {0})). Acts p (m p).1 in
        if-elim (h.type == type_cntrl) Q
          (λ _.
            if-elim (h.subtype == cntrl_act_req) Q (λ _. handle_act_req-Acts p)
              (λ _.
                if-elim (h.subtype == cntrl_arm_req) Q (λ _. handle_arm_req-Acts p)
                  (λ _. (outside p.1, p.1, refl))))
          (λ _. (outside p.1, p.1, refl))

  module _ (net : Sockets W) where
    -- Whatever arrives and whatever fails: what a round leaves of the pad state is left by one command at most.
    pub serve_message-Acts :
        (c : Controller) (p : PadState W × W) → Acts p (serve_message locks os net c p).1
    unfolding serve_message step
    serve_message-Acts c p = elim (Option-cases (read_header net c 2 [] p.1).0) [
      | inl e ↦
          (let w1 : W = (read_header net c 2 [] p.1).1 in
            rw (e, serve_message) (connect false, (controller_client_disconnect net c w1).1, refl))
      | inr (bs, e) ↦
          rw (e, serve_message)
            (handle_message-Acts net c (header_of bs) (p.0, (read_header net c 2 [] p.1).1))
    ]

    -- What the loop does after a round, with so many rounds to go.
    abbrev pub go_on :
        ℕ → (Next × Controller) × (PadState W × W) → (Next × Controller) × (PadState W × W)
    go_on m t = elim t.0.0 [
      | again ↦ receive_loop locks os net m t.0.1 t.1
      | reconnect ↦ ((reconnect, t.0.1), t.1)
    ]

    pub receive_loop-round :
        (m : ℕ) (c : Controller) (p : PadState W × W) (t : (Next × Controller) × (PadState W × W))
        → serve_message locks os net c p ≡ t
        → receive_loop locks os net (suc m) c p ≡ go_on m t
    unfolding receive_loop
    receive_loop-round m c p t e = ap (go_on m) e

module _ {W : Type 0} (locks : Locks W) (os : Devices W) where
  Acts-IsValid : (p q : PadState W × W) → Acts locks os p q → IsValid p.0 → IsValid q.0
  Acts-IsValid p q (c, w, e) v = subst IsValid (sym e) (step-IsValid locks os c (p.0, w) v)

  Acts-bound :
      (p q : PadState W × W) → Acts locks os p q → IsValid p.0 → q.0.arm_level ≤ p.0.arm_level + 1
  Acts-bound p q (c, w, e) v = rw e (step_bound locks os c (p.0, w) v)

  module _ (granted_rd : (w : W) → (locks.rdlock w).0 ≡ 0) where
    Acts-still :
        (i : ℕ) (p q : PadState W × W)
        → Acts locks os p q
        → p.0.arm_level ≤ 4
        → i ≢ 14
        → p.0.arm_level < min_level i
        → state_of i q ≡ state_of i p
    Acts-still i p q (c, w, e) h k low =
        ap (λ (s : PadState W). (get_or s.actuators i zeroed_actuator).state) e
        ∙ step_still locks os granted_rd i c (p.0, w) h k low

    module _ (net : Sockets W) (i k : ℕ) (not_dump : i ≢ 14) (permits : k ≤ min_level i) where
      abbrev At : ℕ → Controller → PadState W × W → Type 0
      At n c p = (m : ℕ) × (m ≤ n) × ((receive_loop locks os net m c p).1.0.arm_level ≡ k)

      abbrev Moved : ℕ → Controller → PadState W × W → Type 0
      Moved n c p = state_of i (receive_loop locks os net n c p).1 ≢ state_of i p

      -- From below the level: the first round leads at most one level up and moves no such actuator.
      climb :
          (n : ℕ) (c c' : Controller) (next : Next) (p q : PadState W × W)
          → serve_message locks os net c p ≡ ((next, c'), q)
          → (IsValid q.0 → q.0.arm_level ≤ k → Moved n c' q → At n c' q)
          → p.0.arm_level < k
          → IsValid p.0
          → Moved (suc n) c p
          → At (suc n) c p
      climb n c c' next p q e later low v moved =
          let acts : Acts locks os p q =
            subst (λ (t : (Next × Controller) × (PadState W × W)). Acts locks os p t.1) e
              (serve_message-Acts locks os net c p) in
          let still = Acts-still i p q acts v.level not_dump (omega arith) in
          elim next
              as (λ (x : Next). serve_message locks os net c p ≡ ((x, c'), q) → At (suc n) c p) [
                | again ↦ λ e'.
                    (let again_m =
                        λ (m : ℕ). receive_loop-round locks os net m c p ((again, c'), q) e' in
                      let (m, le, at) =
                        later (Acts-IsValid p q acts v) (ground (arith, Acts-bound p q acts v))
                          (λ same. moved (
                            ap (λ (t : (Next × Controller) × (PadState W × W)). state_of i t.1)
                              (again_m n)
                            ∙ same
                            ∙ still)) in
                      (suc m, omega arith, rw (again_m m) at))
                | reconnect ↦ λ e'. absurd (
                    moved
                      (rw (receive_loop-round locks os net n c p ((reconnect, c'), q) e') still))
              ]
            e

      -- On any connection to any client, with any drivers, where every read lock is granted and the state is valid:
      -- if the receive loop has changed the recorded state of an actuator other than the dump valve, then after
      -- some number of its rounds the arming level was the given one, for any level from the one at the start up
      -- to the lowest that permits the actuator.
      pub receive_loop-climbs :
          (n : ℕ) (c : Controller) (p : PadState W × W)
          → IsValid p.0
          → p.0.arm_level ≤ k
          → state_of i (receive_loop locks os net n c p).1 ≢ state_of i p
          → (m : ℕ) × (m ≤ n) × ((receive_loop locks os net m c p).1.0.arm_level ≡ k)
      unfolding receive_loop
      receive_loop-climbs zero c p v lo moved = absurd (moved refl)
      receive_loop-climbs (suc n) c p v lo moved = elim (Bool-cases (p.0.arm_level == k)) [
        | inl e ↦ (0, omega arith, ground arith)
        | inr e ↦
            (let ((next, c'), q) = serve_message locks os net c p in
              climb n c c' next p q refl (receive_loop-climbs n c' q) (ground arith) v moved)
      ]
