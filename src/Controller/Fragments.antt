-- ===== src/Controller/Fragments.antt =====
-- How the receive loop of pad_server/src/controller.c puts together what a stream hands over in pieces:
-- the header in a loop, the body of a request with one call of `recv`.
use hysim.Base.{
  ℕ, ◌≤◌, ◌<◌, ◌≡◌, ap, ◌∙◌, ◌⊎◌, List, [], ◌∷◌, ℤ, some, arith, length, take, drop, pos_part,
}
use hysim.Packet.{ActReq, u8}
use hysim.Packet.Wire.{encode_act_ack}
use hysim.Os.{Locks, Devices, Sockets}
use hysim.PadState.{PadState, pad_actuate}
use hysim.PadState.Untouched.{Untouched, AllObedient, pad_actuate-line}
use hysim.Controller.{Controller, controller_recv, controller_send}
use hysim.Controller.Messages.{read_header, recv_struct, handle_act_req, answer_act_req, act_req_of}

-- A stream socket: a call of `recv` takes at least one of the bytes that have arrived, and no more than it
-- asks for.
pub record Pieces {W : Type 0} (net : Sockets W) (client : ℤ) : Type 0 where
  pub incoming : W → List ℕ
  pub taken : ℕ → W → ℕ
  pub taken_some :
      (n : ℕ) (w : W) → 0 < n → 0 < length (incoming w) → (0 < taken n w) × (taken n w ≤ n)
  pub recv_taken :
      (n : ℕ) (w : W)
      → 0 < n
      → 0 < length (incoming w)
      → (net.recv client n w).0 ≡ some (take (taken n w) (incoming w))
  pub recv_left :
      (n : ℕ) (w : W)
      → 0 < n
      → 0 < length (incoming w)
      → incoming (net.recv client n w).1 ≡ drop (taken n w) (incoming w)

module _ {W : Type 0} (net : Sockets W) (c : Controller) (stream : Pieces net c.client) where
  open stream use {incoming, taken, taken_some, recv_taken, recv_left}

  recv_one :
      (a : ℕ) (rest : List ℕ) (w : W)
      → incoming w ≡ a ∷ rest
      → ((controller_recv net c 1 w).0 ≡ some (a ∷ []))
        × (incoming (controller_recv net c 1 w).1 ≡ rest)
  unfolding controller_recv
  recv_one a rest w e = ground (arith, taken_some 1 w, recv_taken 1 w, recv_left 1 w, e)

  recv_cut :
      (n k : ℕ) (w : W)
      → taken n w ≡ k
      → 0 < n
      → 0 < length (incoming w)
      → ((controller_recv net c n w).0 ≡ some (take k (incoming w)))
        × (incoming (controller_recv net c n w).1 ≡ drop k (incoming w))
  unfolding controller_recv
  recv_cut n k w e h l = (
    recv_taken n w h l ∙ ap (λ (m : ℕ). some (take m (incoming w))) e,
    recv_left n w h l ∙ ap (λ (m : ℕ). drop m (incoming w)) e,
  )

  recv_two :
      (a b : ℕ) (rest : List ℕ) (w : W)
      → incoming w ≡ a ∷ b ∷ rest
      → let r = controller_recv net c 2 w in
        ((r.0 ≡ some (a ∷ b ∷ [])) × (incoming r.1 ≡ rest))
        ⊎ ((r.0 ≡ some (a ∷ [])) × (incoming r.1 ≡ b ∷ rest))
  recv_two a b rest w e =
      let one_or_two : (taken 2 w ≡ 1) ⊎ (taken 2 w ≡ 2) = ground (arith, taken_some 2 w, e) in
      ground (arith, one_or_two, recv_cut 2 1 w, recv_cut 2 2 w, e)

  -- However a stream cuts it up: where two bytes have arrived, they are read as the header, and what follows
  -- them is left.
  pub read_header-reassembles :
      (a b : ℕ) (rest : List ℕ) (w : W)
      → incoming w ≡ a ∷ b ∷ rest
      → ((read_header net c 2 [] w).0 ≡ some (a ∷ b ∷ []))
        × (incoming (read_header net c 2 [] w).1 ≡ rest)
  unfolding read_header
  read_header-reassembles a b rest w e =
      ground (arith, recv_two a b rest w e, recv_one b rest (controller_recv net c 2 w).1)

  module _ (locks : Locks W) (os : Devices W) (untouched : Untouched locks incoming)
      (send_left : (bs : List ℕ) (w : W) → incoming (net.send c.client bs w).1 ≡ incoming w) where
    answer_act_req_lem :
        (r : ActReq) (p : PadState W × W)
        → AllObedient incoming p.0.actuators
        → let t = (answer_act_req locks os net c r p).1 in
          (t.0 ≡ (pad_actuate locks os r.id r.state p).1.0) × (incoming t.1 ≡ incoming p.1)
    unfolding answer_act_req controller_send
    answer_act_req_lem r p h =
        let t : ℤ × (PadState W × W) = pad_actuate locks os r.id r.state p in
        let ack : List ℕ = encode_act_ack (record { id = r.id; status = u8 (pos_part t.0) }) in
        ground (
          arith,
          pad_actuate-line locks os incoming untouched r.id r.state p h,
          send_left ack t.1.1,
        )

    -- With drivers that never fail and leave the stream alone: where only the first byte of an actuation request is
    -- handed over, the pad server acts on the requested actuator with a state that nobody sent, the byte
    -- that is on its stack, and leaves the requested state to be read as the next header.
    pub short_request-misread :
        (id state x junk : ℕ) (rest : List ℕ) (p : PadState W × W)
        → incoming p.1 ≡ id ∷ state ∷ rest
        → taken 2 p.1 ≡ 1
        → net.stack 2 p.1 ≡ x ∷ junk ∷ []
        → AllObedient incoming p.0.actuators
        → let t = (handle_act_req locks os net c p).1 in
          (t.0 ≡ (pad_actuate locks os id junk (p.0, (controller_recv net c 2 p.1).1)).1.0)
          × (incoming t.1 ≡ state ∷ rest)
    unfolding handle_act_req recv_struct
    short_request-misread id state x junk rest p e one st h =
        let (got, left) = recv_cut 2 1 p.1 one (omega arith) (ground (arith, e)) in
        let w1 : W = (controller_recv net c 2 p.1).1 in
        let buf : (recv_struct net c 2 p.1).0 ≡ id ∷ junk ∷ [] = ground (arith, got, e, st) in
        let req : act_req_of (recv_struct net c 2 p.1).0 ≡ record { id = id; state = junk } =
          ap act_req_of buf in
        let (acts, kept) = answer_act_req_lem (record { id = id; state = junk }) (p.0, w1) h in
        rw (req, handle_act_req) (acts, kept ∙ left ∙ ap (λ (bs : List ℕ). drop 1 bs) e)
