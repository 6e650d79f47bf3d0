-- ===== src/ControlClient/Lockstep.antt =====
-- Any number of switches thrown one after the other (control_client/src/switch.c) against the receive loop of
-- the pad server (pad_server/src/controller.c): a network that hands each request to the server, lets it
-- serve one message, and hands what it sends back to the client.
use mathlib.Core.List.{append-nil}
use hysim.Base.{
  ℕ, ◌<◌, ◌≡◌, refl, sym, subst, ap, ap₂, ◌∙◌, inl, inr, Bool, List, [], ◌∷◌, ◌++◌, ℤ, pos, Option,
  some, none, arith, length, take, drop,
}
use hysim.Packet.{cntrl_act_req, cntrl_arm_req, packet_header_init}
use hysim.Os.{Devices, Locks, Sockets}
use hysim.PadState.{PadState}
use hysim.Controller.{Controller}
use hysim.Controller.Channel.{Channel}
use hysim.Controller.Machine.{Request, act_request, arm_request, encode_request, react, view, Pad}
use hysim.Controller.Messages.{Next, receive_loop, serve_message, again}
use hysim.Controller.Rounds.{receive_loop-round}
use hysim.Controller.Session.{IsReady, Served, handle_message-serves}
use hysim.ControlClient.{PadLink, pad_send, pad_recv}
use hysim.ControlClient.Switches.{
  Switch, switch_callback, send_and_check, check_act_response, check_arm_response,
}
use hysim.ControlClient.Replies.{
  IsSwitch, Peer, ack_size, arm_req_lem, request_of, switch_callback-verdict, verdict,
}
use hysim.ControlClient.Exchange.{request-IsEncodable}

-- Both ends: the pad server, the acknowledgements on their way to the client, and what the client sent.
pub record Ends (S : Type 0) : Type 0 where
  pub pad : PadState S × S
  pub acks : List (List ℕ)
  pub sent : List (List ℕ)

abbrev first : ℕ → List (List ℕ) → Option (List ℕ)
first n [] = none
first n (bs ∷ more) = some (take n bs)

abbrev others : List (List ℕ) → List (List ℕ)
others [] = []
others (bs ∷ more) = more

drop-append : {A : Type 0} (xs ys : List A) → drop (length xs) (xs ++ ys) ≡ ys
drop-append [] ys = refl
drop-append (x ∷ xs) ys = drop-append xs ys

take_ack : (q : Request) (pad : Pad) → take (ack_size q) (react q pad).1 ≡ (react q pad).1
take_ack (act_request r) pad = ground arith
take_ack (arm_request r) pad = ground arith

module _ {S : Type 0} (locks : Locks S) (os : Devices S) (server : Sockets S) (c : Controller)
    (ch : Channel locks server c.client) (deliver : List ℕ → S → S) where
  open ch use {line}

  -- A request arrives, and the server serves one message.
  abbrev pub served : List ℕ → PadState S × S → PadState S × S
  served bs p = (receive_loop locks os server 1 c (p.0, deliver bs p.1)).1

  -- The client's side of a network on which nothing is lost: sending works, the server serves the request before it
  -- returns, and what it sends arrives. What else the client can do is left to `base`.
  abbrev pub network : Sockets (Ends S) → Sockets (Ends S)
  network base = record base {
    send = λ fd bs e. (
      pos (length bs),
      record {
        pad = served bs e.pad;
        acks = e.acks ++ drop (length (line e.pad.1).1) (line (served bs e.pad).1).1;
        sent = e.sent ++ bs ∷ [];
      },
    );
    recv = λ fd n e. (first n e.acks, record e { acks = others e.acks });
  }

  -- Between two switches.
  pub record IsIdle (e : Ends S) : Type 0 where
    pub no_acks : e.acks ≡ []
    pub no_bytes : (line e.pad.1).0 ≡ []
    pub ready : IsReady locks os server c ch e.pad

  module _
      (deliver_line : (bs : List ℕ) (w : S) → line (deliver bs w) ≡ ((line w).0 ++ bs, (line w).1))
      (base : Sockets (Ends S)) (link : PadLink) where
    abbrev net : Sockets (Ends S)
    net = network base

    abbrev peer : Peer net link.sock
    peer = record {
      sent = λ e. e.sent;
      send_works = λ bs e. refl;
      send_sent = λ bs e. refl;
      recv_sent = λ n e. refl;
    }

    -- The server serves an encoded request that arrives while it is idle.
    served_request :
        (sw : Switch) (b : Bool) (e : Ends S)
        → IsSwitch sw
        → IsIdle e
        → let q = request_of sw b in
          Served locks os server c ch
            (react q (view e.pad.0))
            []
            (line e.pad.1).1
            (served (encode_request q) e.pad)
    unfolding receive_loop
    served_request sw b e ok idle =
        let q : Request = request_of sw b in
        let out : List (List ℕ) = (line e.pad.1).1 in
        let p : PadState S × S = (e.pad.0, deliver (encode_request q) e.pad.1) in
        let arrived : line p.1 ≡ (encode_request q ++ [], out) =
          deliver_line (encode_request q) e.pad.1
          ∙ ap (λ (bs : List ℕ). (bs ++ encode_request q, out)) idle.no_bytes
          ∙ ap (λ (bs : List ℕ). (bs, out)) (sym (append-nil (encode_request q))) in
        let ready : IsReady locks os server c ch p = record {
          in_range = idle.ready.in_range;
          obedient = idle.ready.obedient;
        } in
        let (next, serves) =
          handle_message-serves locks os server c ch q [] out p (request-IsEncodable sw b ok) ready
            arrived in
        let after : PadState S × S = (serve_message locks os server c p).1 in
        let round =
          receive_loop-round locks os server 0 c p ((again, c), after)
            (ap (λ (x : Next × Controller). (x, after)) next) in
        subst
          (λ (t : PadState S × S). Served locks os server c ch (react q (view e.pad.0)) [] out t)
          (sym (ap (λ (t : (Next × Controller) × (PadState S × S)). t.1) round)) serves

    -- What the client's call finds and leaves of the network.
    abbrev Replied : Switch → Bool → Ends S → Type 0
    Replied sw b e =
        let q = request_of sw b in
        let e1 = (net.send link.sock (encode_request q) e).1 in
        let e2 = (net.recv link.sock (ack_size q) e1).1 in
        ((net.recv link.sock (ack_size q) e1).0 ≡ some (react q (view e.pad.0)).1)
        × IsIdle e2
        × (view e2.pad.0 ≡ (react q (view e.pad.0)).0)

    replied : (sw : Switch) (b : Bool) (e : Ends S) → IsSwitch sw → IsIdle e → Replied sw b e
    replied sw b e ok idle =
        let q : Request = request_of sw b in
        let (state, answered, ready) = served_request sw b e ok idle in
        let ack : List ℕ = (react q (view e.pad.0)).1 in
        let out : List (List ℕ) = (line e.pad.1).1 in
        let waiting : (net.send link.sock (encode_request q) e).1.acks ≡ ack ∷ [] =
          ap₂ (λ (old : List (List ℕ)) (new : List (List ℕ)). old ++ drop (length out) new)
            idle.no_acks (ap (λ (l : List ℕ × List (List ℕ)). l.1) answered)
          ∙ drop-append out (ack ∷ []) in
        (
          ap (first (ack_size q)) waiting ∙ ap some (take_ack q (view e.pad.0)),
          record {
            no_acks = ap others waiting;
            no_bytes = ap (λ (l : List ℕ × List (List ℕ)). l.0) answered;
            ready = record { in_range = ready.in_range; obedient = ready.obedient };
          },
          state,
        )

    -- The call of the callback sends the request and receives once.
    abbrev CallsOnce : Switch → Bool → Ends S → Type 0
    CallsOnce sw b e =
        let q = request_of sw b in
        (switch_callback net sw link b e).1
        ≡ (net.recv link.sock (ack_size q) (net.send link.sock (encode_request q) e).1).1

    act_switch_calls :
        (id : ℕ) (s b : Bool) (e : Ends S)
        → CallsOnce (record { act_id = id; kind = cntrl_act_req; state = s }) b e
    unfolding switch_callback send_and_check check_act_response pad_send pad_recv packet_header_init
    act_switch_calls id s b e = refl

    arm_switch_calls :
        (id : ℕ) (s b : Bool) (e : Ends S)
        → id < 256
        → CallsOnce (record { act_id = id; kind = cntrl_arm_req; state = s }) b e
    unfolding switch_callback send_and_check check_arm_response pad_send pad_recv packet_header_init
    arm_switch_calls id s b e ok =
        ap (λ (bs : List ℕ). (net.recv link.sock 1 (net.send link.sock bs e).1).1)
          (arm_req_lem id b ok)

    switch_calls : (sw : Switch) (b : Bool) (e : Ends S) → IsSwitch sw → CallsOnce sw b e
    switch_calls sw b e (inl k, ok) =
        let same : sw ≡ record sw { kind = cntrl_act_req } =
          ap (λ (n : ℕ). record sw { kind = n }) k in
        subst (λ (x : Switch). CallsOnce x b e) (sym same) (act_switch_calls sw.act_id sw.state b e)
    switch_calls sw b e (inr k, ok) =
        let same : sw ≡ record sw { kind = cntrl_arm_req } =
          ap (λ (n : ℕ). record sw { kind = n }) k in
        subst (λ (x : Switch). CallsOnce x b e) (sym same)
          (arm_switch_calls sw.act_id sw.state b e ok)

    -- A switch thrown while the network is idle.
    pub switch_callback-IsIdle :
        (sw : Switch) (b : Bool) (e : Ends S)
        → IsSwitch sw
        → IsIdle e
        → let q = request_of sw b in
          let t = switch_callback net sw link b e in
          (t.0 ≡ (pos (verdict net q (view e.pad.0)), record sw { state = b }))
          × IsIdle t.1
          × (view t.1.pad.0 ≡ (react q (view e.pad.0)).0)
          × (t.1.sent ≡ e.sent ++ encode_request q ∷ [])
    switch_callback-IsIdle sw b e ok idle =
        let (reply, idle', state) = replied sw b e ok idle in
        let (err, kept, sends) =
          switch_callback-verdict net link peer sw b (view e.pad.0) e ok reply in
        let calls = switch_calls sw b e ok in
        (
          ap₂ (λ (n : ℤ) (x : Switch). (n, x)) err kept,
          subst IsIdle (sym calls) idle',
          ap (λ (x : Ends S). view x.pad.0) calls ∙ state,
          sends,
        )
