-- ===== src/ControlClient/Exchange.antt =====
-- A switch of the control client (control_client/src/switch.c) and the receive loop of the pad server
-- (pad_server/src/controller.c) on the two ends of a connection.
use mathlib.Core.List.{append-nil}
use hysim.Base.{
  ℕ, ◌<◌, ◌-◌, ◌≡◌, ◌∙◌, sym, ap, Bool, if◌then◌else◌, if-elim, ◌==◌, List, [], ◌∷◌, ◌++◌, some,
  arith, pos,
}
use hysim.Packet.{cntrl_act_req}
use hysim.Os.{Devices, Locks, Sockets}
use hysim.PadState.{PadState}
use hysim.Controller.{Controller}
use hysim.Controller.Channel.{Channel}
use hysim.Controller.Machine.{Request, IsEncodable, encode_request, react, view}
use hysim.Controller.Messages.{receive_loop}
use hysim.Controller.Session.{IsReady, receive_loop-serves}
use hysim.ControlClient.{PadLink}
use hysim.ControlClient.Switches.{Switch, switch_callback}
use hysim.ControlClient.Replies.{
  IsSwitch, Peer, ack_size, request_of, switch_callback-verdict, verdict,
}

pub request-IsEncodable : (sw : Switch) (b : Bool) → IsSwitch sw → IsEncodable (request_of sw b)
request-IsEncodable sw b ok =
    let bit : (if b then 1 else 0) < 256 = ground arith in
    let level : (if b then sw.act_id else (if sw.act_id == 0 then 255 else sw.act_id - 1)) < 256 =
      ground (arith, ok.1) in
    if-elim {A = Request} (sw.kind == cntrl_act_req) IsEncodable (λ e. (ok.1, bit)) (λ e. level)

module _ {S C : Type 0} (locks : Locks S) (os : Devices S) (server : Sockets S) (c : Controller)
    (ch : Channel locks server c.client) (client : Sockets C) (link : PadLink)
    (peer : Peer client link.sock) where
  open ch use {line}
  open peer use {sent}

  -- A switch of one of the two kinds is thrown while the pad server is between two messages, with granted locks and
  -- drivers that never fail, and its request has arrived there alone. If the client receives the one message that
  -- the server then sends: the client returns the error number that the request deserves at the server's level and
  -- actuators, the server's level and actuators are those of the abstract machine after the request, and that
  -- request is all the client sent.
  pub switch-exchange :
      (sw : Switch) (b : Bool) (p : PadState S × S) (u : C)
      → IsSwitch sw
      → IsReady locks os server c ch p
      → line p.1 ≡ (encode_request (request_of sw b), [])
      → ((ack : List ℕ)
          → (line (receive_loop locks os server 1 c p).1.1).1 ≡ ack ∷ []
          → (client.recv link.sock
              (ack_size (request_of sw b))
              (client.send link.sock (encode_request (request_of sw b)) u).1).0
            ≡ some ack)
      → let t = receive_loop locks os server 1 c p in
        let r = switch_callback client sw link b u in
        (r.0.0 ≡ pos (verdict client (request_of sw b) (view p.0)))
        × (view t.1.0 ≡ (react (request_of sw b) (view p.0)).0)
        × (sent r.1 ≡ sent u ++ encode_request (request_of sw b) ∷ [])
  switch-exchange sw b p u ok ready arrived delivered =
      let q : Request = request_of sw b in
      let (next, state, answered) =
        receive_loop-serves locks os server c ch (q ∷ []) [] [] p (request-IsEncodable sw b ok, tt)
          ready
          (arrived
            ∙ ap (λ bs. (bs, []))
                (sym (append-nil (encode_request q ++ []) ∙ append-nil (encode_request q)))) in
      let reply =
        delivered (react q (view p.0)).1 (ap (λ (l : List ℕ × List (List ℕ)). l.1) answered) in
      let (err, kept, out) = switch_callback-verdict client link peer sw b (view p.0) u ok reply in
      (err, state, out)
