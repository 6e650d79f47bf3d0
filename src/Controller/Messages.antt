-- ===== src/Controller/Messages.antt =====
-- The receive loop of `controller_run` in pad_server/src/controller.c: it reads a header, dispatches on
-- it, reads the body of a request, calls the pad state and answers.
use hysim.Base.{
  ℕ, zero, suc, ◌-◌, Option, none, some, List, [], ◌∷◌, ◌++◌, negsuc, Run, ◌>>=◌, ◌>>◌, return,
  ◌==◌, leb, if◌then◌else◌, is_minus_one, pos_part, length, get_or, drop,
}
use hysim.Packet.{
  Header, ActReq, ArmReq, u8, type_cntrl, cntrl_act_req, cntrl_arm_req, arm_ok, arm_denied, arm_inv,
  conn_connected, conn_reconnecting,
}
use hysim.Packet.Wire.{encode_act_ack, encode_arm_ack}
use hysim.Os.{Locks, Devices, Sockets}
use hysim.PadState.{PadState, call, pad_actuate, padstate_change_level, padstate_set_connstatus}
use hysim.Controller.{
  Controller, controller_init, controller_accept, controller_recv, controller_send,
  controller_client_disconnect,
}

-- The structure at the start of a buffer.
abbrev pub header_of : List ℕ → Header
header_of bs = record { type = get_or bs 0 0; subtype = get_or bs 1 0 }

abbrev pub act_req_of : List ℕ → ActReq
act_req_of bs = record { id = get_or bs 0 0; state = get_or bs 1 0 }

abbrev pub arm_req_of : List ℕ → ArmReq
arm_req_of bs = record { level = get_or bs 0 0 }

module _ {W : Type 0} (net : Sockets W) where
  -- The loop `while (total_read < sizeof(hdr))`, on fuel, with the bytes read so far: none where a
  -- call of `recv` returned 0 or -1. Each other call adds a byte, so fuel for two rounds is enough.
  unfoldable pub read_header : Controller → ℕ → List ℕ → Run W (Option (List ℕ))
  read_header c zero got w = (some got, w)
  read_header c (suc fuel) got w =
      if leb 2 (length got)
      then (some got, w)
      else (let (bread, w1) = controller_recv net c (2 - length got) w in
          elim bread [
            | none ↦ (none, w1)
            | some [] ↦ (none, w1)
            | some (b ∷ bs) ↦ read_header c fuel (got ++ b ∷ bs) w1
          ])

  -- `recv` into an uninitialized buffer of n bytes, its result ignored: bytes that do not arrive are
  -- those of the stack.
  abbrev pub filled : ℕ → List ℕ → Option (List ℕ) → List ℕ
  filled n junk none = junk
  filled n junk (some bs) = bs ++ drop (length bs) junk

  unfoldable pub recv_struct : Controller → ℕ → Run W (List ℕ)
  recv_struct c n w =
      let (bread, w1) = controller_recv net c n w in (filled n (net.stack n w) bread, w1)

-- What a round of a loop says to do next.
pub data Next : Type 0 where
  again : Next
  reconnect : Next

module _ {W : Type 0} (locks : Locks W) (os : Devices W) (net : Sockets W) where
  abbrev pub Serve : Type 0 → Type 0
  Serve A = Run (PadState W × W) A

  -- A request that was read: the pad state is asked, and any answer but the error -1 is acknowledged.
  unfoldable pub answer_act_req : Controller → ActReq → Serve (Unit {0})
  answer_act_req c req = do
    err ← pad_actuate locks os req.id req.state
    if is_minus_one err then return tt else do
      call (
          controller_send net c
            (encode_act_ack (record { id = req.id; status = u8 (pos_part err) })))
      return tt

  unfoldable pub handle_act_req : Controller → Serve (Unit {0})
  handle_act_req c = do buf ← call (recv_struct net c 2); answer_act_req c (act_req_of buf)

  unfoldable pub answer_arm_req : Controller → ArmReq → Serve (Unit {0})
  answer_arm_req c req = do
    err ← padstate_change_level locks req.level
    if err == arm_ok
        then (do
          call (controller_send net c (encode_arm_ack (record { status = arm_ok })))
          return tt)
        else (if err == arm_denied
            then (do
              call (controller_send net c (encode_arm_ack (record { status = arm_denied })))
              return tt)
            else (if err == arm_inv
                then (do
                  call (controller_send net c (encode_arm_ack (record { status = arm_inv })))
                  return tt)
                else return tt))

  unfoldable pub handle_arm_req : Controller → Serve (Unit {0})
  handle_arm_req c = do buf ← call (recv_struct net c 1); answer_arm_req c (arm_req_of buf)

  -- An acknowledgement, telemetry and an unknown type or subtype are only logged.
  unfoldable pub handle_message : Controller → Header → Serve (Unit {0})
  handle_message c hdr =
      if hdr.type == type_cntrl
      then (if hdr.subtype == cntrl_act_req
          then handle_act_req c
          else (if hdr.subtype == cntrl_arm_req then handle_arm_req c else return tt))
      else return tt

  -- A round of the receive loop.
  unfoldable pub serve_message : Controller → Serve (Next × Controller)
  serve_message c p =
      let (hdr, p1) = call (read_header net c 2 []) p in
      elim hdr [
        | none ↦
            (do
              (_, c') ← call (controller_client_disconnect net c)
              padstate_set_connstatus locks conn_reconnecting
              return (reconnect, c'))
              p1
        | some bs ↦ (do handle_message c (header_of bs); return (again, c)) p1
      ]

  -- The receive loop for the given number of rounds, or to its end.
  unfoldable pub receive_loop : ℕ → Controller → Serve (Next × Controller)
  receive_loop zero c p = ((again, c), p)
  receive_loop (suc rounds) c p =
      let ((next, c'), p') = serve_message c p in
      elim next [ again ↦ receive_loop rounds c' p' | reconnect ↦ ((reconnect, c'), p') ]

  -- A round of the accept loop, with at most so many rounds of the receive loop: `again` says that it is not
  -- over by then.
  unfoldable pub serve_connection : ℕ → Controller → Serve (Next × Controller)
  serve_connection rounds c = do
    (err, c1) ← call (controller_accept net c)
    if err == 0
        then (do padstate_set_connstatus locks conn_connected; receive_loop rounds c1)
        else (do (_, c2) ← call (controller_client_disconnect net c1); return (reconnect, c2))

  -- Where the thread is after so many rounds of the accept loop, or in the first that is not over.
  unfoldable pub serve_connections : ℕ → ℕ → Controller → Serve Controller
  serve_connections zero rounds c p = (c, p)
  serve_connections (suc n) rounds c p =
      let ((next, c'), p') = serve_connection rounds c p in
      elim next [ again ↦ (c', p') | reconnect ↦ serve_connections n rounds c' p' ]

  -- The thread: none where the controller cannot be initialized and the process exits.
  unfoldable pub controller_run : ℕ → ℕ → ℕ → Serve (Option Controller)
  controller_run port n rounds = do
    (err, c) ←
        call (controller_init net (record { sock = negsuc 0; client = negsuc 0; addr = 0 }) port)
    if err == 0 then (do c' ← serve_connections n rounds c; return (some c')) else return none
