-- ===== src/ControlClient.antt =====
-- control_client/src/pad.h, pad.c: the connection of the control client to the pad server. The desktop
-- build's keep-alive constants are used.
pub mod Loop
pub mod Keys
pub mod Box
pub mod ArmingKey
pub mod Scans
pub mod Pins
pub mod Start
pub mod Exchange
pub mod Lockstep
pub mod Operator
pub mod Disarmed
pub mod Account
pub mod PinRounds
pub mod KeyRounds
pub mod Watch
pub mod Live
pub mod SetUp
pub mod Whole
pub mod Requests
pub mod Served
pub mod Screen
pub mod Closing
pub mod OpenRounds
pub mod Reconnects
pub mod Switches
pub mod Panel
pub mod Replies
pub mod Guard
pub mod Retries
use hysim.Base.{
  ℕ, zero, suc, ◌+◌, ◌-◌, ◌||◌, Bool, true, false, Option, none, some, List, [], ◌∷◌, ◌++◌, ℤ, pos,
  negsuc, Run, ◌>>=◌, ◌>>◌, return, ◌==◌, if◌then◌else◌, is_negative, is_zero, pos_part,
}
use hysim.Packet.{
  ActReq, ActAck, ArmReq, ArmAck, u8, type_cntrl, cntrl_act_req, cntrl_arm_req, act_ok, act_denied,
  act_dne, act_inv, arm_ok, arm_denied, arm_inv,
}
use hysim.Packet.Wire.{encode_header, encode_act_req, encode_arm_req}
use hysim.Os.{Sockets, so_keepalive, so_rcvtimeo, tcp_keepidle, tcp_keepintvl, tcp_keepcnt}
use hysim.Controller.Messages.{filled}

-- pad_t, with the address and the port of `addr`.
pub record PadLink : Type 0 where
  pub sock : ℤ
  pub sin_addr : ℕ
  pub sin_port : ℕ

abbrev pub rcvtimeo_sec : ℕ
rcvtimeo_sec = 3

abbrev pub interval_secs : ℕ
interval_secs = 10

abbrev pub n_probes : ℕ
n_probes = 2

module _ {W : Type 0} (net : Sockets W) where
  abbrev failed : Run W ℕ
  failed w = (net.sock_errno w, w)

  unfoldable pub client_setsock_keepalive : ℤ → Run W ℕ
  client_setsock_keepalive sockfd = do
    err ← net.setsockopt sockfd (so_keepalive 1)
    if is_negative err then failed else do
      err1 ← if net.is_apple then return err else net.setsockopt sockfd (tcp_keepidle interval_secs)
      if is_negative err1 then failed else do
        err2 ← net.setsockopt sockfd (tcp_keepintvl interval_secs)
        if is_negative err2 then failed else do
          err3 ← net.setsockopt sockfd (tcp_keepcnt n_probes)
          if is_negative err3 then failed else return (pos_part err3)

  -- The address of a link, from text.
  unfoldable pub pad_address : PadLink → List ℕ → ℕ → Run W (ℕ × PadLink)
  pad_address pad1 ip port = do
    let pad2 = record pad1 { sin_port = port }
    (ret, addr) ← net.inet_pton ip
    if is_zero ret
        then return (net.einval, pad2)
        else (if is_negative ret
            then (λ w. ((net.sock_errno w, pad2), w))
            else return (0, record pad2 { sin_addr = addr }))

  unfoldable pub pad_init : PadLink → List ℕ → ℕ → Run W (ℕ × PadLink)
  pad_init pad ip port = do
    sock ← net.socket_stream
    let pad1 = record pad { sock = sock }
    if is_negative sock then (λ w. ((net.sock_errno w, pad1), w)) else do
      err ←
          if net.clock_timekeeping
          then net.setsockopt sock (so_rcvtimeo rcvtimeo_sec)
          else return (pos 0)
      if is_negative err then (λ w. ((net.sock_errno w, pad1), w)) else pad_address pad1 ip port

  unfoldable pub pad_connect : PadLink → Run W ℕ
  pad_connect pad = do
    err ← net.connect pad.sock pad.sin_addr pad.sin_port
    if is_negative err then failed else client_setsock_keepalive pad.sock

  -- The errors after which the connection is tried again.
  unfoldable pub tries_again : ℕ → Bool
  tries_again status =
      (status == net.econnrefused)
      || ((status == net.etimedout) || ((status == net.enotconn) || (status == net.enetunreach)))

  -- One round of the loop of `pad_connect_forever`.
  unfoldable pub connect_round : PadLink → Run W ℕ
  connect_round pad = do
    status ← pad_connect pad
    if status == 0 then return status else do net.sleep 1; return status

  -- The loop, on fuel for its rounds: `none` where all of them failed with an error to try again on.
  unfoldable pub pad_connect_forever : PadLink → ℕ → Run W (Option ℕ)
  pad_connect_forever pad zero w = (none, w)
  pad_connect_forever pad (suc fuel) w =
      let (status, w1) = connect_round pad w in
      let rest = pad_connect_forever pad fuel w1 in
      if tries_again status then rest else (some status, w1)

  -- -1 on failure.
  unfoldable pub pad_send : PadLink → List ℕ → Run W ℤ
  pad_send pad bs = net.send pad.sock bs

  unfoldable pub pad_disconnect : PadLink → Run W (ℕ × PadLink)
  pad_disconnect pad = if is_negative pad.sock then return (0, pad) else do
    closed ← net.close_sock pad.sock
    if is_negative closed
        then (λ w. ((net.sock_errno w, pad), w))
        else return (0, record pad { sock = negsuc 0 })

  unfoldable pub pad_recv : PadLink → ℕ → Run W (Option (List ℕ))
  pad_recv pad n = net.recv pad.sock n
