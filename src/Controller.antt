-- ===== src/Controller.antt =====
-- pad_server/src/controller.h and controller.c: the thread that serves the control client. Its socket
-- operations run on the world of the operating system, its message handlers on the pad state and that
-- world. The endless loops are cut into rounds: `serve_message` is one round of the receive loop and
-- `serve_connection` one of the accept loop. Log lines and the exits of the thread are left out.
pub mod Messages
pub mod Channel
pub mod Machine
pub mod Session
pub mod Rounds
pub mod Descriptors
pub mod Serving
pub mod Closing
pub mod Fragments
pub mod Histories
use hysim.Base.{
  ℕ, Option, List, ℤ, pos, negsuc, Run, ◌>>=◌, ◌>>◌, return, ◌==◌, if◌then◌else◌, is_negative,
  is_zero, pos_part,
}
use hysim.Os.{
  Sockets, SockOpt, so_reuseaddr, so_keepalive, tcp_keepidle, tcp_keepintvl, tcp_keepcnt,
}

-- controller_t
pub record Controller : Type 0 where
  pub sock : ℤ
  pub client : ℤ
  pub addr : ℕ

abbrev pub keepalive_n_probes : ℕ
keepalive_n_probes = 2

abbrev pub keepalive_interval_secs : ℕ
keepalive_interval_secs = 10

abbrev pub abort_timeout : ℕ
abort_timeout = 20

abbrev pub max_controllers : ℕ
max_controllers = 1

module _ {W : Type 0} (net : Sockets W) where
  open net use {
    is_apple, sock_errno, eaddrinuse, etimedout, socket_stream, setsockopt, bind, listen,
    select_readable, accept, close_sock,
  }

  abbrev failed : Run W ℕ
  failed w = (sock_errno w, w)

  -- The idle time is not set on an Apple platform.
  unfoldable pub setsock_keepalive : ℤ → Run W ℕ
  setsock_keepalive sockfd = do
    err ← setsockopt sockfd (so_keepalive 1)
    if is_negative err then failed else do
      err1 ←
          if is_apple then return err else setsockopt sockfd (tcp_keepidle keepalive_interval_secs)
      if is_negative err1 then failed else do
        err2 ← setsockopt sockfd (tcp_keepintvl keepalive_interval_secs)
        if is_negative err2 then failed else do
          err3 ← setsockopt sockfd (tcp_keepcnt keepalive_n_probes)
          if is_negative err3 then failed else return (pos_part err3)

  -- The error code, and the controller as it is left.
  unfoldable pub controller_init : Controller → ℕ → Run W (ℕ × Controller)
  controller_init c port = do
    sock ← socket_stream
    let c1 = record c { sock = sock }
    if is_negative sock then (λ w. ((sock_errno w, c1), w)) else do
      err ← setsockopt sock (so_reuseaddr 1)
      if is_negative err then (λ w. ((sock_errno w, c1), w)) else do
        bound ← bind sock port
        let c2 = record c1 { addr = port; client = negsuc 0 }
        if is_negative bound then (λ w. ((sock_errno w, c2), w)) else return (0, c2)

  -- `listen` says with EADDRINUSE that there was a connection before; then the wait is limited. The
  -- socket's last error is read where `listen` failed.
  unfoldable pub accept_client : Controller → Run W (ℕ × Controller)
  accept_client c = do
    client ← accept c.sock
    let c1 = record c { client = client }
    if is_negative client
        then (λ w. ((sock_errno w, c1), w))
        else do err ← setsock_keepalive client; return (err, c1)

  unfoldable pub controller_accept : Controller → Run W (ℕ × Controller)
  controller_accept c = do
    listening ← listen c.sock max_controllers
    errno ← (λ w. (sock_errno w, w))
    if is_negative listening
        then (if errno == eaddrinuse
            then (do
              err ← select_readable c.sock abort_timeout
              if is_negative err
                  then (λ w. ((sock_errno w, c), w))
                  else (if is_zero err then return (etimedout, c) else accept_client c))
            else return (errno, c))
        else accept_client c

  unfoldable pub controller_sock_disconnect : Controller → Run W (ℕ × Controller)
  controller_sock_disconnect c = if is_negative c.sock then return (0, c) else do
    closed ← close_sock c.sock
    if is_negative closed
        then (λ w. ((sock_errno w, c), w))
        else return (0, record c { sock = negsuc 0 })

  unfoldable pub controller_client_disconnect : Controller → Run W (ℕ × Controller)
  controller_client_disconnect c = if is_negative c.client then return (0, c) else do
    closed ← close_sock c.client
    if is_negative closed
        then (λ w. ((sock_errno w, c), w))
        else return (0, record c { client = negsuc 0 })

  unfoldable pub controller_cleanup : Controller → Run W Controller
  controller_cleanup c = do
    (_, c1) ← controller_client_disconnect c
    (_, c2) ← controller_sock_disconnect c1
    return c2

  unfoldable pub controller_recv : Controller → ℕ → Run W (Option (List ℕ))
  controller_recv c n = net.recv c.client n

  unfoldable pub controller_send : Controller → List ℕ → Run W ℤ
  controller_send c buf = net.send c.client buf
