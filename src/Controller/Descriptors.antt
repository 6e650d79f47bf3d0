-- ===== src/Controller/Descriptors.antt =====
-- Which sockets the controller thread (pad_server/src/controller.c) holds open, on every path through its
-- calls, the failed ones included.
use hysim.Base.{
  ℕ, ◌≡◌, true, false, List, [], ◌∷◌, ◌++◌, ℤ, negsuc, arith, is_negative, if◌then◌else◌,
}
use hysim.Os.{
  Locks, Devices, Sockets, SockOpt, so_reuseaddr, so_keepalive, tcp_keepidle, tcp_keepintvl,
  tcp_keepcnt,
}
use hysim.PadState.Untouched.{Untouched}
use hysim.Controller.{
  Controller, setsock_keepalive, controller_init, accept_client, controller_accept,
  controller_client_disconnect, controller_sock_disconnect, controller_cleanup,
}

abbrev pub one : ℤ → List ℤ
one fd = if is_negative fd then [] else fd ∷ []

-- The sockets that the controller's record holds.
abbrev pub held : Controller → List ℤ
held c = one c.client ++ one c.sock

-- The open sockets, the last opened in front. `socket` and `accept` open one unless they fail, `close` of the
-- last opened works, and nothing else opens or closes one.
pub record Descriptors {W : Type 0} (locks : Locks W) (os : Devices W) (net : Sockets W)
    : Type 0 where
  pub opens : W → List ℤ
  pub socket_opens : (w : W) → let (fd, w1) = net.socket_stream w in opens w1 ≡ one fd ++ opens w
  pub accept_opens :
      (sock : ℤ) (w : W) → let (fd, w1) = net.accept sock w in opens w1 ≡ one fd ++ opens w
  pub close_opens :
      (fd : ℤ) (rest : List ℤ) (w : W)
      → opens w ≡ fd ∷ rest
      → let (err, w1) = net.close_sock fd w in (is_negative err ≡ false) × (opens w1 ≡ rest)
  pub setsockopt_opens : (fd : ℤ) (o : SockOpt) (w : W) → opens (net.setsockopt fd o w).1 ≡ opens w
  pub bind_opens : (fd : ℤ) (port : ℕ) (w : W) → opens (net.bind fd port w).1 ≡ opens w
  pub listen_opens : (fd : ℤ) (n : ℕ) (w : W) → opens (net.listen fd n w).1 ≡ opens w
  pub select_opens : (fd : ℤ) (n : ℕ) (w : W) → opens (net.select_readable fd n w).1 ≡ opens w
  pub recv_opens : (fd : ℤ) (n : ℕ) (w : W) → opens (net.recv fd n w).1 ≡ opens w
  pub send_opens : (fd : ℤ) (bs : List ℕ) (w : W) → opens (net.send fd bs w).1 ≡ opens w
  pub untouched : Untouched locks opens
  pub set_errno_opens : (e : ℤ) (w : W) → opens (os.set_errno e w) ≡ opens w

module _ {W : Type 0} (locks : Locks W) (os : Devices W) (net : Sockets W)
    (descriptors : Descriptors locks os net) (before : List ℤ) where
  open descriptors use {
    opens, socket_opens, accept_opens, close_opens, setsockopt_opens, bind_opens, listen_opens,
    select_opens, recv_opens, send_opens, untouched, set_errno_opens,
  }

  -- The open sockets are those of the record, and those that were open before.
  abbrev pub Holds : Controller → W → Type 0
  Holds c w = opens w ≡ held c ++ before

  pub client_disconnect-Holds :
      (c : Controller) (w : W)
      → Holds c w
      → let ((_, c'), w') = controller_client_disconnect net c w in
        Holds c' w' × (is_negative c'.client ≡ true) × (c'.sock ≡ c.sock)
  unfolding controller_client_disconnect
  client_disconnect-Holds c w h = ground (arith, close_opens c.client (one c.sock ++ before) w)

  pub cleanup-Holds :
      (c : Controller) (w : W) → Holds c w → opens (controller_cleanup net c w).1 ≡ before
  unfolding controller_cleanup controller_sock_disconnect
  cleanup-Holds c w h =
      let ((_, c'), w') = controller_client_disconnect net c w in
      let (h', none_left, _) = client_disconnect-Holds c w h in
      ground (arith, h', none_left, close_opens c'.sock before w')

  pub init-Holds :
      (port : ℕ) (c : Controller) (w : W)
      → opens w ≡ before
      → let ((_, c'), w') =
          controller_init net (record c { sock = negsuc 0; client = negsuc 0 }) port w in
        Holds c' w' × (is_negative c'.client ≡ true)
  unfolding controller_init
  init-Holds port c w h =
      let (sock, w1) = net.socket_stream w in
      let w2 : W = (net.setsockopt sock (so_reuseaddr 1) w1).1 in
      ground
        (arith, socket_opens w, setsockopt_opens sock (so_reuseaddr 1) w1, bind_opens sock port w2)

  keepalive-opens : (fd : ℤ) (w : W) → opens (setsock_keepalive net fd w).1 ≡ opens w
  unfolding setsock_keepalive
  keepalive-opens fd w =
      let w1 : W = (net.setsockopt fd (so_keepalive 1) w).1 in
      let w2 : W = (net.setsockopt fd (tcp_keepidle 10) w1).1 in
      let intvl : (v : W) → W = λ v. (net.setsockopt fd (tcp_keepintvl 10) v).1 in
      ground (
        arith,
        setsockopt_opens fd (so_keepalive 1) w,
        setsockopt_opens fd (tcp_keepidle 10) w1,
        setsockopt_opens fd (tcp_keepintvl 10) w1,
        setsockopt_opens fd (tcp_keepintvl 10) w2,
        setsockopt_opens fd (tcp_keepcnt 2) (intvl w1),
        setsockopt_opens fd (tcp_keepcnt 2) (intvl w2),
      )

  accept_client-Holds :
      (c : Controller) (w : W)
      → Holds c w
      → is_negative c.client ≡ true
      → let ((_, c'), w') = accept_client net c w in Holds c' w'
  unfolding accept_client
  accept_client-Holds c w h free =
      let (fd, w1) = net.accept c.sock w in
      ground (arith, accept_opens c.sock w, keepalive-opens fd w1)

  pub accept-Holds :
      (c : Controller) (w : W)
      → Holds c w
      → is_negative c.client ≡ true
      → let ((_, c'), w') = controller_accept net c w in Holds c' w'
  unfolding controller_accept
  accept-Holds c w h free =
      let w1 : W = (net.listen c.sock 1 w).1 in
      let w2 : W = (net.select_readable c.sock 20 w1).1 in
      ground (
        arith,
        listen_opens c.sock 1 w,
        select_opens c.sock 20 w1,
        accept_client-Holds c w1,
        accept_client-Holds c w2,
      )
