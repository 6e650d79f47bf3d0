-- ===== src/Controller/Closing.antt =====
-- The sockets of the controller thread (pad_server/src/controller.c) while it serves, and when it ends.
use hysim.Base.{
  ℕ, zero, suc, ◌≡◌, refl, ◌∙◌, inl, inr, true, List, [], ◌++◌, ℤ, negsuc, Option, some, none, Run,
  is_negative, if-elim, ◌==◌, Option-cases,
}
use hysim.Packet.{conn_connected, conn_reconnecting}
use hysim.Os.{Locks, Devices, Sockets}
use hysim.PadState.{PadState, padstate_set_connstatus}
use hysim.PadState.Quiet.{AllQuiet, step-AllQuiet, set_connstatus-quiet}
use hysim.Controller.{
  Controller, controller_init, controller_accept, controller_client_disconnect, controller_cleanup,
}
use hysim.Controller.Messages.{
  Next, header_of, again, reconnect, read_header, serve_message, receive_loop, serve_connection,
  serve_connections, controller_run,
}
use hysim.PadState.History.{connect, step}
use hysim.Controller.Histories.{accept_again}
use hysim.Controller.Rounds.{go_on, serve_message-Acts}
use hysim.Controller.Descriptors.{
  held, Descriptors, Holds, client_disconnect-Holds, cleanup-Holds, init-Holds, accept-Holds,
}
use hysim.Controller.Serving.{read_header-opens, handle_message-opens, Acts-AllQuiet}

module _ {W : Type 0} (locks : Locks W) (os : Devices W) (net : Sockets W)
    (descriptors : Descriptors locks os net) where
  open descriptors use {opens, recv_opens, send_opens, untouched, set_errno_opens}

  module _ (before : List ℤ) where
    abbrev Over : Next → Controller → Type 0
    Over again c = Unit {0}
    Over reconnect c = is_negative c.client ≡ true

    -- What is kept from round to round; a connection that is over has no client left.
    abbrev Fine : (Next × Controller) × (PadState W × W) → Type 0
    Fine t =
        Holds locks os net descriptors before t.0.1 t.1.1
        × AllQuiet opens t.1.0.actuators
        × Over t.0.0 t.0.1

    serve_message-Fine :
        (c : Controller) (p : PadState W × W)
        → Holds locks os net descriptors before c p.1
        → AllQuiet opens p.0.actuators
        → Fine (serve_message locks os net c p)
    unfolding serve_message
    serve_message-Fine c p h quiet =
        let w1 : W = (read_header net c 2 [] p.1).1 in
        let still = read_header-opens locks os net descriptors c 2 [] p.1 in
        let quiet' =
          Acts-AllQuiet locks os net descriptors p (serve_message locks os net c p).1
            (serve_message-Acts locks os net c p) quiet in
        elim (Option-cases (read_header net c 2 [] p.1).0) [
          | inl e ↦
              (let ((_, c'), w2) = controller_client_disconnect net c w1 in
                let (h', free, _) =
                  client_disconnect-Holds locks os net descriptors before c w1 (still ∙ h) in
                let set =
                  set_connstatus-quiet locks os opens untouched set_errno_opens conn_reconnecting
                    (p.0, w2) in
                (rw (e, serve_message) (set ∙ h'), quiet', rw (e, serve_message) free))
          | inr (bs, e) ↦
              (let handled =
                  handle_message-opens locks os net descriptors c (header_of bs) (p.0, w1) quiet in
                (rw (e, serve_message) (handled ∙ still ∙ h), quiet', rw (e, serve_message) tt))
        ]

    receive_loop-Fine :
        (n : ℕ) (c : Controller) (p : PadState W × W)
        → Holds locks os net descriptors before c p.1
        → AllQuiet opens p.0.actuators
        → Fine (receive_loop locks os net n c p)
    unfolding receive_loop
    receive_loop-Fine zero c p h quiet = (h, quiet, tt)
    receive_loop-Fine (suc n) c p h quiet =
        let ((next, c'), q) = serve_message locks os net c p in
        let (h', quiet', over) = serve_message-Fine c p h quiet in
        elim next as (λ (x : Next). Over x c' → Fine (go_on locks os net n ((x, c'), q))) [
          | again ↦ λ _. receive_loop-Fine n c' q h' quiet'
          | reconnect ↦ λ o. (h', quiet', o)
        ]
          over

    serve_connection-Fine :
        (rounds : ℕ) (c : Controller) (p : PadState W × W)
        → Holds locks os net descriptors before c p.1
        → AllQuiet opens p.0.actuators
        → is_negative c.client ≡ true
        → Fine (serve_connection locks os net rounds c p)
    unfolding serve_connection step
    serve_connection-Fine rounds c p h quiet free =
        let ((err, c1), w1) = controller_accept net c p.1 in
        let accepted = accept-Holds locks os net descriptors before c p.1 h free in
        if-elim {A = Run (PadState W × W) (Next × Controller)} (err == 0) (λ m. Fine (m (p.0, w1)))
          (λ e.
            let q : PadState W × W = (padstate_set_connstatus locks conn_connected (p.0, w1)).1 in
            let set =
              set_connstatus-quiet locks os opens untouched set_errno_opens conn_connected
                (p.0, w1) in
            receive_loop-Fine rounds c1 q (set ∙ accepted)
              (step-AllQuiet locks os opens (connect true) (p.0, w1) quiet))
          (λ e.
            let (h', gone, _) =
              client_disconnect-Holds locks os net descriptors before c1 w1 accepted in
            (h', quiet, gone))

    serve_connections-Fine :
        (n rounds : ℕ) (c : Controller) (p : PadState W × W)
        → Holds locks os net descriptors before c p.1
        → AllQuiet opens p.0.actuators
        → is_negative c.client ≡ true
        → let (c', q) = serve_connections locks os net n rounds c p in
          Holds locks os net descriptors before c' q.1
    unfolding serve_connections
    serve_connections-Fine zero rounds c p h quiet free = h
    serve_connections-Fine (suc n) rounds c p h quiet free =
        let ((next, c'), q) = serve_connection locks os net rounds c p in
        let (h', quiet', over) = serve_connection-Fine rounds c p h quiet free in
        elim next
            as (λ (x : Next).
              Over x c'
              → let t = accept_again locks os net n rounds ((x, c'), q) in
                Holds locks os net descriptors before t.0 t.1.1) [
                  | again ↦ λ _. h'
                  | reconnect ↦ λ gone. serve_connections-Fine n rounds c' q h' quiet' gone
                ]
          over

  -- Nothing is claimed where the process exits.
  abbrev pub Closes : List ℤ → Option Controller × (PadState W × W) → Type 0
  Closes before (none, q) = Unit {0}
  Closes before (some c, q) =
      (opens q.1 ≡ held c ++ before) × (opens (controller_cleanup net c q.1).1 ≡ before)

  -- With drivers that do not touch the sockets, whatever the client sends, and whatever fails but `close`: after any
  -- number of rounds the open sockets are the two at most that the controller's record holds, and when the
  -- thread is cancelled there its cleanup handler closes them.
  pub controller_run-Closes :
      (port n rounds : ℕ) (p : PadState W × W)
      → AllQuiet opens p.0.actuators
      → Closes (opens p.1) (controller_run locks os net port n rounds p)
  unfolding controller_run
  controller_run-Closes port n rounds p quiet =
      let ((err, c), w1) =
        controller_init net (record { sock = negsuc 0; client = negsuc 0; addr = 0 }) port p.1 in
      let (h, free) =
        init-Holds locks os net descriptors (opens p.1) port
          (record { sock = negsuc 0; client = negsuc 0; addr = 0 }) p.1 refl in
      if-elim {A = Run (PadState W × W) (Option Controller)} (err == 0)
        (λ m. Closes (opens p.1) (m (p.0, w1)))
        (λ e.
          let (c', q) = serve_connections locks os net n rounds c (p.0, w1) in
          let h' = serve_connections-Fine (opens p.1) n rounds c (p.0, w1) h quiet free in
          (h', cleanup-Holds locks os net descriptors (opens p.1) c' q.1 h'))
        (λ e. tt)
