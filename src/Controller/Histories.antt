-- ===== src/Controller/Histories.antt =====
-- The thread of pad_server/src/controller.c as a history of commands to the pad state, whatever the
-- sockets, the locks and the drivers answer.
use hysim.Base.{
  ℕ, suc, zero, [], ◌∷◌, ◌++◌, ◌+◌, ◌*◌, ◌≤◌, ◌≡◌, refl, sym, subst, ap, ◌∙◌, List, Run, Option,
  negsuc, arith, ◌==◌, if-elim, true,
}
use native.Mathlib.Numerals.{unary_clauses}
use hysim.Os.{Locks, Devices, Sockets}
use hysim.PadState.{PadState, padstate_set_connstatus}
use hysim.Packet.{conn_connected}
use hysim.PadState.Invariant.{IsValid}
use hysim.PadState.History.{
  Command, change_level, actuate, connect, outside, step, run, run-IsValid,
}
use hysim.Controller.{Controller, controller_accept, controller_client_disconnect, controller_init}
use hysim.Controller.Messages.{
  Next, again, reconnect, serve_message, receive_loop, serve_connection, serve_connections,
  controller_run,
}
use hysim.Controller.Rounds.{Acts, go_on, serve_message-Acts}

-- How many of the commands are operations of state.c.
abbrev pub count : {W : Type 0} → List (Command W) → ℕ
count [] = 0
count (change_level n ∷ cs) = suc (count cs)
count (actuate id r ∷ cs) = suc (count cs)
count (connect b ∷ cs) = suc (count cs)
count (outside w ∷ cs) = count cs

count_++ : {W : Type 0} (cs ds : List (Command W)) → count (cs ++ ds) ≡ count cs + count ds
count_++ [] ds = omega arith
count_++ (change_level n ∷ cs) ds = ground (arith, count_++ cs ds)
count_++ (actuate id r ∷ cs) ds = ground (arith, count_++ cs ds)
count_++ (connect b ∷ cs) ds = ground (arith, count_++ cs ds)
count_++ (outside w ∷ cs) ds = count_++ cs ds

count_one : {W : Type 0} (c : Command W) (w : W) → count (c ∷ outside w ∷ []) ≤ 1
count_one (change_level n) w = omega arith
count_one (actuate id r) w = omega arith
count_one (connect b) w = omega arith
count_one (outside w') w = omega arith

module _ {W : Type 0} (locks : Locks W) (os : Devices W) where
  run_++ :
      (cs ds : List (Command W)) (p : PadState W × W)
      → run locks os (cs ++ ds) p ≡ run locks os ds (run locks os cs p)
  unfolding run
  run_++ [] ds p = refl
  run_++ (c ∷ cs) ds p = run_++ cs ds (step locks os c p)

  -- `q` is reached from `p` by a history with at most `n` operations.
  pub record Follows (n : ℕ) (p q : PadState W × W) : Type 0 where
    pub history : List (Command W)
    pub leads : run locks os history p ≡ q
    pub few : count history ≤ n

  Follows-trans :
      {m n : ℕ} {p q r : PadState W × W} (k : ℕ)
      → m + n ≤ k
      → Follows m p q
      → Follows n q r
      → Follows k p r
  Follows-trans {p = p} k room f g = record {
    history = f.history ++ g.history;
    leads = run_++ f.history g.history p ∙ ap (run locks os g.history) f.leads ∙ g.leads;
    few = ground (arith, count_++ f.history g.history, f.few, g.few);
  }

  Follows-still : (p : PadState W × W) → Follows 0 p p
  unfolding run
  Follows-still p = record { history = []; leads = refl; few = omega arith }

  Follows-IsValid : {n : ℕ} {p q : PadState W × W} → Follows n p q → IsValid p.0 → IsValid q.0
  Follows-IsValid {p = p} f v =
      subst (λ (q : PadState W × W). IsValid q.0) f.leads (run-IsValid locks os f.history p v)

  Follows-outside : (p : PadState W × W) (w : W) → Follows 0 p (p.0, w)
  unfolding run step
  Follows-outside p w = record { history = outside w ∷ []; leads = refl; few = omega arith }

  Acts-Follows : (p q : PadState W × W) → Acts locks os p q → Follows 1 p q
  unfolding run step
  Acts-Follows p q (c, w, e) = record {
    history = outside w ∷ c ∷ outside q.1 ∷ [];
    leads = ap (λ (s : PadState W). (s, q.1)) (sym e);
    few = count_one c q.1;
  }

  module _ (net : Sockets W) where
    pub receive_loop-Follows :
        (n : ℕ) (c : Controller) (p : PadState W × W)
        → Follows n p (receive_loop locks os net n c p).1
    unfolding receive_loop run
    receive_loop-Follows zero c p = Follows-still p
    receive_loop-Follows (suc n) c p =
        let ((next, c'), q) = serve_message locks os net c p in
        let first = Acts-Follows p q (serve_message-Acts locks os net c p) in
        elim next
            as (λ (x : Next).
              (serve_message locks os net c p).0.0 ≡ x
              → Follows (suc n) p (go_on locks os net n ((x, c'), q)).1) [
                | again ↦
                    λ _. Follows-trans (suc n) (omega arith) first (receive_loop-Follows n c' q)
                | reconnect ↦ λ _. Follows-trans (suc n) (omega arith) first (Follows-still _)
              ]
          refl

    pub receive_loop-IsValid :
        (n : ℕ) (c : Controller) (p : PadState W × W)
        → IsValid p.0
        → IsValid (receive_loop locks os net n c p).1.0
    receive_loop-IsValid n c p v = Follows-IsValid (receive_loop-Follows n c p) v

    serve_connection-Follows :
        (rounds : ℕ) (c : Controller) (p : PadState W × W)
        → Follows (suc rounds) p (serve_connection locks os net rounds c p).1
    unfolding serve_connection step
    serve_connection-Follows rounds c p =
        let ((err, c1), w1) = controller_accept net c p.1 in
        let accepted = Follows-outside p w1 in
        let connected =
          Acts-Follows (p.0, w1) (padstate_set_connstatus locks conn_connected (p.0, w1)).1
            (connect true, w1, refl) in
        if-elim {A = Run (PadState W × W) (Next × Controller)} (err == 0)
          (λ m. Follows (suc rounds) p (m (p.0, w1)).1)
          (λ _. Follows-trans (suc rounds) (omega arith) accepted (
            Follows-trans (suc rounds) (omega arith) connected (
              receive_loop-Follows rounds c1
                (padstate_set_connstatus locks conn_connected (p.0, w1)).1)))
          (λ _.
            Follows-trans (suc rounds) (omega arith) accepted
              (Follows-outside (p.0, w1) (controller_client_disconnect net c1 w1).1))

    abbrev pub accept_again :
        ℕ → ℕ → (Next × Controller) × (PadState W × W) → Controller × (PadState W × W)
    accept_again n rounds t = elim t.0.0 [
      | again ↦ (t.0.1, t.1)
      | reconnect ↦ serve_connections locks os net n rounds t.0.1 t.1
    ]

    serve_connections-Follows :
        (n rounds : ℕ) (c : Controller) (p : PadState W × W)
        → Follows (n * suc rounds) p (serve_connections locks os net n rounds c p).1
    unfolding serve_connections run
    serve_connections-Follows zero rounds c p =
        Follows-trans (0 * suc rounds) (ground arith) (Follows-still p) (Follows-still p)
    serve_connections-Follows (suc n) rounds c p =
        let ((next, c'), q) = serve_connection locks os net rounds c p in
        let first = serve_connection-Follows rounds c p in
        let room : suc rounds + n * suc rounds ≤ suc n * suc rounds =
          simp unary_clauses (omega arith) in
        elim next
          as (λ (x : Next). Follows (suc n * suc rounds) p (accept_again n rounds ((x, c'), q)).1) [
            | again ↦
                Follows-trans (suc n * suc rounds) (omega (arith, room)) first (Follows-still q)
            | reconnect ↦
                Follows-trans (suc n * suc rounds) room first
                  (serve_connections-Follows n rounds c' q)
          ]

    -- Whatever the sockets, the locks and the drivers answer: what the thread leaves of the pad state is left by
    -- a history of commands, with at most one for every connection and one for every message.
    pub controller_run-Follows :
        (port n rounds : ℕ) (p : PadState W × W)
        → Follows (n * suc rounds) p (controller_run locks os net port n rounds p).1
    unfolding controller_run run
    controller_run-Follows port n rounds p =
        let ((err, c), w1) =
          controller_init net (record { sock = negsuc 0; client = negsuc 0; addr = 0 }) port p.1 in
        if-elim {A = Run (PadState W × W) (Option Controller)} (err == 0)
          (λ m. Follows (n * suc rounds) p (m (p.0, w1)).1)
          (λ _.
            Follows-trans (n * suc rounds) (omega arith) (Follows-outside p w1)
              (serve_connections-Follows n rounds c (p.0, w1)))
          (λ _.
            Follows-trans (n * suc rounds) (omega arith) (Follows-outside p w1) (Follows-still _))

    -- In any number of rounds the thread keeps a valid pad state valid, whatever the client sends and whatever
    -- fails.
    pub controller_run-IsValid :
        (port n rounds : ℕ) (p : PadState W × W)
        → IsValid p.0
        → IsValid (controller_run locks os net port n rounds p).1.0
    controller_run-IsValid port n rounds p v =
        Follows-IsValid (controller_run-Follows port n rounds p) v
