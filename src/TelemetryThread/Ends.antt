-- ===== src/TelemetryThread/Ends.antt =====
-- How `telemetry_run` (pad_server/src/telemetry.c) gives back what it has taken.
use mathlib.Core.List.{append_assoc, append-nil}
use hysim.Base.{
  ℕ, ◌≡◌, refl, ◌∙◌, sym, ap, subst, ◌⊎◌, inl, inr, Bool, true, false, Option, none, some, List, [],
  ◌∷◌, ◌++◌, arith, ℤ, is_negative, if◌then◌else◌, if-elim, ◌==◌, Run, return,
}
use hysim.Os.{Datagrams, Files, Sockets, Threads}
use hysim.Telemetry.{TelemetrySock, telemetry_close}
use hysim.MockTelemetry.{MockNext, again, thread_exit, crash, mock_telemetry}
use hysim.TelemetryThread.{
  TelemetryArgs, PadThread, telemetry_update_padstate, telemetry_cleanup,
  telemetry_cancel_padstate_thread, ThreadEnd, running, exited, process_exit, process_abort,
  process_crash, mock, telemetry_init, run_handler, run_handlers, thread_return, thread_cancelled,
  after_mock, after_init, telemetry_body, prioritized, with_padstate_thread, telemetry_thread,
}
use hysim.TelemetryThread.Ledger.{
  Event, opened, closed, created, cancelled, joined, Ledger, mock_telemetry-events,
}

-- What the thread has taken and given back when it is over.
pub data Released : List Event → Type 0 where
  no_socket : Released []
  no_thread : (fd : ℤ) → Released (opened fd ∷ closed fd ∷ [])
  with_thread :
      (fd : ℤ) (k : ℕ) → Released (opened fd ∷ created k ∷ cancelled k ∷ joined k ∷ closed fd ∷ [])

-- The thread has ended, or is in its loop, where it can be cancelled; the process goes on.
abbrev pub GoesOn : ThreadEnd → Type 0
GoesOn (running handlers) = Unit {0}
GoesOn (exited e) = Unit {0}
GoesOn process_exit = ⊥
GoesOn process_abort = ⊥
GoesOn process_crash = ⊥

module _ {W : Type 0} (net : Sockets W) (dgrams : Datagrams W) (threads : Threads PadThread W)
    (files : Files W) (ledger : Ledger net dgrams threads files) where
  open ledger use {
    events, socket_events, errno_set, close_events, create_events, cancel_events, join_events,
    setschedprio_events, clock_events, sendmsg_events, fopen_events, ferror_events, feof_events,
    rewind_events, fgets_events, rand_events, usleep_events,
  }

  close-events :
      (telem : TelemetrySock) (w : W)
      → events (run_handlers dgrams threads (telemetry_cleanup telem ∷ []) w).1
        ≡ events w ++ closed telem.sock ∷ []
  unfolding run_handlers run_handler telemetry_close
  close-events telem w = ground (arith, close_events telem.sock w)

  handlers-events :
      (telem : TelemetrySock) (k : ℕ) (w : W)
      → events
          (run_handlers dgrams threads
            (telemetry_cancel_padstate_thread k ∷ telemetry_cleanup telem ∷ [])
            w).1
        ≡ events w ++ cancelled k ∷ joined k ∷ closed telem.sock ∷ []
  unfolding run_handlers run_handler
  handlers-events telem k w =
      let w1 : W = (threads.pthread_cancel k w).1 in
      let w2 : W = (threads.pthread_join k w1).1 in
      close-events telem w2
      ∙ ap (λ es. es ++ closed telem.sock ∷ [])
          (join_events k w1 ∙ ap (λ es. es ++ joined k ∷ []) (cancel_events k w))
      ∙ ap (λ es. es ++ closed telem.sock ∷ [])
          (append_assoc (events w) (cancelled k ∷ []) (joined k ∷ []))
      ∙ append_assoc (events w) (cancelled k ∷ joined k ∷ []) (closed telem.sock ∷ [])

  after_mock-events :
      (telem : TelemetrySock) (k : ℕ) (next : MockNext) (w : W)
      → let r =
          after_mock dgrams threads
            (telemetry_cancel_padstate_thread k ∷ telemetry_cleanup telem ∷ [])
            next
            w in
        GoesOn r.0
        → events (thread_cancelled dgrams threads r.0 r.1).1
          ≡ events w ++ cancelled k ∷ joined k ∷ closed telem.sock ∷ []
  unfolding after_mock thread_return thread_cancelled
  after_mock-events telem k again w on = handlers-events telem k w
  after_mock-events telem k (thread_exit e) w on = handlers-events telem k w
  after_mock-events telem k crash w on = absurd on

  body-events :
      (F : Type 0) (desktop : Bool) (n : ℕ) (args : TelemetryArgs) (telem : TelemetrySock) (k : ℕ)
      (w : W)
      → let handlers = telemetry_cancel_padstate_thread k ∷ telemetry_cleanup telem ∷ [] in
        let r =
          telemetry_body {F = F} dgrams threads files desktop mock n args telem k handlers w in
        GoesOn r.0
        → events (thread_cancelled dgrams threads r.0 r.1).1
          ≡ events w ++ cancelled k ∷ joined k ∷ closed telem.sock ∷ []
  unfolding telemetry_body
  body-events F desktop n args telem k w on =
      let (next, w1) = mock_telemetry dgrams files n args.data_file telem w in
      after_mock-events telem k next w1 on
      ∙ ap (λ es. es ++ cancelled k ∷ joined k ∷ closed telem.sock ∷ [])
          (mock_telemetry-events net dgrams threads files ledger n args.data_file telem w)

  -- With the priority set or left alone.
  prioritized-events :
      (F : Type 0) (desktop : Bool) (n : ℕ) (args : TelemetryArgs) (telem : TelemetrySock) (k : ℕ)
      (w : W)
      → let r = prioritized {F = F} dgrams threads files desktop mock n args telem k w in
        GoesOn r.0
        → events (thread_cancelled dgrams threads r.0 r.1).1
          ≡ events w ++ cancelled k ∷ joined k ∷ closed telem.sock ∷ []
  unfolding prioritized
  prioritized-events F true n args telem k w = body-events F true n args telem k w
  prioritized-events F false n args telem k w =
      let (err1, w1) = threads.pthread_setschedprio k 200 w in
      if-elim {A = Run W ThreadEnd} (err1 == 0)
        (λ m.
          GoesOn (m w1).0
          → events (thread_cancelled dgrams threads (m w1).0 (m w1).1).1
            ≡ events w ++ cancelled k ∷ joined k ∷ closed telem.sock ∷ [])
        (λ e on.
          body-events F false n args telem k w1 on
          ∙ ap (λ es. es ++ cancelled k ∷ joined k ∷ closed telem.sock ∷ [])
              (setschedprio_events k 200 w))
        (λ e on. absurd on)

  -- What is left to give back once the socket is there.
  abbrev Closes : ℤ → List Event → Type 0
  Closes fd es =
      (es ≡ closed fd ∷ []) ⊎ ((k : ℕ) × (es ≡ created k ∷ cancelled k ∷ joined k ∷ closed fd ∷ []))

  abbrev ClosesAfter : W → TelemetrySock → Run W ThreadEnd → W → Type 0
  ClosesAfter w telem m v =
      GoesOn (m v).0
      → (es : List Event) × Closes telem.sock es
        × (events (thread_cancelled dgrams threads (m v).0 (m v).1).1 ≡ events w ++ es)

  with_padstate_thread-events :
      (F : Type 0) (desktop : Bool) (n : ℕ) (args : TelemetryArgs) (telem : TelemetrySock) (w : W)
      → ClosesAfter w telem
          (with_padstate_thread {F = F} dgrams threads files desktop mock n args telem)
          w
  unfolding with_padstate_thread thread_return thread_cancelled
  with_padstate_thread-events F desktop n args telem w =
      let ((err, k), w1) = threads.pthread_create (telemetry_update_padstate telem) w in
      let made = create_events (telemetry_update_padstate telem) w in
      if-elim {A = Run W ThreadEnd} (err == 0) (λ m. ClosesAfter w telem m w1)
        (λ e on.
          let made1 : events w1 ≡ events w ++ created k ∷ [] =
            made ∙ ap (λ b. events w ++ (if b then created k ∷ [] else [])) e in
          (
            _,
            inr (k, refl),
            prioritized-events F desktop n args telem k w1 on
                ∙ ap (λ es. es ++ cancelled k ∷ joined k ∷ closed telem.sock ∷ []) made1
                ∙ append_assoc (events w) (created k ∷ [])
                    (cancelled k ∷ joined k ∷ closed telem.sock ∷ []),
          ))
        (λ e on.
          let made0 : events w1 ≡ events w =
            made
            ∙ ap (λ b. events w ++ (if b then created k ∷ [] else [])) e
            ∙ append-nil (events w) in
          (_, inl refl, close-events telem w1 ∙ ap (λ es. es ++ closed telem.sock ∷ []) made0))

  opened-Released : (fd : ℤ) (es : List Event) → Closes fd es → Released (opened fd ∷ es)
  opened-Released fd es (inl e) = subst (λ l. Released (opened fd ∷ l)) (sym e) (no_thread fd)
  opened-Released fd es (inr (k, e)) =
      subst (λ l. Released (opened fd ∷ l)) (sym e) (with_thread fd k)

  abbrev Finishes : W → Run W ThreadEnd → W → Type 0
  Finishes w m v =
      GoesOn (m v).0
      → (es : List Event) × Released es
        × (events (thread_cancelled dgrams threads (m v).0 (m v).1).1 ≡ events w ++ es)

  -- Without a socket: only the desktop build goes on, to end the thread.
  failed-Released :
      (F : Type 0) (desktop : Bool) (n : ℕ) (args : TelemetryArgs) (telem : TelemetrySock)
      (w w1 : W)
      → events w1 ≡ events w
      → (net.sock_errno w1 == 0) ≡ false
      → Finishes w
          (λ v.
            let r =
              (if desktop then (λ u. (some (net.sock_errno u, telem), u)) else return none) v in
            after_init {F = F} dgrams threads files desktop mock n args r.0 r.1)
          w1
  unfolding after_init thread_return run_handlers thread_cancelled
  failed-Released F false n args telem w w1 same set_ = λ on. absurd on
  failed-Released F true n args telem w w1 same set_ =
      rw set_ (λ on. ([], no_socket, same ∙ sym (append-nil (events w))))

  -- With made-up telemetry, whatever fails: if the thread ends, or is cancelled after a whole number of
  -- rounds, while the process goes on, it has closed the socket it opened, after it has cancelled and
  -- joined the thread it created, and nothing else was opened or created.
  pub thread-Released :
      (F : Type 0) (desktop : Bool) (n : ℕ) (args : TelemetryArgs) (w : W)
      → let r = telemetry_thread {F = F} net dgrams threads files desktop mock n args w in
        GoesOn r.0
        → (es : List Event) × Released es
          × (events (thread_cancelled dgrams threads r.0 r.1).1 ≡ events w ++ es)
  unfolding telemetry_thread telemetry_init after_init
  thread-Released F desktop n args w =
      let (fd, w1) = net.socket_dgram w in
      let start : Option (ℕ × TelemetrySock) → Run W ThreadEnd =
        after_init {F = F} dgrams threads files desktop mock n args in
      let made = socket_events w in
      if-elim {A = Run W (Option (ℕ × TelemetrySock))} (is_negative fd)
        (λ m. Finishes w (λ v. start (m v).0 (m v).1) w1)
        (λ e.
          failed-Released F desktop n args _ w w1
            (made
              ∙ ap (λ b. events w ++ (if b then [] else opened fd ∷ [])) e
              ∙ append-nil (events w))
            (errno_set w e))
        (λ e on.
          let made1 : events w1 ≡ events w ++ opened fd ∷ [] =
            made ∙ ap (λ b. events w ++ (if b then [] else opened fd ∷ [])) e in
          let (es, closes, same) = with_padstate_thread-events F desktop n args _ w1 on in
          (
            opened fd ∷ es,
            opened-Released fd es closes,
            same ∙ ap (λ l. l ++ es) made1 ∙ append_assoc (events w) (opened fd ∷ []) es,
          ))
