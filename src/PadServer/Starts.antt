-- ===== src/PadServer/Starts.antt =====
-- Which threads `main` of pad_server/src/pad_server_main.c starts.
use mathlib.Core.List.{append_assoc, append-nil}
use hysim.Base.{
  ℕ, ◌≡◌, refl, ◌∙◌, sym, ap, Bool, false, ◌⊎◌, inl, inr, Option, none, some, List, [], ◌∷◌, ◌++◌,
  arith, Run, if◌then◌else◌, if-elim, ◌==◌,
}
use hysim.Actuator.{Build}
use hysim.Os.{Locks, Sockets, Threads}
use hysim.Libc.{Opt}
use hysim.PadState.{PadState, padstate_init}
use hysim.TelemetryThread.{PadThread, controller_run, telemetry_run}
use hysim.PadServer.{
  ServerEnd, ServerArgs, Parsed, ready, stop, default_args, parse_opts, start_thread,
  start_telemetry, start_server, server_main, await_threads, apply_opt, await_started,
  control_thread_priority, telem_thread_priority,
}

-- The threads started, and the calls that start none.
pub record Roster {W : Type 0} (net : Sockets W) (locks : Locks W) (threads : Threads PadThread W)
    : Type 0 where
  pub started : W → List PadThread
  pub create_started :
      (t : PadThread) (w : W)
      → let ((err, k), w1) = threads.pthread_create t w in
        started w1 ≡ started w ++ (if err == 0 then t ∷ [] else [])
  pub setschedprio_started :
      (k p : ℕ) (w : W) → started (threads.pthread_setschedprio k p w).1 ≡ started w
  pub join_started : (k : ℕ) (w : W) → started (threads.pthread_join k w).1 ≡ started w
  pub rwlock_init_started : (w : W) → started (locks.rwlock_init w).1 ≡ started w
  pub mutex_init_started : (w : W) → started (locks.mutex_init w).1 ≡ started w
  pub inet_pton_started : (text : List ℕ) (w : W) → started (net.inet_pton text w).1 ≡ started w
  pub cond_init_started : (w : W) → started (locks.cond_init w).1 ≡ started w

-- The threads of a start-up: none, the controller's, or both.
pub data Startup (args : ServerArgs) : List PadThread → Type 0 where
  nothing : Startup args []
  controller_only : Startup args (controller_run args.controller ∷ [])
  both : Startup args (controller_run args.controller ∷ telemetry_run args.telemetry ∷ [])

Parsed-cases :
    (parsed : Parsed)
    → ((args : ServerArgs) × (parsed ≡ ready args)) ⊎ ((e : ℕ) × (parsed ≡ stop e))
Parsed-cases (ready args) = inl (args, refl)
Parsed-cases (stop e) = inr (e, refl)

module _ {W : Type 0} (net : Sockets W) (locks : Locks W) (threads : Threads PadThread W)
    (build : Build W) (desktop : Bool) (roster : Roster net locks threads) where
  open roster use {
    started, create_started, setschedprio_started, join_started, rwlock_init_started,
    inet_pton_started, mutex_init_started, cond_init_started,
  }

  padstate_init-started :
      (p : PadState W × W) → started (padstate_init locks build p).1.1 ≡ started p.1
  unfolding padstate_init
  padstate_init-started p = cond_init_started _ ∙ mutex_init_started _ ∙ rwlock_init_started p.1

  await_threads-started :
      (a b : ℕ) (p : PadState W × W)
      → started (await_threads locks threads build desktop a b p).1.1 ≡ started p.1
  unfolding await_threads
  await_threads-started a b p =
      let w1 : W = (threads.pthread_join a p.1).1 in
      ground (arith, join_started a p.1, join_started b w1)

  -- A thread is started, or the process is to exit.
  start_thread-started :
      (t : PadThread) (priority : ℕ) (p : PadState W × W)
      → let r = start_thread locks threads build desktop t priority p in
        (((r.0 ≡ none) × (started r.1.1 ≡ started p.1)) ⊎ (started r.1.1 ≡ started p.1 ++ t ∷ []))
  unfolding start_thread
  start_thread-started t priority p =
      let ((err, k), w1) = threads.pthread_create t p.1 in
      let made = create_started t p.1 in
      let kept = setschedprio_started k priority w1 in
      ground (arith, made, kept, append-nil (started p.1))

  apply_opt-started :
      (o : Opt) (args : ServerArgs) (w : W) → started (apply_opt net o args w).1 ≡ started w
  unfolding apply_opt
  apply_opt-started o args w = ground (arith, inet_pton_started o.optarg w)

  parse_opts-started :
      (opts : List Opt) (args : ServerArgs) (w : W)
      → started (parse_opts net opts args w).1 ≡ started w
  unfolding parse_opts
  parse_opts-started [] args w = refl
  parse_opts-started (o ∷ os) args w =
      let (parsed, w1) = apply_opt net o args w in
      elim (Parsed-cases parsed) [
        | inl (args1, e) ↦
            rw (e, parse_opts) (parse_opts-started os args1 w1 ∙ apply_opt-started o args w)
        | inr (code, e) ↦ rw (e, parse_opts) (apply_opt-started o args w)
      ]

  await_started-started :
      (k : ℕ) (telem_thread : Option ℕ) (p : PadState W × W)
      → started (await_started locks threads build desktop k telem_thread p).1.1 ≡ started p.1
  unfolding await_started
  await_started-started k none p = refl
  await_started-started k (some k1) p = await_threads-started k k1 p

  -- Behind the creation of the controller's thread, or the failure of it.
  start_telemetry-started :
      (args : ServerArgs) (controller_thread : Option ℕ) (p : PadState W × W)
      → let r = start_telemetry locks threads build desktop args controller_thread p in
        (started r.1.1 ≡ started p.1)
        ⊎ (started r.1.1 ≡ started p.1 ++ telemetry_run args.telemetry ∷ [])
  unfolding start_telemetry
  start_telemetry-started args none p = inl refl
  start_telemetry-started args (some k) p =
      let (telem_thread, p1) =
        start_thread locks threads build desktop (telemetry_run args.telemetry)
          telem_thread_priority p in
      let waited = await_started-started k telem_thread p1 in
      elim (start_thread-started (telemetry_run args.telemetry) telem_thread_priority p) [
        | inl (failed, same) ↦ inl (waited ∙ same)
        | inr more ↦ inr (waited ∙ more)
      ]

  abbrev pub StartsFrom : W → Parsed → W → Type 0
  StartsFrom w parsed w1 =
      (ts : List PadThread) × (started w1 ≡ started w ++ ts)
      × ((ts ≡ [])
          ⊎ ((args : ServerArgs) × (parsed ≡ ready args)
              × ((args.telemetry.port == args.controller.port) ≡ false)
              × Startup args ts))

  both-started :
      (args : ServerArgs) (p : PadState W × W)
      → let p1 = (padstate_init locks build p).1 in
        let (k, p2) =
          start_thread locks threads build desktop
            (controller_run args.controller)
            control_thread_priority
            p1 in
        let r = start_telemetry locks threads build desktop args k p2 in
        (ts : List PadThread) × (started r.1.1 ≡ started p.1 ++ ts) × Startup args ts
  unfolding start_telemetry
  both-started args p =
      let p1 = (padstate_init locks build p).1 in
      let (k, p2) =
        start_thread locks threads build desktop (controller_run args.controller)
          control_thread_priority p1 in
      let begun = padstate_init-started p in
      elim (start_thread-started (controller_run args.controller) control_thread_priority p1) [
        | inl (failed, same) ↦
            ([], rw failed (same ∙ begun ∙ sym (append-nil (started p.1))), nothing)
        | inr more ↦ elim (start_telemetry-started args k p2) [
          | inl same ↦ (
            controller_run args.controller ∷ [],
            same ∙ more ∙ ap (λ s. s ++ controller_run args.controller ∷ []) begun,
            controller_only,
          )
          | inr again ↦ (
            controller_run args.controller ∷ telemetry_run args.telemetry ∷ [],
            again
                ∙ ap (λ s. s ++ telemetry_run args.telemetry ∷ [])
                    (more ∙ ap (λ s. s ++ controller_run args.controller ∷ []) begun)
                ∙ append_assoc (started p.1) (controller_run args.controller ∷ [])
                    (telemetry_run args.telemetry ∷ []),
            both,
          )
        ]
      ]

  start_server-started :
      (parsed : Parsed) (p : PadState W × W)
      → StartsFrom p.1 parsed (start_server locks threads build desktop parsed p).1.1
  unfolding start_server
  start_server-started (stop e) p = ([], sym (append-nil (started p.1)), inl refl)
  start_server-started (ready args) p =
      if-elim {A = Run (PadState W × W) ServerEnd} (args.telemetry.port == args.controller.port)
        (λ m. StartsFrom p.1 (ready args) (m p).1.1)
        (λ e. ([], sym (append-nil (started p.1)), inl refl))
        (λ e.
          let (ts, same, startup) = both-started args p in (ts, same, inr (args, refl, e, startup)))

  -- `main` starts no thread, or the options were read, the two ports differ, and the threads started are the
  -- controller's and then, if any more, the telemetry's, each with its own arguments.
  pub server_main-started :
      (opts : List Opt) (p : PadState W × W)
      → StartsFrom p.1
          (parse_opts net opts default_args p.1).0
          (server_main locks threads build desktop net opts p).1.1
  unfolding server_main
  server_main-started opts p =
      let (parsed, w1) = parse_opts net opts default_args p.1 in
      let (ts, same, cause) = start_server-started parsed (p.0, w1) in
      (ts, same ∙ ap (λ s. s ++ ts) (parse_opts-started opts default_args p.1), cause)
