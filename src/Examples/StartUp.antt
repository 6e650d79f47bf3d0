-- ===== src/Examples/StartUp.antt =====
-- The pad server's start and its telemetry thread, on worlds that are lists.
use hysim.Base.{ℕ, ◌≡◌, refl, true, false, List, [], ◌∷◌, ◌++◌, pos, some, none, return}
use hysim.Actuator.{desktop_build}
use hysim.Os.{Datagrams, Files, Sockets, Threads}
use hysim.Libc.{Opt}
use hysim.PadState.Init.{init_with}
use hysim.MockTelemetry.{mock_telemetry, replay_opened}
use hysim.TelemetryThread.{
  PadThread, TelemetryArgs, mock, telemetry_thread, thread_cancelled, telemetry_init, after_init,
  with_padstate_thread, prioritized, telemetry_body, after_mock, thread_return,
}
use hysim.TelemetryThread.Ledger.{Event, opened, closed, created, cancelled, joined, Ledger}
use hysim.TelemetryThread.Ends.{Released, thread-Released}
use hysim.PadServer.{ready, default_args, parse_opts, server_main}
use hysim.PadServer.Options.{args_of, parse_opts-args_of}
use hysim.PadServer.Starts.{Roster, StartsFrom, server_main-started}
use hysim.Examples.Systems.{World, granted}

-- The files are missing; sockets and threads work.
abbrev no_files : Files (List Event)
no_files = record {
  fopen = λ name. return none;
  ferror = λ f. return false;
  feof = λ f. return true;
  rewind = λ f. return tt;
  fgets = λ f n. return none;
  rand = return 3;
  rand_max = 7;
  usleep_us = λ n. return tt;
}

-- Every call on a socket succeeds, but nothing is received.
abbrev address_book : {W : Type 0} → Sockets W
address_book = record {
  is_apple = false;
  clock_timekeeping = false;
  sock_errno = λ w. 111;
  eaddrinuse = 98;
  etimedout = 110;
  econnrefused = 111;
  enotconn = 107;
  enetunreach = 101;
  econnaborted = 103;
  eperm = 1;
  enodev = 19;
  einval = 22;
  socket_stream = return (pos 3);
  socket_dgram = return (pos 4);
  setsockopt = λ fd opt. return (pos 0);
  bind = λ fd port. return (pos 0);
  listen = λ fd n. return (pos 0);
  select_readable = λ fd secs. return (pos 1);
  accept = λ fd. return (pos 5);
  connect = λ fd addr port. return (pos 0);
  inet_pton = λ ip. return (pos 1, 2130706433);
  inet_addr = λ ip. 2130706433;
  sleep = λ secs. return tt;
  close_sock = λ fd. return (pos 0);
  recv = λ fd n. return none;
  send = λ fd bs. return (pos 0);
  stack = λ n w. [];
}

abbrev event_sockets : Sockets (List Event)
event_sockets = record address_book { socket_dgram = λ w. (pos 4, w ++ opened (pos 4) ∷ []) }

abbrev event_datagrams : Datagrams (List Event)
event_datagrams = record {
  dgram_errno = λ w. 5;
  clock_gettime = return (12, 345678901);
  sendmsg = λ fd bs. return (pos 0);
  peek = λ fd n. return none;
  recvfrom = λ fd n. return none;
  close_dgram = λ fd w. (pos 0, w ++ closed fd ∷ []);
}

abbrev event_threads : Threads PadThread (List Event)
event_threads = record {
  pthread_create = λ t w. ((0, 9), w ++ created 9 ∷ []);
  pthread_setschedprio = λ k p. return 0;
  pthread_cancel = λ k w. (0, w ++ cancelled k ∷ []);
  pthread_join = λ k w. (0, w ++ joined k ∷ []);
}

abbrev ledger : Ledger event_sockets event_datagrams event_threads no_files
ledger = record {
  events = λ w. w;
  socket_events = λ w. refl;
  errno_set = λ w e. refl;
  close_events = λ fd w. refl;
  create_events = λ t w. refl;
  cancel_events = λ k w. refl;
  join_events = λ k w. refl;
  setschedprio_events = λ k p w. refl;
  clock_events = λ w. refl;
  sendmsg_events = λ fd bs w. refl;
  fopen_events = λ name w. refl;
  ferror_events = λ f w. refl;
  feof_events = λ f w. refl;
  rewind_events = λ f w. refl;
  fgets_events = λ f n w. refl;
  rand_events = λ w. refl;
  usleep_events = λ n w. refl;
}

abbrev missing_file : TelemetryArgs
missing_file = record { port = 50002; addr = []; data_file = some (120 ∷ []) }

thread-Released_example :
    let r =
      telemetry_thread {F = ℕ} event_sockets event_datagrams event_threads no_files false mock 3
        missing_file [] in
    (es : List Event) × Released es
    × (thread_cancelled event_datagrams event_threads r.0 r.1).1 ≡ es
unfolding telemetry_thread telemetry_init after_init with_padstate_thread prioritized telemetry_body
    after_mock thread_return mock_telemetry replay_opened
thread-Released_example =
    thread-Released event_sockets event_datagrams event_threads no_files ledger ℕ false 3
      missing_file [] tt

abbrev roster_threads : Threads PadThread (List PadThread)
roster_threads = record {
  pthread_create = λ t w. ((0, 9), w ++ t ∷ []);
  pthread_setschedprio = λ k p. return 0;
  pthread_cancel = λ k. return 0;
  pthread_join = λ k. return 0;
}

-- -t 6000 -f x -t 7
abbrev options : List Opt
options =
    record { letter = 116; optarg = 54 ∷ 48 ∷ 48 ∷ 48 ∷ [] }
    ∷ record { letter = 102; optarg = 120 ∷ [] }
    ∷ record { letter = 116; optarg = 55 ∷ [] }
    ∷ []

parse_opts-args_of_example :
    (parse_opts address_book options default_args tt).0 ≡ ready (args_of options default_args)
parse_opts-args_of_example =
    parse_opts-args_of {W = World} address_book options default_args tt
      ((refl, refl, λ w e. refl), ((refl, refl, λ w e. refl), ((refl, refl, λ w e. refl), tt)))

abbrev roster : Roster address_book granted roster_threads
roster = record {
  started = λ w. w;
  create_started = λ t w. refl;
  setschedprio_started = λ k p w. refl;
  join_started = λ k w. refl;
  rwlock_init_started = λ w. refl;
  mutex_init_started = λ w. refl;
  inet_pton_started = λ text w. refl;
  cond_init_started = λ w. refl;
}

server_main-started_example :
    StartsFrom address_book granted roster_threads desktop_build false roster []
      (parse_opts {W = List PadThread} address_book options default_args []).0
      (server_main granted roster_threads desktop_build false address_book options
        (init_with granted [] desktop_build, [])).1.1
server_main-started_example =
    server_main-started address_book granted roster_threads desktop_build false roster options
      (init_with granted [] desktop_build, [])
