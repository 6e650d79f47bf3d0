-- ===== src/Examples/Systems.antt =====
-- Operating systems that are simple enough to run: one state of the world, and fixed answers.
use hysim.Base.{
  ℕ, true, false, List, [], ◌∷◌, ◌++◌, Option, none, some, take, drop, length, replicate, ltb,
  if◌then◌else◌, ℤ, pos, negsuc, return,
}
use hysim.Os.{Locks, Devices, Sockets, Datagrams}

abbrev pub World : Type 0
World = Unit {0}

-- Read locks answer `rd`, everything else succeeds.
abbrev pub locks_with : {W : Type 0} → ℕ → Locks W
locks_with rd = record {
  rwlock_init = return 0;
  rdlock = return rd;
  wrlock = return 0;
  rwlock_unlock = return 0;
  mutex_init = return 0;
  mutex_lock = return 0;
  mutex_unlock = return 0;
  cond_init = return 0;
  cond_signal = return 0;
}

abbrev pub granted : {W : Type 0} → Locks W
granted = locks_with 0

-- Every file opens as descriptor `fd`, and every operation on it answers 0; `errno` is 5.
abbrev pub devices_with : {W : Type 0} → ℤ → Devices W
devices_with fd = record {
  errno = λ w. pos 5;
  set_errno = λ e w. w;
  open_dev = λ path. return fd;
  close = λ fd. return (pos 0);
  gpioc_write = λ fd b. return (pos 0);
  gpioc_read = λ fd. return (pos 0, true);
  pwmioc_getcharacteristics = λ fd. return (pos 0, record { frequency = 0; channels = [] });
  pwmioc_setcharacteristics = λ fd config. return (pos 0);
  pwmioc_start = λ fd. return (pos 0);
}

abbrev pub working : {W : Type 0} → Devices W
working = devices_with (pos 3)

abbrev pub unplugged : {W : Type 0} → Devices W
unplugged = devices_with (negsuc 0)

-- A network of two ends: what is still to be received, what was sent, and the datagrams that wait.
pub record Cable : Type 0 where
  pub input : List ℕ
  pub output : List (List ℕ)
  pub inbox : List (List ℕ)

abbrev pub first_of : ℕ → List (List ℕ) → Option (List ℕ)
first_of n [] = none
first_of n (d ∷ ds) = some (take n d)

abbrev pub rest_of : List (List ℕ) → List (List ℕ)
rest_of [] = []
rest_of (d ∷ ds) = ds

abbrev pub sockets : Sockets Cable
sockets = record {
  is_apple = false;
  clock_timekeeping = false;
  sock_errno = λ w. 111;
  eaddrinuse = 98;
  etimedout = 110;
  econnrefused = 111;
  enotconn = 107;
  enetunreach = 101;
  econnaborted = 103;
  eperm = 1;
  enodev = 19;
  einval = 22;
  socket_stream = return (pos 3);
  socket_dgram = return (pos 4);
  setsockopt = λ fd opt. return (pos 0);
  bind = λ fd port. return (pos 0);
  listen = λ fd n. return (pos 0);
  select_readable = λ fd secs. return (pos 1);
  accept = λ fd. return (pos 5);
  connect = λ fd addr port w.
      if ltb (length w.output) 2
      then (negsuc 0, record w { output = w.output ++ [] ∷ [] })
      else (pos 0, w);
  inet_pton = λ ip. return (pos 1, 2130706433);
  inet_addr = λ ip. 2130706433;
  sleep = λ secs. return tt;
  close_sock = λ fd. return (pos 0);
  recv = λ fd n w. (some (take n w.input), record w { input = drop n w.input });
  send = λ fd bs w. (pos (length bs), record w { output = w.output ++ bs ∷ [] });
  stack = λ n w. replicate n 0;
}

-- A network on which every call works, nothing arrives, and nothing is kept.
abbrev pub plain : {W : Type 0} → Sockets W
plain = record {
  is_apple = false;
  clock_timekeeping = false;
  sock_errno = λ w. 107;
  eaddrinuse = 98;
  etimedout = 110;
  econnrefused = 111;
  enotconn = 107;
  enetunreach = 101;
  econnaborted = 103;
  eperm = 1;
  enodev = 19;
  einval = 22;
  socket_stream = return (pos 3);
  socket_dgram = return (pos 4);
  setsockopt = λ fd opt. return (pos 0);
  bind = λ fd port. return (pos 0);
  listen = λ fd n. return (pos 0);
  select_readable = λ fd secs. return (pos 1);
  accept = λ fd. return (pos 5);
  connect = λ fd addr port. return (pos 0);
  inet_pton = λ ip. return (pos 1, 2130706433);
  inet_addr = λ ip. 2130706433;
  sleep = λ secs. return tt;
  close_sock = λ fd. return (pos 0);
  recv = λ fd n. return none;
  send = λ fd bs. return (pos (length bs));
  stack = λ n w. replicate n 0;
}

abbrev pub datagrams : Datagrams Cable
datagrams = record {
  dgram_errno = λ w. 5;
  clock_gettime = return (12, 345678901);
  sendmsg = λ fd bs w. (pos (length bs), record w { output = w.output ++ bs ∷ [] });
  peek = λ fd n w. (first_of n w.inbox, w);
  recvfrom = λ fd n w. (first_of n w.inbox, record w { inbox = rest_of w.inbox });
  close_dgram = λ fd. return (pos 0);
}

-- Nothing received or sent yet.
abbrev pub quiet : Cable
quiet = record { input = []; output = []; inbox = [] }
