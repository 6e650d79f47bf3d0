-- ===== src/Os.antt =====
-- What the program takes from the operating system, which is not part of the repository: each call
-- acts on a world `W` and returns what the call returns. The definitions of the other modules take
-- such a record as an argument, so their theorems hold whatever the system answers.
use Prim.Native.String.{String}
use hysim.Base.{ℕ, Bool, List, Option, ℤ, Run}

-- pthread.h: every call returns 0 or an error code.
pub record Locks (W : Type 0) : Type 0 where
  pub rwlock_init : Run W ℕ
  pub rdlock : Run W ℕ
  pub wrlock : Run W ℕ
  pub rwlock_unlock : Run W ℕ
  pub mutex_init : Run W ℕ
  pub mutex_lock : Run W ℕ
  pub mutex_unlock : Run W ℕ
  pub cond_init : Run W ℕ
  pub cond_signal : Run W ℕ

-- One channel of `struct pwm_info_s`, and the fields of that structure (nuttx/timers/pwm.h).
pub record PwmChannel : Type 0 where
  pub channel : ℕ
  pub cpol : ℕ
  pub dcpol : ℕ
  pub duty : ℕ

pub record PwmConfig : Type 0 where
  pub frequency : ℕ
  pub channels : List PwmChannel

-- Files and character devices: a call returns a negative number on failure and sets `errno`.
pub record Devices (W : Type 0) : Type 0 where
  pub errno : W → ℤ
  pub set_errno : ℤ → W → W
  pub open_dev : String → Run W ℤ
  pub close : ℤ → Run W ℤ
  pub gpioc_write : ℤ → Bool → Run W ℤ
  pub gpioc_read : ℤ → Run W (ℤ × Bool)
  pub pwmioc_getcharacteristics : ℤ → Run W (ℤ × PwmConfig)
  pub pwmioc_setcharacteristics : ℤ → PwmConfig → Run W ℤ
  pub pwmioc_start : ℤ → Run W ℤ

-- The socket options that the code sets, with their values.
pub data SockOpt : Type 0 where
  so_reuseaddr : ℕ → SockOpt
  so_keepalive : ℕ → SockOpt
  so_rcvtimeo : ℕ → SockOpt
  tcp_keepidle : ℕ → SockOpt
  tcp_keepintvl : ℕ → SockOpt
  tcp_keepcnt : ℕ → SockOpt
  ip_add_membership : ℕ → SockOpt

-- Sockets, with the error numbers that the code compares with or returns. `recv fd n` gives the bytes
-- received: none for an error (-1), no byte for a closed connection (0). `stack n` is what a buffer of
-- n bytes holds before anything is stored in it. `send` stands for `sendmsg` too, with the parts of
-- the message put together. `connect` takes address and port, the others the port alone; `inet_pton`
-- gives its result and the address, `inet_addr` the address alone. `is_apple` and `clock_timekeeping` say whether
-- the platform defines __APPLE__ and CONFIG_CLOCK_TIMEKEEPING. A text is the list of its bytes.
pub record Sockets (W : Type 0) : Type 0 where
  pub is_apple : Bool
  pub clock_timekeeping : Bool
  pub sock_errno : W → ℕ
  pub eaddrinuse : ℕ
  pub etimedout : ℕ
  pub econnrefused : ℕ
  pub enotconn : ℕ
  pub enetunreach : ℕ
  pub econnaborted : ℕ
  pub eperm : ℕ
  pub enodev : ℕ
  pub einval : ℕ
  pub socket_stream : Run W ℤ
  pub socket_dgram : Run W ℤ
  pub setsockopt : ℤ → SockOpt → Run W ℤ
  pub bind : ℤ → ℕ → Run W ℤ
  pub listen : ℤ → ℕ → Run W ℤ
  pub select_readable : ℤ → ℕ → Run W ℤ
  pub accept : ℤ → Run W ℤ
  pub connect : ℤ → ℕ → ℕ → Run W ℤ
  pub inet_pton : List ℕ → Run W (ℤ × ℕ)
  pub inet_addr : List ℕ → ℕ
  pub sleep : ℕ → Run W (Unit {0})
  pub close_sock : ℤ → Run W ℤ
  pub recv : ℤ → ℕ → Run W (Option (List ℕ))
  pub send : ℤ → List ℕ → Run W ℤ
  pub stack : ℕ → W → List ℕ

-- Datagram sockets and the clock. `sendmsg fd bs` sends the concatenation of the message's parts;
-- `peek` and `recvfrom` give what arrives of the next datagram: none for an error, no byte for 0.
pub record Datagrams (W : Type 0) : Type 0 where
  pub dgram_errno : W → ℕ
  pub clock_gettime : Run W (ℕ × ℕ)
  pub sendmsg : ℤ → List ℕ → Run W ℤ
  pub peek : ℤ → ℕ → Run W (Option (List ℕ))
  pub recvfrom : ℤ → ℕ → Run W (Option (List ℕ))
  pub close_dgram : ℤ → Run W ℤ

-- Threads of a program whose threads are described by `T`: creation gives an error number and the thread's
-- identifier, the other calls an error number.
pub record Threads (T W : Type 0) : Type 0 where
  pub pthread_create : T → Run W (ℕ × ℕ)
  pub pthread_setschedprio : ℕ → ℕ → Run W ℕ
  pub pthread_cancel : ℕ → Run W ℕ
  pub pthread_join : ℕ → Run W ℕ

-- Files of text, and random numbers. `fopen` gives none for NULL; `fgets` reads a line into a buffer.
pub record Files (W : Type 0) : Type 0 where
  pub fopen : List ℕ → Run W (Option ℕ)
  pub ferror : ℕ → Run W Bool
  pub feof : ℕ → Run W Bool
  pub rewind : ℕ → Run W (Unit {0})
  pub fgets : ℕ → ℕ → Run W (Option (List ℕ))
  pub rand : Run W ℕ
  pub rand_max : ℕ
  pub usleep_us : ℕ → Run W (Unit {0})

-- The board of a NuttX build: the USB device as console, and the network. `open_console` opens /dev/ttyACM0.
pub record Board (W : Type 0) : Type 0 where
  pub boardioc_init : Run W ℤ
  pub usbdev_connect : Run W ℤ
  pub open_console : Run W ℤ
  pub console_errno : W → ℕ
  pub console_enotconn : ℕ
  pub dup2 : ℤ → ℕ → Run W (Unit {0})
  pub close_console : ℤ → Run W (Unit {0})
  pub usleep : ℕ → Run W (Unit {0})
  pub sleep_secs : ℕ → Run W (Unit {0})
  pub netinit_bringup : Run W (Unit {0})

-- Signals of pins, and keys. `sigwaitinfo` gives -1 for an error; `getc` the character read.
pub record Signals (W : Type 0) : Type 0 where
  pub gpioc_register : ℤ → ℕ → Run W ℤ
  pub sigwaitinfo : Run W ℤ
  pub debounce_us : ℕ → Run W (Unit {0})
  pub getc : Run W ℕ
