-- ===== src/Telemetry/Updates.antt =====
-- The controller thread, which changes the pad state and signals it (`padstate_signal_update` of
-- pad_server/src/state.c), beside the telemetry thread, which waits for the signal and sends the pad state
-- (`telemetry_update_padstate` of pad_server/src/telemetry.c), as interleaved steps. The pad state is its
-- fields: the arming level, the connection status and the actuators. The read-write lock makes a read and a
-- write of the level or the status one step; those of an actuator's flag are taken as one step too. A read lock
-- may fail, and so may the call that sends, whose error the code drops. Every call on the mutex and the condition
-- variable succeeds.
pub mod Known
pub mod Fresh
pub mod Delivery
use hysim.Base.{
  ℕ, zero, suc, ◌+◌, ◌<◌, ◌≡◌, Bool, true, false, Option, none, some, ◌==◌, if◌then◌else◌,
}
use hysim.PadState.{num_actuators}

abbrev pub num_fields : ℕ
num_fields = num_actuators + 2

pub data Holder : Type 0 where
  free : Holder
  by_writer : Holder
  by_sender : Holder

-- Where the controller thread is: at rest, with changes it has not signalled, with the mutex, with the flag
-- set, and with the condition signalled.
pub data WriterPc : Type 0 where
  idle : WriterPc
  dirty : WriterPc
  locked : WriterPc
  flagged : WriterPc
  signalled : WriterPc

-- Where the telemetry thread is: before the mutex, at the test of the waiting loop, inside the wait, woken
-- and about to take the mutex again, with so many fields read, with the datagram sent, with the flag reset.
-- The Boolean says that the wait timed out.
pub data SenderPc : Type 0 where
  at_lock : SenderPc
  testing : Bool → SenderPc
  waiting : SenderPc
  woken : Bool → SenderPc
  reading : ℕ → SenderPc
  sent : SenderPc
  cleared : SenderPc

-- `changed` says which fields were ever written, `buf` holds what was read, `out` the last datagram sent, and
-- `faulty` says that a read or the sending failed since the telemetry thread last began to read.
pub record System : Type 0 where
  pub value : ℕ → ℕ
  pub changed : ℕ → Bool
  pub buf : ℕ → Option ℕ
  pub out : ℕ → Option ℕ
  pub recorded : Bool
  pub faulty : Bool
  pub mutex : Holder
  pub writer : WriterPc
  pub sender : SenderPc

abbrev pub update : {A : Type 0} → (ℕ → A) → ℕ → A → ℕ → A
update f i v j = if j == i then v else f j

-- `pthread_cond_signal`.
abbrev pub wake : SenderPc → SenderPc
wake waiting = woken false
wake pc = pc

pub data WriterStep (s : System) : System → Type 0 where
  write :
      (i v : ℕ)
      → i < num_fields
      → s.writer ≡ idle
      → WriterStep s (record s {
        value = update s.value i v;
        changed = update s.changed i true;
        writer = dirty;
      })
  write_more :
      (i v : ℕ)
      → i < num_fields
      → s.writer ≡ dirty
      → WriterStep s (record s { value = update s.value i v; changed = update s.changed i true })
  lock :
      s.writer ≡ dirty
      → s.mutex ≡ free
      → WriterStep s (record s { writer = locked; mutex = by_writer })
  set_flag : s.writer ≡ locked → WriterStep s (record s { writer = flagged; recorded = true })
  signal :
      s.writer ≡ flagged → WriterStep s (record s { writer = signalled; sender = wake s.sender })
  unlock : s.writer ≡ signalled → WriterStep s (record s { writer = idle; mutex = free })

pub data SenderStep (s : System) : System → Type 0 where
  take_lock :
      s.sender ≡ at_lock
      → s.mutex ≡ free
      → SenderStep s (record s { sender = testing false; mutex = by_sender })
  wait :
      s.sender ≡ testing false
      → s.recorded ≡ false
      → SenderStep s (record s { sender = waiting; mutex = free })
  -- A time-out, or a wake-up without a signal.
  wake_up :
      (timeout : Bool) → s.sender ≡ waiting → SenderStep s (record s { sender = woken timeout })
  take_lock_again :
      (timeout : Bool)
      → s.sender ≡ woken timeout
      → s.mutex ≡ free
      → SenderStep s (record s { sender = testing timeout; mutex = by_sender })
  see_flag :
      (timeout : Bool)
      → s.sender ≡ testing timeout
      → s.recorded ≡ true
      → SenderStep s (record s { sender = reading 0; faulty = false })
  time_out :
      s.sender ≡ testing true → SenderStep s (record s { sender = reading 0; faulty = false })
  read :
      (k : ℕ)
      → s.sender ≡ reading k
      → k < num_fields
      → SenderStep s
          (record s { sender = reading (suc k); buf = update s.buf k (some (s.value k)) })
  -- The read lock of the level or the status is refused: what is read is an error value.
  read_fails :
      (k v : ℕ)
      → s.sender ≡ reading k
      → k < 2
      → SenderStep s
          (record s { sender = reading (suc k); buf = update s.buf k (some v); faulty = true })
  send_fails :
      s.sender ≡ reading num_fields → SenderStep s (record s { sender = sent; faulty = true })
  send : s.sender ≡ reading num_fields → SenderStep s (record s { sender = sent; out = s.buf })
  reset : s.sender ≡ sent → SenderStep s (record s { sender = cleared; recorded = false })
  release : s.sender ≡ cleared → SenderStep s (record s { sender = at_lock; mutex = free })

-- After `padstate_init`, with the telemetry thread about to start.
abbrev pub started : (ℕ → ℕ) → System
started value = record {
  value = value;
  changed = λ i. false;
  buf = λ i. none;
  out = λ i. none;
  recorded = false;
  faulty = false;
  mutex = free;
  writer = idle;
  sender = at_lock;
}

pub data Reach (value : ℕ → ℕ) : System → Type 0 where
  start : Reach value (started value)
  by_controller : {s t : System} → Reach value s → WriterStep s t → Reach value t
  by_telemetry : {s t : System} → Reach value s → SenderStep s t → Reach value t
