-- ===== src/TelemClient.antt =====
-- telem_client/src/stream.c and telem_client_main.c: the client that prints the telemetry it receives. A
-- printed line is the data that `printf` is given. One round of the endless loop of `main` is `round`.
pub mod Shows
pub mod Heartbeat
pub mod Display
pub mod Loop
pub mod Queue
pub mod Sizes
use Prim.Native.String.{String}
use hysim.Base.{
  ℕ, zero, suc, ◌+◌, ◌-◌, ◌*◌, ◌/◌, Bool, true, false, not, List, [], ◌∷◌, ◌++◌, Option, none, some,
  ℤ, pos, negsuc, Run, ◌>>=◌, ◌>>◌, return, ltb, ◌==◌, if◌then◌else◌, is_negative, length, get_or,
  drop, take,
}
use hysim.Packet.{
  type_telem, telem_temp, telem_pressure, telem_mass, telem_thrust, telem_arm, telem_act,
  telem_warn, telem_cont, arm_state_str, warning_str,
}
use hysim.Os.{Datagrams}

-- stream_t
pub record Stream : Type 0 where
  pub sock : ℤ
  pub addr : ℕ

module _ {W : Type 0} (dgrams : Datagrams W) where
  unfoldable pub stream_disconnect : Stream → Run W ℕ
  stream_disconnect stream = do
    closed ← dgrams.close_dgram stream.sock
    if is_negative closed then (λ w. (dgrams.dgram_errno w, w)) else return 0

  unfoldable pub stream_recv : Stream → ℕ → Run W (Option (List ℕ))
  stream_recv stream n = dgrams.recvfrom stream.sock n

  unfoldable pub stream_peek : Stream → ℕ → Run W (Option (List ℕ))
  stream_peek stream n = dgrams.peek stream.sock n

-- What is printed for a message.
pub data Line : Type 0 where
  thermocouple : ℕ → ℤ → ℕ → Line
  pressure_transducer : ℕ → ℤ → ℕ → Line
  load_cell : ℕ → ℤ → ℕ → Line
  thrust_sensor : ℕ → ℕ → ℕ → Line
  actuator : ℕ → Bool → ℕ → Line
  arming_state : Option String → ℕ → Line
  warning : Option String → ℕ → Line
  continuity_sensor : Bool → ℕ → Line

pub data Outcome : Type 0 where
  printed : Line → Outcome
  ignored : Outcome
  stream_over : Outcome
  stream_error : Outcome
  not_telemetry : ℕ → Outcome

-- The variables of the loop: the header and the buffer keep what they held where fewer bytes arrive.
pub record Vars : Type 0 where
  pub hdr : List ℕ
  pub buffer : List ℕ

abbrev pub overlay : Option (List ℕ) → List ℕ → List ℕ
overlay none old = old
overlay (some bs) old = bs ++ drop (length bs) old

-- A 32-bit field at an offset.
abbrev pub u32_at : List ℕ → ℕ → ℕ
u32_at bs k =
    get_or bs k 0
    + 256 * get_or bs (suc k) 0
    + 65536 * get_or bs (suc (suc k)) 0
    + 16777216 * get_or bs (suc (suc (suc k))) 0

-- An int32_t divided by 1000: C rounds towards zero.
unfoldable pub div_1000 : ℕ → ℤ
div_1000 bits =
    if ltb bits 0x8000_0000
    then pos (bits / 1000)
    else (let n : ℕ = (0x1_0000_0000 - bits) / 1000 in if n == 0 then pos 0 else negsuc (n - 1))

-- The cases of the switch: the size of header and body, and the line read off the buffer.
unfoldable pub line_of : ℕ → List ℕ → Option (ℕ × Line)
line_of subtype buffer =
    let time = u32_at buffer 2 in
    let word = u32_at buffer 6 in
    if subtype == telem_temp
    then some (11, thermocouple (get_or buffer 10 0) (div_1000 word) time)
    else (if subtype == telem_pressure
        then some (11, pressure_transducer (get_or buffer 10 0) (div_1000 word) time)
        else (if subtype == telem_mass
            then some (11, load_cell (get_or buffer 10 0) (div_1000 word) time)
            else (if subtype == telem_thrust
                then some (11, thrust_sensor (get_or buffer 10 0) word time)
                else (if subtype == telem_act
                    then some (8, actuator (get_or buffer 6 0) (not (get_or buffer 7 0 == 0)) time)
                    else (if subtype == telem_arm
                        then some (7, arming_state (arm_state_str (get_or buffer 6 0)) time)
                        else (if subtype == telem_warn
                            then some (7, warning (warning_str (get_or buffer 6 0)) time)
                            else (if subtype == telem_cont
                                then some (7, continuity_sensor (not (get_or buffer 6 0 == 0)) time)
                                else none)))))))

module _ {W : Type 0} (dgrams : Datagrams W) where
  -- A header that was peeked at: a subtype without a case receives nothing.
  unfoldable pub show_message : Stream → Vars → Run W (Outcome × Vars)
  show_message stream v = elim (line_of (get_or v.hdr 1 0) v.buffer) [
    | none ↦ return (ignored, v)
    | some (size, _) ↦ do
      b_read ← stream_recv dgrams stream size
      let buffer = overlay b_read v.buffer
      return (
        elim (line_of (get_or v.hdr 1 0) buffer) [ none ↦ ignored | some (_, line) ↦ printed line ],
        record v { buffer = buffer },
      )
  ]

  unfoldable pub handle_peek : Stream → Vars → Option (List ℕ) → Run W (Outcome × Vars)
  handle_peek stream v none = return (stream_error, v)
  handle_peek stream v (some []) = return (stream_over, v)
  handle_peek stream v (some (b ∷ bs)) =
      let v' = record v { hdr = overlay (some (b ∷ bs)) v.hdr } in
      if get_or v'.hdr 0 0 == type_telem
      then show_message stream v'
      else return (not_telemetry (get_or v'.hdr 0 0), v')

  unfoldable pub round : Stream → Vars → Run W (Outcome × Vars)
  round stream v = do b_read ← stream_peek dgrams stream 2; handle_peek stream v b_read
