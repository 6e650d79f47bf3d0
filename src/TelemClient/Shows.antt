-- ===== src/TelemClient/Shows.antt =====
-- What the telemetry client (telem_client/src/telem_client_main.c) makes of a datagram.
use hysim.Base.{
  ℕ, ◌+◌, ◌*◌, ◌/◌, ◌≡◌, refl, ◌∙◌, ap, not, List, [], ◌∷◌, ◌++◌, Option, none, some, ℤ, ◌==◌,
  arith, length, take, drop,
}
use hysim.Packet.{u8, ConnStatus, type_telem, arm_state_str, warning_str}
use hysim.Packet.Message.{
  Body, temp, pressure, mass, thrust, arm, act, warn, cont, conn, encode_body, encode_message,
  IsInRange, subtype_of,
}
use hysim.Packet.Wire.{
  encode_header, encode_temp, encode_pressure, encode_mass, encode_thrust, encode_arm_state,
  encode_act_state, encode_warn, encode_continuity_state, encode_u32,
}
use hysim.Packet.RoundTrip.{IsU8, IsU32}
use hysim.Os.{Datagrams}
use hysim.TelemClient.{
  Stream, Vars, printed, ignored, Line, thermocouple, pressure_transducer, load_cell, thrust_sensor,
  actuator, arming_state, warning, continuity_sensor, div_1000, line_of, show_message, handle_peek,
  round, stream_peek, stream_recv,
}

-- A datagram socket with datagrams waiting: `peek` shows the first bytes of the first one and leaves it,
-- `recvfrom` gives them and drops the rest of the datagram.
pub record Inbox {W : Type 0} (dgrams : Datagrams W) (sock : ℤ) : Type 0 where
  pub waiting : W → List (List ℕ)
  pub peek_first :
      (n : ℕ) (w : W) (d : List ℕ) (ds : List (List ℕ))
      → waiting w ≡ d ∷ ds
      → ((dgrams.peek sock n w).0 ≡ some (take n d)) × (waiting (dgrams.peek sock n w).1 ≡ d ∷ ds)
  pub recv_first :
      (n : ℕ) (w : W) (d : List ℕ) (ds : List (List ℕ))
      → waiting w ≡ d ∷ ds
      → ((dgrams.recvfrom sock n w).0 ≡ some (take n d))
        × (waiting (dgrams.recvfrom sock n w).1 ≡ ds)

-- What a message should be shown as; the connection status has no line.
abbrev pub shown : Body → Option Line
shown (temp p) = some (thermocouple p.id (div_1000 p.temperature) p.time)
shown (pressure p) = some (pressure_transducer p.id (div_1000 p.pressure) p.time)
shown (mass p) = some (load_cell p.id (div_1000 p.mass) p.time)
shown (thrust p) = some (thrust_sensor p.id p.thrust p.time)
shown (arm p) = some (arming_state (arm_state_str p.state) p.time)
shown (act p) = some (actuator p.id (not (p.state == 0)) p.time)
shown (warn p) = some (warning (warning_str p.type) p.time)
shown (cont p) = some (continuity_sensor (not (p.state == 0)) p.time)
shown (conn p) = none

-- The size of a message on the wire.
abbrev size_of : Body → ℕ
size_of (temp p) = 11
size_of (pressure p) = 11
size_of (mass p) = 11
size_of (thrust p) = 11
size_of (arm p) = 7
size_of (act p) = 8
size_of (warn p) = 7
size_of (cont p) = 7
size_of (conn p) = 7

-- A field of four bytes is read as it was written.
u32_at-value :
    (n : ℕ)
    → IsU32 n
    → u8 n + 256 * u8 (n / 256) + 65536 * u8 (n / 65536) + 16777216 * u8 (n / 16777216) ≡ n
u32_at-value n h = ground arith

u8-value : (n : ℕ) → IsU8 n → u8 n ≡ n
u8-value n h = ground arith

abbrev sized : ℕ → Option Line → Option (ℕ × Line)
sized n none = none
sized n (some line) = some (n, line)

-- The bytes of a message, in front of anything, are read as the message.
line_of-message :
    (b : Body) (line : Line) (rest old : List ℕ)
    → IsInRange b
    → shown b ≡ some line
    → line_of (subtype_of b) (take (size_of b) (encode_message b ++ rest) ++ old)
      ≡ some (size_of b, line)
unfolding line_of encode_message encode_header encode_body encode_temp encode_pressure encode_mass
    encode_thrust encode_arm_state encode_act_state encode_warn encode_continuity_state encode_u32
line_of-message (temp p) line rest old r e =
    rw (u32_at-value p.time r.0, u32_at-value p.temperature r.1, u8-value p.id r.2)
      (ap (sized 11) e)
line_of-message (pressure p) line rest old r e =
    rw (u32_at-value p.time r.0, u32_at-value p.pressure r.1, u8-value p.id r.2) (ap (sized 11) e)
line_of-message (mass p) line rest old r e =
    rw (u32_at-value p.time r.0, u32_at-value p.mass r.1, u8-value p.id r.2) (ap (sized 11) e)
line_of-message (thrust p) line rest old r e =
    rw (u32_at-value p.time r.0, u32_at-value p.thrust r.1, u8-value p.id r.2) (ap (sized 11) e)
line_of-message (arm p) line rest old r e = ground arith
line_of-message (act p) line rest old r e = ground arith
line_of-message (warn p) line rest old r e = ground arith
line_of-message (cont p) line rest old r e = ground arith
line_of-message (conn p) line rest old r e = ground arith

-- Whether there is a line, and how long the message is, hangs on the subtype alone.
line_of-size :
    (b : Body) (line : Line) (buffer : List ℕ)
    → shown b ≡ some line
    → (l : Line) × (line_of (subtype_of b) buffer ≡ some (size_of b, l))
unfolding line_of
line_of-size (temp p) line buffer e = (_, refl)
line_of-size (pressure p) line buffer e = (_, refl)
line_of-size (mass p) line buffer e = (_, refl)
line_of-size (thrust p) line buffer e = (_, refl)
line_of-size (arm p) line buffer e = (_, refl)
line_of-size (act p) line buffer e = (_, refl)
line_of-size (warn p) line buffer e = (_, refl)
line_of-size (cont p) line buffer e = (_, refl)
line_of-size (conn p) line buffer e = ground arith

message-header :
    (b : Body) (rest : List ℕ) → take 2 (encode_message b ++ rest) ≡ type_telem ∷ subtype_of b ∷ []
unfolding encode_message encode_header
message-header (temp p) rest = refl
message-header (pressure p) rest = refl
message-header (mass p) rest = refl
message-header (thrust p) rest = refl
message-header (arm p) rest = refl
message-header (act p) rest = refl
message-header (warn p) rest = refl
message-header (cont p) rest = refl
message-header (conn p) rest = refl

module _ {W : Type 0} (dgrams : Datagrams W) (stream : Stream)
    (box : Inbox dgrams stream.sock) where
  open box use {waiting, peek_first, recv_first}

  abbrev Taken : ℕ → List ℕ → List (List ℕ) → W → Type 0
  Taken n d ds w =
      let peeked = dgrams.peek stream.sock 2 w in
      let read = dgrams.recvfrom stream.sock n peeked.1 in
      (peeked.0 ≡ some (take 2 d)) × (read.0 ≡ some (take n d)) × (waiting read.1 ≡ ds)

  take_both :
      (n : ℕ) (d : List ℕ) (ds : List (List ℕ)) (w : W) → waiting w ≡ d ∷ ds → Taken n d ds w
  take_both n d ds w q =
      let peeked = peek_first 2 w d ds q in
      let read = recv_first n (dgrams.peek stream.sock 2 w).1 d ds peeked.1 in
      (peeked.0, read.0, read.1)

  -- A round whose peek and read are known.
  round-reads :
      (sub n : ℕ) (line l : Line) (bytes : List ℕ) (v : Vars) (w : W)
      → (dgrams.peek stream.sock 2 w).0 ≡ some (type_telem ∷ sub ∷ [])
      → line_of sub v.buffer ≡ some (n, l)
      → (dgrams.recvfrom stream.sock n (dgrams.peek stream.sock 2 w).1).0 ≡ some bytes
      → line_of sub (bytes ++ drop (length bytes) v.buffer) ≡ some (n, line)
      → let t = round dgrams stream v w in
        (t.0.0 ≡ printed line)
        × (t.1 ≡ (dgrams.recvfrom stream.sock n (dgrams.peek stream.sock 2 w).1).1)
  unfolding round handle_peek show_message stream_peek stream_recv
  round-reads sub n line l bytes v w peeked sized_by read reads =
      ground (arith, peeked, sized_by, read, reads)

  -- A datagram that waits starts with a message that fits its fields and that the client has a line for: the
  -- round prints the line with the values that were sent, and uses up the whole datagram, with all the
  -- messages behind the first.
  pub round-shown :
      (b : Body) (line : Line) (rest : List ℕ) (ds : List (List ℕ)) (v : Vars) (w : W)
      → IsInRange b
      → shown b ≡ some line
      → waiting w ≡ (encode_message b ++ rest) ∷ ds
      → let t = round dgrams stream v w in (t.0.0 ≡ printed line) × (waiting t.1 ≡ ds)
  round-shown b line rest ds v w range e q =
      let (peeked, read, after) = take_both (size_of b) (encode_message b ++ rest) ds w q in
      let (l, known) = line_of-size b line v.buffer e in
      let t =
        round-reads (subtype_of b) (size_of b) line l (take (size_of b) (encode_message b ++ rest))
          v w (peeked ∙ ap some (message-header b rest)) known read
          (line_of-message b line rest
            (drop (length (take (size_of b) (encode_message b ++ rest))) v.buffer) range e) in
      (t.0, ap waiting t.1 ∙ after)

  -- A datagram that waits starts with a connection status: the round prints nothing and leaves it waiting.
  pub round-conn_stuck :
      (p : ConnStatus) (rest : List ℕ) (ds : List (List ℕ)) (v : Vars) (w : W)
      → waiting w ≡ (encode_message (conn p) ++ rest) ∷ ds
      → let t = round dgrams stream v w in
        (t.0.0 ≡ ignored) × (waiting t.1 ≡ (encode_message (conn p) ++ rest) ∷ ds)
  unfolding round handle_peek show_message stream_peek line_of
  round-conn_stuck p rest ds v w q =
      let d : List ℕ = encode_message (conn p) ++ rest in
      let peeked = peek_first 2 w d ds q in
      rw (peeked.0 ∙ ap some (message-header (conn p) rest), round) (refl, peeked.1)
