-- ===== src/Telemetry/Snapshot.antt =====
-- What `telemetry_send_padstate` of pad_server/src/telemetry.c sends.
use hysim.Base.{
  ℕ, zero, suc, ◌+◌, ◌≤◌, ◌<◌, ◌≡◌, refl, ap₂, ◌∙◌, Bool, false, List, [], ◌∷◌, ◌++◌, ℤ, arith,
  if◌then◌else◌, get_or,
}
use hysim.Packet.{
  u8, packet_header_init, packet_arm_state_init, packet_conn_init, packet_act_state_init,
}
use hysim.Packet.Message.{Body, arm, conn, act, encode_messages}
use hysim.Os.{Locks, Datagrams}
use hysim.Actuator.{zeroed_actuator}
use hysim.PadState.{PadState, padstate_get_actstate, padstate_get_level, padstate_get_connstatus}
use hysim.PadState.Untouched.{Untouched}
use hysim.Telemetry.{
  TelemetrySock, concat_parts, actuator_parts, telemetry_publish, telemetry_send_padstate,
  time_ms_of,
}

-- The actuators `i`, `i + 1`, ..., so many of them.
abbrev pub actuator_bodies : {W : Type 0} → PadState W → ℕ → ℕ → ℕ → List Body
actuator_bodies s time zero i = []
actuator_bodies s time (suc n) i =
    act (record {
      time = time;
      id = i;
      state = if (get_or s.actuators i zeroed_actuator).state then 1 else 0;
    })
    ∷ actuator_bodies s time n (i + 1)

abbrev pub snapshot : {W : Type 0} → PadState W → ℕ → List Body
snapshot s time =
    arm (record { time = time; state = u8 s.arm_level })
    ∷ conn (record { time = time; status = u8 s.conn_status })
    ∷ actuator_bodies s time 15 0

get_actstate_lem :
    {W : Type 0} (s : PadState W) (i : ℕ) (b : Bool)
    → i < 15
    → (padstate_get_actstate s i b).1 ≡ (get_or s.actuators i zeroed_actuator).state
unfolding padstate_get_actstate
get_actstate_lem s i b h = ground arith

concat-actuator_parts :
    {W : Type 0} (s : PadState W) (time n i : ℕ) (b : Bool)
    → i + n ≤ 15
    → concat_parts (actuator_parts s time n i b) ≡ encode_messages (actuator_bodies s time n i)
unfolding concat_parts actuator_parts encode_messages packet_header_init packet_act_state_init
concat-actuator_parts s time zero i b h = refl
concat-actuator_parts s time (suc n) i b h =
    let b' : Bool = (padstate_get_actstate s i b).1 in
    ground (
      arith,
      get_actstate_lem s i b (omega arith),
      concat-actuator_parts s time n (i + 1) b' (omega arith),
    )

-- Where datagrams go, and what leaves it alone.
pub record Outbox {W : Type 0} (locks : Locks W) (dgrams : Datagrams W) (sock : ℤ) : Type 0 where
  pub sent : W → List (List ℕ)
  pub sendmsg_sent : (bs : List ℕ) (w : W) → sent (dgrams.sendmsg sock bs w).1 ≡ sent w ++ bs ∷ []
  pub clock_sent : (w : W) → sent (dgrams.clock_gettime w).1 ≡ sent w
  pub rdlock_ok : (w : W) → (locks.rdlock w).0 ≡ 0
  pub untouched : Untouched locks sent

module _ {W : Type 0} (locks : Locks W) (dgrams : Datagrams W) (sock : TelemetrySock)
    (box : Outbox locks dgrams sock.sock) where
  open box use {sent, sendmsg_sent, clock_sent, rdlock_ok, untouched}

  publish-sent :
      (parts : List (List ℕ)) (w : W)
      → sent (telemetry_publish dgrams sock parts w).1 ≡ sent w ++ concat_parts parts ∷ []
  unfolding telemetry_publish
  publish-sent parts w = ground (arith, sendmsg_sent (concat_parts parts) w)

  -- Reading under the lock: the value, the state as it was, and nothing sent.
  get_level-value :
      (p : PadState W × W)
      → padstate_get_level locks p
        ≡ (p.0.arm_level, (p.0, (locks.rwlock_unlock (locks.rdlock p.1).1).1))
  unfolding padstate_get_level
  get_level-value p = rw (rdlock_ok p.1)

  get_connstatus-value :
      (p : PadState W × W)
      → padstate_get_connstatus locks p
        ≡ (p.0.conn_status, (p.0, (locks.rwlock_unlock (locks.rdlock p.1).1).1))
  unfolding padstate_get_connstatus
  get_connstatus-value p = rw (rdlock_ok p.1)

  reads-sent : (w : W) → sent (locks.rwlock_unlock (locks.rdlock w).1).1 ≡ sent w
  reads-sent w = untouched.rwlock_unlock_line (locks.rdlock w).1 ∙ untouched.rdlock_line w

  -- Where read locks are granted: one datagram goes out, which holds the arming level, the connection status and
  -- the state of all the actuators, stamped with the time in milliseconds; the pad state stays.
  pub send_padstate-snapshot :
      (p : PadState W × W)
      → let (sec, nsec) = (dgrams.clock_gettime p.1).0 in
        let t = telemetry_send_padstate locks dgrams sock p in
        (t.1.0 ≡ p.0)
        × (sent t.1.1 ≡ sent p.1 ++ encode_messages (snapshot p.0 (time_ms_of sec nsec)) ∷ [])
  unfolding telemetry_send_padstate packet_header_init packet_arm_state_init packet_conn_init
      concat_parts encode_messages
  send_padstate-snapshot p =
      let (sec, nsec) = (dgrams.clock_gettime p.1).0 in
      let w1 : W = (dgrams.clock_gettime p.1).1 in
      let w2 : W = (locks.rwlock_unlock (locks.rdlock w1).1).1 in
      let w3 : W = (locks.rwlock_unlock (locks.rdlock w2).1).1 in
      let parts = concat-actuator_parts p.0 (time_ms_of sec nsec) 15 0 false (omega arith) in
      rw (get_level-value (p.0, w1)) (
        rw (get_connstatus-value (p.0, w2)) (
          refl,
          publish-sent _ w3
              ∙ ap₂ (λ (log : List (List ℕ)) (bs : List ℕ). log ++ bs ∷ [])
                  (reads-sent w2 ∙ reads-sent w1 ∙ clock_sent p.1) (ground (arith, parts)),
        ))
