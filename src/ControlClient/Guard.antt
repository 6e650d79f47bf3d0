-- ===== src/ControlClient/Guard.antt =====
-- What a scan of the control box (control_client/src/control_client_main.c) sends.
use Prim.Native.String.{String}
use hysim.Base.{
  ℕ, ◌≡◌, refl, sym, subst, Bool-cases, ◌<◌, ap, ◌∙◌, ◌⊎◌, inl, inr, Bool, true, false, List, [],
  ◌∷◌, ◌++◌, Option-cases, ℤ, arith, get_or, set, Run,
}
use hysim.Packet.{cntrl_act_req, cntrl_arm_req, packet_header_init}
use hysim.Controller.Machine.{encode_request}
use hysim.Os.{Sockets, Devices}
use hysim.ControlClient.{PadLink, pad_disconnect, pad_send, pad_recv}
use hysim.ControlClient.Switches.{
  Switch, switch_callback, send_and_check, check_act_response, check_arm_response,
}
use hysim.ControlClient.Panel.{
  no_switch, valve_arming_switch_idx, turning_off_ignition, take_value, throw_switch, same_state,
  scan_switch, flip_switch, read_pin, gpio_dev,
}
use hysim.ControlClient.Replies.{request_of, IsSwitch, arm_req_lem}

-- What has been sent to the pad server: `send` adds to it, no other call that the scan makes does.
pub record Log {W : Type 0} (os : Devices W) (net : Sockets W) (sock : ℤ) : Type 0 where
  pub sent : W → List (List ℕ)
  pub send_sent : (bs : List ℕ) (w : W) → sent (net.send sock bs w).1 ≡ sent w ++ bs ∷ []
  pub recv_sent : (n : ℕ) (w : W) → sent (net.recv sock n w).1 ≡ sent w
  pub close_sock_sent : (w : W) → sent (net.close_sock sock w).1 ≡ sent w
  pub open_sent : (dev : _) (w : W) → sent (os.open_dev dev w).1 ≡ sent w
  pub read_sent : (fd : ℤ) (w : W) → sent (os.gpioc_read fd w).1 ≡ sent w
  pub close_sent : (fd : ℤ) (w : W) → sent (os.close fd w).1 ≡ sent w

-- The step back from ignition needs the valve arming switch.
abbrev pub IsGuarded : List Switch → Switch → Bool → Type 0
IsGuarded sws sw b =
    (turning_off_ignition sw b ≡ false)
    ⊎ ((get_or sws valve_arming_switch_idx no_switch).state ≡ true)

module _ {W : Type 0} (os : Devices W) (net : Sockets W) (pad : PadLink)
    (log : Log os net pad.sock) where
  open log use {sent, send_sent, recv_sent, close_sock_sent, open_sent, read_sent, close_sent}

  send_and_check-sent :
      (bs : List ℕ) (check : Run W ℕ) (w : W)
      → ((v : W) → sent (check v).1 ≡ sent v)
      → sent (send_and_check net pad bs check w).1 ≡ sent w ++ bs ∷ []
  unfolding send_and_check pad_send
  send_and_check-sent bs check w quiet =
      ground (arith, send_sent bs w, quiet (net.send pad.sock bs w).1)

  act_callback-sent :
      (id : ℕ) (s b : Bool) (w : W)
      → let sw : Switch = record { act_id = id; kind = cntrl_act_req; state = s } in
        let t = switch_callback net sw pad b w in
        (t.0.1 ≡ record sw { state = b })
        × (sent t.1 ≡ sent w ++ encode_request (request_of sw b) ∷ [])
  unfolding switch_callback packet_header_init check_act_response pad_recv
  act_callback-sent id s b w =
      (refl, send_and_check-sent _ (check_act_response net pad) w (λ v. recv_sent 2 v))

  arm_callback-sent :
      (id : ℕ) (s b : Bool) (w : W)
      → id < 256
      → let sw : Switch = record { act_id = id; kind = cntrl_arm_req; state = s } in
        let t = switch_callback net sw pad b w in
        (t.0.1 ≡ record sw { state = b })
        × (sent t.1 ≡ sent w ++ encode_request (request_of sw b) ∷ [])
  unfolding switch_callback packet_header_init check_arm_response pad_recv
  arm_callback-sent id s b w ok = (
    refl,
    send_and_check-sent _ (check_arm_response net pad) w (λ v. recv_sent 1 v)
        ∙ ap (λ (bs : List ℕ). sent w ++ bs ∷ []) (arm_req_lem id b ok),
  )

  abbrev Sends : Switch → Bool → W → Type 0
  Sends sw b w =
      let t = switch_callback net sw pad b w in
      (t.0.1 ≡ record sw { state = b })
      × (sent t.1 ≡ sent w ++ encode_request (request_of sw b) ∷ [])

  switch_callback-sent : (sw : Switch) (b : Bool) (w : W) → IsSwitch sw → Sends sw b w
  switch_callback-sent sw b w (inl k, ok) =
      let same : sw ≡ record sw { kind = cntrl_act_req } =
        ap (λ (n : ℕ). record sw { kind = n }) k in
      subst (λ (x : Switch). Sends x b w) (sym same) (act_callback-sent sw.act_id sw.state b w)
  switch_callback-sent sw b w (inr k, ok) =
      let same : sw ≡ record sw { kind = cntrl_arm_req } =
        ap (λ (n : ℕ). record sw { kind = n }) k in
      subst (λ (x : Switch). Sends x b w) (sym same) (arm_callback-sent sw.act_id sw.state b w ok)

  -- Nothing happened, or one switch was thrown and sent its request.
  abbrev pub Scanned : ℕ → List Switch × W → List Switch × W → Type 0
  Scanned i p r =
      let sw = get_or p.0 i no_switch in
      ((r.0 ≡ p.0) × (sent r.1 ≡ sent p.1))
      ⊎ ((b : Bool) × (r.0 ≡ set p.0 i (record sw { state = b }))
          × (sent r.1 ≡ sent p.1 ++ encode_request (request_of sw b) ∷ [])
          × IsGuarded p.0 sw b)

  pub flip_switch-sent :
      (i : ℕ) (b : Bool) (p : List Switch × W)
      → IsSwitch (get_or p.0 i no_switch)
      → let r = (flip_switch net pad i b p).1 in
        let sw = get_or p.0 i no_switch in
        (r.0 ≡ set p.0 i (record sw { state = b }))
        × (sent r.1 ≡ sent p.1 ++ encode_request (request_of sw b) ∷ [])
  unfolding flip_switch
  flip_switch-sent i b p ok =
      let (kept, sends) = switch_callback-sent (get_or p.0 i no_switch) b p.1 ok in
      (ap (λ (sw : Switch). set p.0 i sw) kept, sends)

  throw_switch_lem :
      (i : ℕ) (b : Bool) (p : List Switch × W)
      → IsSwitch (get_or p.0 i no_switch)
      → let r = (throw_switch os net pad i b p).1 in
        let sw = get_or p.0 i no_switch in
        (r.0 ≡ set p.0 i (record sw { state = b }))
        × (sent r.1 ≡ sent p.1 ++ encode_request (request_of sw b) ∷ [])
  unfolding throw_switch flip_switch pad_disconnect
  throw_switch_lem i b p ok =
      let sends = switch_callback-sent (get_or p.0 i no_switch) b p.1 ok in
      let w1 : W = (switch_callback net (get_or p.0 i no_switch) pad b p.1).1 in
      ground (arith, sends, close_sock_sent w1)

  take_value-Scanned :
      (i : ℕ) (b : Bool) (p : List Switch × W)
      → IsSwitch (get_or p.0 i no_switch)
      → Scanned i p (take_value os net pad i b p).1
  unfolding take_value
  take_value-Scanned i b p ok =
      let sw : Switch = get_or p.0 i no_switch in
      let thrown = throw_switch_lem i b p ok in
      elim (Bool-cases (same_state b sw.state)) [
        | inl e ↦ rw (e, take_value) (inl (refl, refl))
        | inr e ↦ elim (Bool-cases (turning_off_ignition sw b)) [
          | inr off ↦
              rw (e, take_value) (rw (off, take_value) (inr (b, thrown.0, thrown.1, inl off)))
          | inl off ↦ elim (Bool-cases (get_or p.0 valve_arming_switch_idx no_switch).state) [
            | inl on ↦
                rw (e, take_value)
                  (rw (off, take_value)
                    (rw (on, take_value) (inr (b, thrown.0, thrown.1, inr refl))))
            | inr on ↦
                rw (e, take_value) (rw (off, take_value) (rw (on, take_value) (inl (refl, refl))))
          ]
        ]
      ]

  read_pin-sent : (dev : String) (w : W) → sent (read_pin os net pad dev w).1 ≡ sent w
  unfolding read_pin
  read_pin-sent dev w =
      let fd : ℤ = (os.open_dev dev w).0 in
      let w1 : W = (os.open_dev dev w).1 in
      ground (arith, open_sent dev w, read_sent fd w1, close_sent fd (os.gpioc_read fd w1).1)

  -- What happens after the pin was read happens to a log that is as it was.
  Scanned-read :
      (i : ℕ) (p : List Switch × W) (w1 : W) (r : List Switch × W)
      → sent w1 ≡ sent p.1
      → Scanned i (p.0, w1) r
      → Scanned i p r
  Scanned-read i p w1 r e (inl (same, quiet)) = inl (same, quiet ∙ e)
  Scanned-read i p w1 r e (inr (b, flips, sends, ok)) = inr (b, flips, rw (sym e) sends, ok)

  -- A switch of one of the two kinds is scanned: either nothing is sent and no switch changes, or the switch takes the state read off
  -- its pin and exactly its request is sent; a step back from `ARMED_IGNITION`, which asks for `ARMED_VALVES`,
  -- only while the valve arming switch is on.
  pub scan_switch-Scanned :
      (i : ℕ) (p : List Switch × W)
      → IsSwitch (get_or p.0 i no_switch)
      → Scanned i p (scan_switch os net pad i p).1
  unfolding scan_switch
  scan_switch-Scanned i p ok = elim (Option-cases (gpio_dev (get_or p.0 i no_switch))) [
    | inl e ↦ rw (e, scan_switch) (inl (refl, refl))
    | inr (dev, e) ↦
        (let w1 : W = (read_pin os net pad dev p.1).1 in
          elim (Option-cases (read_pin os net pad dev p.1).0) [
            | inl f ↦ rw (e, scan_switch) (rw (f, scan_switch) (inl (refl, read_pin-sent dev p.1)))
            | inr (b, f) ↦
                rw (e, scan_switch)
                  (rw (f, scan_switch)
                    (Scanned-read i p w1 _ (read_pin-sent dev p.1)
                      (take_value-Scanned i b (p.0, w1) ok)))
          ])
  ]
