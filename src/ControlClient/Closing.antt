-- ===== src/ControlClient/Closing.antt =====
-- Which sockets the control client (control_client/src/control_client_main.c) holds open in the rounds of a
-- connection: a lost one is closed before the next.
use Prim.Native.String.{String}
use hysim.Base.{
  ℕ, zero, suc, ◌+◌, ◌≡◌, refl, ◌∙◌, Bool, false, not, ◌&&◌, List, ◌∷◌, ◌++◌, ℤ, Run, arith, get_or,
  if◌then◌else◌, if-elim, Option-cases, Bool-cases, inl, inr, ◌==◌,
}
use hysim.Packet.{type_cntrl, cntrl_act_req, cntrl_arm_req}
use hysim.Packet.Wire.{encode_header, encode_act_req, encode_arm_req}
use hysim.Os.{Devices, Signals, Sockets, SockOpt}
use hysim.Controller.Descriptors.{one}
use hysim.ControlClient.{PadLink, pad_send, pad_recv, pad_disconnect}
use hysim.ControlClient.Switches.{
  Switch, arm_req_level, check_arm_response, check_act_response, send_and_check, switch_callback,
}
use hysim.ControlClient.Panel.{
  no_switch, flip_switch, gpio_dev, turning_off_ignition, valve_arming_switch_idx, same_state,
  read_pin, lost_connection, throw_switch, take_value, scan_switch, scan_pass, scan_passes,
}
use hysim.ControlClient.Loop.{PanelBuild, keys, pins}

-- The open sockets, the last opened in front. `socket` opens one unless it fails, `close` of the last opened
-- works, and no other call of the program opens or closes one.
pub record OpenSockets {W : Type 0} (net : Sockets W) (signals : Signals W) : Type 0 where
  pub opens : W → List ℤ
  pub socket_opens : (w : W) → let (fd, w1) = net.socket_stream w in opens w1 ≡ one fd ++ opens w
  pub close_sock_opens :
      (fd : ℤ) (rest : List ℤ) (w : W)
      → opens w ≡ fd ∷ rest
      → let (err, w1) = net.close_sock fd w in opens w1 ≡ rest
  pub setsockopt_opens : (fd : ℤ) (o : SockOpt) (w : W) → opens (net.setsockopt fd o w).1 ≡ opens w
  pub inet_pton_opens : (text : List ℕ) (w : W) → opens (net.inet_pton text w).1 ≡ opens w
  pub connect_opens :
      (fd : ℤ) (addr port : ℕ) (w : W) → opens (net.connect fd addr port w).1 ≡ opens w
  pub sleep_opens : (n : ℕ) (w : W) → opens (net.sleep n w).1 ≡ opens w
  pub recv_opens : (fd : ℤ) (n : ℕ) (w : W) → opens (net.recv fd n w).1 ≡ opens w
  pub send_opens : (fd : ℤ) (bs : List ℕ) (w : W) → opens (net.send fd bs w).1 ≡ opens w
  pub register_opens : (fd : ℤ) (i : ℕ) (w : W) → opens (signals.gpioc_register fd i w).1 ≡ opens w
  pub sigwaitinfo_opens : (w : W) → opens (signals.sigwaitinfo w).1 ≡ opens w
  pub debounce_opens : (us : ℕ) (w : W) → opens (signals.debounce_us us w).1 ≡ opens w
  pub getc_opens : (w : W) → opens (signals.getc w).1 ≡ opens w

-- Pins are no sockets.
pub record NoSockets {W : Type 0} (opens : W → List ℤ) (os : Devices W) : Type 0 where
  pub open_opens : (dev : String) (w : W) → opens (os.open_dev dev w).1 ≡ opens w
  pub read_opens : (fd : ℤ) (w : W) → opens (os.gpioc_read fd w).1 ≡ opens w
  pub close_opens : (fd : ℤ) (w : W) → opens (os.close fd w).1 ≡ opens w

abbrev pub BuildOpens : {W : Type 0} (opens : W → List ℤ) → PanelBuild W → Type 0
BuildOpens opens keys = Unit {0}
BuildOpens opens (pins os) = NoSockets opens os

module _ {W : Type 0} (net : Sockets W) (signals : Signals W) (sockets : OpenSockets net signals)
    (before : List ℤ) (pad : PadLink) where
  open sockets use {
    opens, close_sock_opens, recv_opens, send_opens, sigwaitinfo_opens, debounce_opens, getc_opens,
  }

  send_and_check-opens :
      (bs : List ℕ) (check : Run W ℕ) (w : W)
      → ((v : W) → opens (check v).1 ≡ opens v)
      → opens (send_and_check net pad bs check w).1 ≡ opens w
  unfolding send_and_check pad_send
  send_and_check-opens bs check w keeps =
      let w1 : W = (net.send pad.sock bs w).1 in ground (arith, send_opens pad.sock bs w, keeps w1)

  switch_callback-opens :
      (sw : Switch) (b : Bool) (w : W) → opens (switch_callback net sw pad b w).1 ≡ opens w
  unfolding switch_callback check_act_response check_arm_response pad_recv
  switch_callback-opens sw b w =
      let hdr : List ℕ = encode_header (record { type = type_cntrl; subtype = sw.kind }) in
      let act : List ℕ = encode_act_req (record { id = sw.act_id; state = if b then 1 else 0 }) in
      let arm : List ℕ = encode_arm_req (record { level = arm_req_level sw.act_id b }) in
      let Keeps = λ (m : Run W (ℤ × Switch)). opens (m w).1 ≡ opens w in
      if-elim {A = Run W (ℤ × Switch)} (sw.kind == cntrl_act_req) Keeps
        (λ e.
          send_and_check-opens (hdr ++ act) (check_act_response net pad) w (recv_opens pad.sock 2))
        (λ e.
          if-elim {A = Run W (ℤ × Switch)} (sw.kind == cntrl_arm_req) Keeps
            (λ f.
              send_and_check-opens (hdr ++ arm) (check_arm_response net pad) w
                (recv_opens pad.sock 1))
            (λ f. refl))

  pub flip_switch-opens :
      (i : ℕ) (b : Bool) (p : List Switch × W) → opens (flip_switch net pad i b p).1.1 ≡ opens p.1
  unfolding flip_switch
  flip_switch-opens i b p = switch_callback-opens (get_or p.0 i no_switch) b p.1

  disconnect-opens :
      (w : W) → opens w ≡ one pad.sock ++ before → opens (pad_disconnect net pad w).1 ≡ before
  unfolding pad_disconnect
  disconnect-opens w h = ground (arith, h, close_sock_opens pad.sock before w)

  -- The connection's socket is open, or it is closed and the client is to connect again.
  abbrev pub Ends : Bool → W → Type 0
  Ends lost w = opens w ≡ (if lost then before else one pad.sock ++ before)

  abbrev pub Kept : Bool × (List Switch × W) → Type 0
  Kept t = Ends t.0 t.1.1

  module _ (os : Devices W) (box : NoSockets opens os) where
    open box use {open_opens, read_opens, close_opens}

    read_pin-opens : (dev : String) (w : W) → opens (read_pin os net pad dev w).1 ≡ opens w
    unfolding read_pin
    read_pin-opens dev w =
        let (fd, w1) = os.open_dev dev w in
        let w2 : W = (os.gpioc_read fd w1).1 in
        ground (arith, open_opens dev w, read_opens fd w1, close_opens fd w2)

    throw_switch-opens :
        (i : ℕ) (b : Bool) (p : List Switch × W)
        → Ends false p.1
        → Kept (throw_switch os net pad i b p)
    unfolding throw_switch
    throw_switch-opens i b p h =
        let (err, p1) = flip_switch net pad i b p in
        let still = flip_switch-opens i b p ∙ h in
        if-elim (lost_connection os net pad err) Kept (λ e. disconnect-opens p1.1 still)
          (λ e. still)

    take_value-opens :
        (i : ℕ) (b : Bool) (p : List Switch × W)
        → Ends false p.1
        → Kept (take_value os net pad i b p)
    unfolding take_value
    take_value-opens i b p h =
        let sw : Switch = get_or p.0 i no_switch in
        if-elim (same_state b sw.state) Kept (λ e. h)
          (λ e.
            if-elim
              (turning_off_ignition sw b
                && not (get_or p.0 valve_arming_switch_idx no_switch).state)
              Kept (λ blocked. h) (λ free. throw_switch-opens i b p h))

    scan_switch-opens :
        (i : ℕ) (p : List Switch × W) → Ends false p.1 → Kept (scan_switch os net pad i p)
    unfolding scan_switch
    scan_switch-opens i p h = elim (Option-cases (gpio_dev (get_or p.0 i no_switch))) [
      | inl e ↦ rw (e, scan_switch) h
      | inr (dev, e) ↦
          (let (value, w1) = read_pin os net pad dev p.1 in
            let still = read_pin-opens dev p.1 ∙ h in
            elim (Option-cases value) [
              | inl f ↦ rw (e, scan_switch) (rw (f, scan_switch) still)
              | inr (b, f) ↦
                  rw (e, scan_switch) (rw (f, scan_switch) (take_value-opens i b (p.0, w1) still))
            ])
    ]

    scan_pass-opens :
        (n i : ℕ) (p : List Switch × W) → Ends false p.1 → Kept (scan_pass os net pad n i p)
    unfolding scan_pass
    scan_pass-opens zero i p h = h
    scan_pass-opens (suc n) i p h =
        let (lost, p1) = scan_switch os net pad i p in
        let first = scan_switch-opens i p h in
        elim (Bool-cases lost) [
          | inl e ↦ rw (e, scan_pass) (ground (arith, first, e))
          | inr e ↦ rw (e, scan_pass) (scan_pass-opens n (i + 1) p1 (ground (arith, first, e)))
        ]

    pub scan_passes-opens :
        (k : ℕ) (p : List Switch × W) → Ends false p.1 → Kept (scan_passes os net pad k p)
    unfolding scan_passes
    scan_passes-opens zero p h = h
    scan_passes-opens (suc k) p h =
        let (lost, p1) = scan_pass os net pad 20 0 p in
        let first = scan_pass-opens 20 0 p h in
        elim (Bool-cases lost) [
          | inl e ↦ rw (e, scan_passes) (ground (arith, first, e))
          | inr e ↦ rw (e, scan_passes) (scan_passes-opens k p1 (ground (arith, first, e)))
        ]
