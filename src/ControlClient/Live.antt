-- ===== src/ControlClient/Live.antt =====
-- The loops of the control client (control_client/src/control_client_main.c, both builds) against the receive loop
-- of the pad server (pad_server/src/controller.c), on a network that hands each request to the server.
use Prim.Native.String.{String}
use mathlib.Core.List.{append-nil, append_assoc}
use hysim.Base.{ℕ, ◌≡◌, refl, sym, subst, ap, ap₂, ◌∙◌, Bool, List, [], ◌∷◌, ◌++◌, ℤ, get_or}
use hysim.Os.{Devices, Locks, Sockets, Signals}
use hysim.PadState.{PadState}
use hysim.Controller.{Controller}
use hysim.Controller.Channel.{Channel}
use hysim.Controller.Machine.{react, view, Pad}
use hysim.Controller.Session.{IsReady}
use hysim.ControlClient.{PadLink}
use hysim.ControlClient.Switches.{Switch}
use hysim.ControlClient.Panel.{no_switch, flip_switch}
use hysim.ControlClient.Loop.{PanelBuild, keys, pins, panel_rounds}
use hysim.ControlClient.Replies.{request_of}
use hysim.ControlClient.Guard.{IsGuarded}
use hysim.ControlClient.Box.{IsBox, thrown}
use hysim.ControlClient.ArmingKey.{play, play_++, play-IsBox, requests, requests_++}
use hysim.ControlClient.Account.{Account}
use hysim.ControlClient.Watch.{Covers, panel_rounds-Rel}
use hysim.ControlClient.Lockstep.{Ends, IsIdle, network}
use hysim.ControlClient.Operator.{answers, flip_switch-IsIdle}

abbrev pub Rule : Type 1
Rule = List Switch → ℕ → Bool → Type 0

-- Which throws a build makes: with pins the step back from ignition is guarded, with keys none is.
abbrev pub rule_of : {W : Type 0} → PanelBuild W → Rule
rule_of keys sws i b = Unit {0}
rule_of (pins os) sws i b = IsGuarded sws (get_or sws i no_switch) b

abbrev pub AllMeet : Rule → List (ℕ × Bool) → List Switch → Type 0
AllMeet g [] sws = Unit {0}
AllMeet g ((i, b) ∷ ts) sws = g sws i b × AllMeet g ts (thrown i b sws)

AllMeet-++ :
    (g : Rule) (ts us : List (ℕ × Bool)) (sws : List Switch)
    → AllMeet g ts sws
    → AllMeet g us (play ts sws)
    → AllMeet g (ts ++ us) sws
AllMeet-++ g [] us sws k l = l
AllMeet-++ g ((i, b) ∷ ts) us sws (first, k) l = (first, AllMeet-++ g ts us (thrown i b sws) k l)

answers-++ :
    {W : Type 0} (net : Sockets W) (ts us : List (ℕ × Bool)) (sws : List Switch) (pad : Pad)
    → (answers net (ts ++ us) sws pad).1
      ≡ (answers net us (play ts sws) (answers net ts sws pad).1).1
answers-++ net [] us sws pad = refl
answers-++ net ((i, b) ∷ ts) us sws pad =
    answers-++ net ts us (thrown i b sws) (react (request_of (get_or sws i no_switch) b) pad).0

module _ {S : Type 0} (locks : Locks S) (os : Devices S) (server : Sockets S) (c : Controller)
    (ch : Channel locks server c.client) (deliver : List ℕ → S → S)
    (deliver_line : (bs : List ℕ) (w : S)
      → ch.line (deliver bs w) ≡ ((ch.line w).0 ++ bs, (ch.line w).1))
    (base : Sockets (Ends S)) where
  abbrev net : Sockets (Ends S)
  net = network locks os server c ch deliver base

  abbrev Idle : Ends S → Type 0
  Idle e = IsIdle locks os server c ch deliver e

  -- From `p` to `r` switches were thrown, their requests and no others were sent, and the server is where the
  -- abstract pad is after them.
  pub record Played (g : Rule) (p r : List Switch × Ends S) : Type 0 where
    pub throws : List (ℕ × Bool)
    pub plays : r.0 ≡ play throws p.0
    pub sends : r.1.sent ≡ p.1.sent ++ requests throws p.0
    pub meets : AllMeet g throws p.0
    pub machine : view r.1.pad.0 ≡ (answers net throws p.0 (view p.1.pad.0)).1

  -- A call of the client that sends nothing, and leaves the acknowledgements and the server alone.
  abbrev pub Apart : Ends S → Ends S → Type 0
  Apart e f = (f.pad ≡ e.pad) × (f.acks ≡ e.acks) × (f.sent ≡ e.sent)

  pub Apart-IsIdle : (e f : Ends S) → Apart e f → Idle e → Idle f
  Apart-IsIdle e f (pads, acks, _) idle = record {
    no_acks = acks ∙ idle.no_acks;
    no_bytes = ap (λ (p : PadState S × S). (ch.line p.1).0) pads ∙ idle.no_bytes;
    ready = subst (λ (p : PadState S × S). IsReady locks os server c ch p) (sym pads) idle.ready;
  }

  pub live_trans :
      (g : Rule) (p q r : List Switch × Ends S) → Played g p q → Played g q r → Played g p r
  live_trans g p q r k l = record {
    throws = k.throws ++ l.throws;
    plays = l.plays ∙ ap (play l.throws) k.plays ∙ sym (play_++ k.throws l.throws p.0);
    sends =
        l.sends
        ∙ ap₂ (λ (out : List (List ℕ)) (sws : List Switch). out ++ requests l.throws sws) k.sends
            k.plays
        ∙ append_assoc p.1.sent (requests k.throws p.0) (requests l.throws (play k.throws p.0))
        ∙ ap (λ (qs : List (List ℕ)). p.1.sent ++ qs) (sym (requests_++ k.throws l.throws p.0));
    meets = AllMeet-++ g k.throws l.throws p.0 k.meets (subst (AllMeet g l.throws) k.plays l.meets);
    machine =
        l.machine
        ∙ ap₂ (λ (sws : List Switch) (pad : Pad). (answers net l.throws sws pad).1) k.plays
            k.machine
        ∙ sym (answers-++ net k.throws l.throws p.0 (view p.1.pad.0));
  }

  pub record ApartPins (box : Devices (Ends S)) : Type 0 where
    pub open_apart : (dev : String) (e : Ends S) → Apart e (box.open_dev dev e).1
    pub read_apart : (fd : ℤ) (e : Ends S) → Apart e (box.gpioc_read fd e).1
    pub close_apart : (fd : ℤ) (e : Ends S) → Apart e (box.close fd e).1

  abbrev pub ApartBuild : PanelBuild (Ends S) → Type 0
  ApartBuild keys = Unit {0}
  ApartBuild (pins box) = ApartPins box

  module _ (link : PadLink) where
    -- The callback of a switch that meets the rule.
    pub live_flip :
        (g : Rule) (i : ℕ) (b : Bool) (p : List Switch × Ends S)
        → IsBox p.0
        → Idle p.1
        → g p.0 i b
        → let r = (flip_switch net link i b p).1 in Played g p r × Idle r.1
    live_flip g i b p ok idle meet =
        let (_, switches, idle', state, sends) =
          flip_switch-IsIdle locks os server c ch deliver deliver_line base link i b p.0 p.1 ok
            idle in
        (
          record {
            throws = (i, b) ∷ [];
            plays = switches;
            sends = sends;
            meets = (meet, tt);
            machine = state;
          },
          idle',
        )

    abbrev pub live_account : Rule → Account net link
    live_account g = record {
      Good = λ p. IsBox p.0 × Idle p.1;
      Rel = λ p r. (Idle p.1 → IsBox p.0 → Played g p r × Idle r.1);
      Allowed = g;
      Quiet = Apart;
      still = λ p idle ok. (
        record {
          throws = [];
          plays = refl;
          sends = sym (append-nil p.1.sent);
          meets = tt;
          machine = refl;
        },
        idle,
      );
      trans = λ p q r k l idle ok.
          let (first, idle') = k idle ok in
          let (second, idle'') =
            l idle' (subst IsBox (sym first.plays) (play-IsBox first.throws p.0 ok)) in
          (live_trans g p q r first second, idle'');
      unseen = λ sws w v apart idle ok. (
        record {
          throws = [];
          plays = refl;
          sends = apart.2 ∙ sym (append-nil w.sent);
          meets = tt;
          machine = ap (λ (x : PadState S × S). view x.0) apart.0;
        },
        Apart-IsIdle w v apart idle,
      );
      flips = λ i b p good meet idle ok. live_flip g i b p ok idle meet;
      keeps = λ p r k good.
          let (first, idle') = k good.1 good.0 in
          (subst IsBox (sym first.plays) (play-IsBox first.throws p.0 good.0), idle');
    }

    -- Whatever the loops do besides: it leaves the connection and the server alone.
    pub record ApartCalls (signals : Signals (Ends S)) : Type 0 where
      pub close_sock_apart : (e : Ends S) → Apart e (base.close_sock link.sock e).1
      pub sigwaitinfo_apart : (e : Ends S) → Apart e (signals.sigwaitinfo e).1
      pub debounce_apart : (us : ℕ) (e : Ends S) → Apart e (signals.debounce_us us e).1
      pub getc_apart : (e : Ends S) → Apart e (signals.getc e).1

    module _ (signals : Signals (Ends S)) (calls : ApartCalls signals) where
      covered :
          (build : PanelBuild (Ends S))
          → ApartBuild build
          → Covers net link signals (live_account (rule_of build)) build
      covered keys apart = record { getc_quiet = calls.getc_apart; free = λ sws i b. tt }
      covered (pins box) apart = record {
        open_quiet = apart.open_apart;
        read_quiet = apart.read_apart;
        close_quiet = apart.close_apart;
        close_sock_quiet = calls.close_sock_apart;
        sigwaitinfo_quiet = calls.sigwaitinfo_apart;
        debounce_quiet = calls.debounce_apart;
        guarded = λ sws i b guarded. guarded;
      }

      pub panel_rounds-Idle :
          (build : PanelBuild (Ends S)) (n fuel : ℕ) (p : List Switch × Ends S)
          → ApartBuild build
          → IsBox p.0
          → Idle p.1
          → let r = (panel_rounds net signals link build n fuel p).1 in
            Played (rule_of build) p r × Idle r.1
      panel_rounds-Idle build n fuel p apart ok idle =
          panel_rounds-Rel net link signals (live_account (rule_of build)) build n fuel p
            (covered build apart) (ok, idle) idle ok

      -- Both builds, from the switches of the table in any states, with nothing on its way, granted locks and drivers that
      -- never fail, in any number of rounds, whatever is typed and whatever the pins read: some switches were thrown,
      -- they are as they were thrown last, each throw met the rule of the build, and the pad server's level and
      -- actuators are those of the abstract machine after the requests of the throws.
      pub panel_rounds-Played :
          (build : PanelBuild (Ends S)) (n fuel : ℕ) (p : List Switch × Ends S)
          → ApartBuild build
          → IsBox p.0
          → IsIdle locks os server c ch deliver p.1
          → Played
              (rule_of build)
              p
              (panel_rounds
                (network locks os server c ch deliver base)
                signals
                link
                build
                n
                fuel
                p).1
      panel_rounds-Played build n fuel p apart ok idle =
          (panel_rounds-Idle build n fuel p apart ok idle).0
