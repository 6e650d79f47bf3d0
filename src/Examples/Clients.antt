-- ===== src/Examples/Clients.antt =====
-- The clients over worlds that are known.
use hysim.Base.{
  ℕ, zero, suc, ◌≤◌, replicate, length, some, ◌≡◌, ◌⊎◌, refl, true, false, List, [], ◌∷◌, ◌++◌, pos,
  arith, return, take, drop,
}
use hysim.Packet.Message.{cont, act}
use hysim.Os.{Signals}
use hysim.MockTelemetry.Lines.{texts}
use hysim.TelemClient.{actuator, continuity_sensor}
use hysim.TelemClient.Queue.{Delivery, datagrams_of}
use hysim.TelemClient.{Vars}
use hysim.TelemClient.Sizes.{IsSized, Sparing, rounds-IsSized, vars_after}
use hysim.ControlClient.Switches.{Switch}
use hysim.ControlClient.Panel.{commands_table, press_key, switches_table}
use hysim.ControlClient.Keys.{press_key-turns, turn_over}
use hysim.ControlClient.Loop.{register_pins}
use hysim.ControlClient.Pins.{Registry, pins_of, register_pins-registered}
use hysim.Examples.Systems.{Cable, datagrams, devices_with, first_of, quiet, sockets}
use hysim.Examples.Screens.{inbox, listener}
use hysim.Examples.Boxes.{link}
use hysim.Examples.Tapes.{Tape, lines}

-- A continuity with something behind it, and an actuator.
abbrev deliveries : List Delivery
deliveries =
    record {
      body = cont (record { time = 9; state = 1 });
      line = continuity_sensor true 9;
      behind = 1 ∷ 2 ∷ [];
    }
    ∷ record {
      body = act (record { time = 10; id = 5; state = 0 });
      line = actuator 5 false 10;
      behind = [];
    }
    ∷ []

abbrev start_tape : Tape
start_tape = record { unread = texts lines; sent = [] }

-- The key of the first command.
press_key-turns_example :
    let p : List Switch × Cable = (switches_table, quiet) in
    let r = press_key sockets link 113 commands_table p in
    (r.1 ≡ turn_over sockets link 0 p) × (r.0 ≡ true)
press_key-turns_example =
    press_key-turns sockets link 113 0 98 19 [] (drop 1 commands_table) (take 19 commands_table)
      (switches_table, quiet) tt
      (
        refl,
        (
          refl,
          (
            refl,
            (
              refl,
              (
                refl,
                (
                  refl,
                  (
                    refl,
                    (
                      refl,
                      (
                        refl,
                        (
                          refl,
                          (
                            refl,
                            (refl, (refl, (refl, (refl, (refl, (refl, (refl, (refl, tt)))))))),
                          ),
                        ),
                      ),
                    ),
                  ),
                ),
              ),
            ),
          ),
        ),
      )
      refl

abbrev registering : Signals (List ℕ)
registering = record {
  gpioc_register = λ fd i w. (pos 0, w ++ i ∷ []);
  sigwaitinfo = return (pos 10);
  debounce_us = λ n. return tt;
  getc = return 10;
}

abbrev registry : Registry (devices_with (pos 3)) registering
registry = record {
  registered = λ w. w;
  open_registered = λ dev w. refl;
  close_registered = λ fd w. refl;
  register_registered = λ fd i w. refl;
}

register_pins-registered_example :
    let r = register_pins (devices_with (pos 3)) registering 0 switches_table [] in
    ((r.0 ≡ true) × (r.1 ≡ pins_of 0 switches_table))
    ⊎ ((r.0 ≡ false)
        × (xs : List ℕ) × (y : ℕ) × (ys : List ℕ) × (pins_of 0 switches_table ≡ xs ++ y ∷ ys)
        × (r.1 ≡ xs))
register_pins-registered_example =
    register_pins-registered (devices_with (pos 3)) registering registry 0 switches_table []

take-length : (n : ℕ) (xs : List ℕ) → length (take n xs) ≤ n
take-length zero xs = omega arith
take-length (suc n) [] = omega arith
take-length (suc n) (x ∷ xs) = omega (arith, take-length n xs)

first_of-length :
    (n : ℕ) (ds : List (List ℕ)) (bs : List ℕ) → first_of n ds ≡ some bs → length bs ≤ n
first_of-length n [] bs e = ground (arith, e)
first_of-length n (d ∷ ds) bs e = ground (arith, e, take-length n d)

abbrev sparing : Sparing datagrams listener.sock
sparing = record {
  peek_bound = λ n w bs e. first_of-length n w.inbox bs e;
  recvfrom_bound = λ n w bs e. first_of-length n w.inbox bs e;
}

abbrev sized : Vars
sized = record { hdr = 0 ∷ 0 ∷ []; buffer = replicate 50 0 }

rounds-IsSized_example : IsSized (
    vars_after datagrams listener sparing 2 sized
      (record quiet { inbox = datagrams_of deliveries }))
rounds-IsSized_example =
    rounds-IsSized datagrams listener sparing 2 sized
      (record quiet { inbox = datagrams_of deliveries }) (refl, refl)
