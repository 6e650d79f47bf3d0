-- ===== src/PadServer/Options.antt =====
-- What the options given to the pad server (pad_server/src/pad_server_main.c) come to.
use hysim.Base.{is_one, ℕ, ◌≡◌, refl, true, false, some, List, [], ◌∷◌, arith, if◌then◌else◌, ◌==◌}
use hysim.Os.{Sockets}
use hysim.Libc.{Opt, strtoul, u16}
use hysim.PadServer.{ServerArgs, ready, apply_opt, parse_opts}

-- The argument of the last option with this letter, or else the value there was.
abbrev pub last_arg : {A : Type 0} → (List ℕ → A) → ℕ → List Opt → A → A
last_arg read letter [] before = before
last_arg read letter (o ∷ os) before =
    last_arg read letter os (if o.letter == letter then read o.optarg else before)

abbrev pub port_of : List ℕ → ℕ
port_of text = u16 (strtoul text)

abbrev pub text_of : List ℕ → List ℕ
text_of text = text

-- Each option by itself: the last one counts.
abbrev pub args_of : List Opt → ServerArgs → ServerArgs
args_of opts args = record {
  telemetry = record {
    port = last_arg port_of 116 opts args.telemetry.port;
    addr = last_arg text_of 97 opts args.telemetry.addr;
    data_file = last_arg some 102 opts args.telemetry.data_file;
  };
  controller = record { port = last_arg port_of 99 opts args.controller.port };
}

module _ {W : Type 0} (net : Sockets W) where
  -- No request for help, no unknown option, no address that `inet_pton` refuses.
  abbrev pub IsAccepted : Opt → Type 0
  IsAccepted o =
      ((o.letter == 104) ≡ false)
      × ((o.letter == 63) ≡ false)
      × ((w : W) → (o.letter == 97) ≡ true → is_one (net.inet_pton o.optarg w).0.0 ≡ true)

  abbrev pub AllAccepted : List Opt → Type 0
  AllAccepted [] = Unit {0}
  AllAccepted (o ∷ os) = IsAccepted o × AllAccepted os

  apply_opt-ready :
      (o : Opt) (args : ServerArgs) (w : W)
      → IsAccepted o
      → (apply_opt net o args w).0 ≡ ready (args_of (o ∷ []) args)
  unfolding apply_opt
  apply_opt-ready o args w ok = ground (arith, ok.0, ok.1, ok.2 w)

  -- If no option asks for help or is unknown and `inet_pton` takes every address, the option loop ends with
  -- every setting from the last option that names it, or else as it was.
  pub parse_opts-args_of :
      (opts : List Opt) (args : ServerArgs) (w : W)
      → AllAccepted opts
      → (parse_opts net opts args w).0 ≡ ready (args_of opts args)
  unfolding parse_opts
  parse_opts-args_of [] args w ok = refl
  parse_opts-args_of (o ∷ os) args w ok =
      rw (apply_opt-ready o args w ok.0, parse_opts)
        (parse_opts-args_of os (args_of (o ∷ []) args) _ ok.1)
