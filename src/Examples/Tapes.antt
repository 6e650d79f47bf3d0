-- ===== src/Examples/Tapes.antt =====
-- The made-up telemetry of the pad server on a world that is a list of lines.
use hysim.Base.{
  ℕ, ◌≡◌, ◌+◌, suc, refl, ap, Bool, true, false, List, [], ◌∷◌, ◌++◌, pos, Option, some, none,
  arith, length, return, inl, inr,
}
use hysim.Os.{Datagrams, Files}
use hysim.Libc.Decimal.{digits}
use hysim.Telemetry.{TelemetrySock}
use hysim.MockTelemetry.{crash, file_rounds}
use hysim.MockTelemetry.Random.{RandomBox}
use hysim.MockTelemetry.Lines.{CsvLine, Replay, HasComma, datagrams, texts, AllCsvLines}
use hysim.MockTelemetry.Replay.{replay-crashes}

-- What is unread and what was sent.
pub record Tape : Type 0 where
  pub unread : List (List ℕ)
  pub sent : List (List ℕ)

abbrev head_of : List (List ℕ) → Option (List ℕ)
head_of [] = none
head_of (l ∷ ls) = some l

abbrev tail_of : List (List ℕ) → List (List ℕ)
tail_of [] = []
tail_of (l ∷ ls) = ls

abbrev is_empty : List (List ℕ) → Bool
is_empty [] = true
is_empty (l ∷ ls) = false

pub is_empty_lem : (ls : List (List ℕ)) → is_empty ls ≡ true → ls ≡ []
is_empty_lem [] e = refl
is_empty_lem (l ∷ ls) e = ground (arith, e)

abbrev pub tape_files : Files Tape
tape_files = record {
  fopen = λ name. return (some 3);
  ferror = λ f. return false;
  feof = λ f w. (is_empty w.unread, w);
  rewind = λ f. return tt;
  fgets = λ f n w. (head_of w.unread, record w { unread = tail_of w.unread });
  rand = return 3;
  rand_max = 7;
  usleep_us = λ n. return tt;
}

abbrev pub tape_datagrams : Datagrams Tape
tape_datagrams = record {
  dgram_errno = λ w. 5;
  clock_gettime = return (12, 345678901);
  sendmsg = λ fd bs w. (pos (length bs), record w { sent = w.sent ++ bs ∷ [] });
  peek = λ fd n. return none;
  recvfrom = λ fd n. return none;
  close_dgram = λ fd. return (pos 0);
}

abbrev pub telem : TelemetrySock
telem = record { sock = pos 4; addr = 0; sin_port = 50002 }

abbrev pub replay : Replay tape_datagrams tape_files telem.sock 3
replay = record {
  sent = λ w. w.sent;
  unread = λ w. w.unread;
  ferror_ok = λ w. refl;
  ferror_keeps = λ w. (refl, refl);
  feof_keeps = λ w. (refl, refl);
  feof_unread = λ w e. is_empty_lem w.unread e;
  fgets_line = λ w l ls e short. (ap head_of e, refl, ap tail_of e);
  sendmsg_keeps = λ bs w. (refl, refl);
  usleep_keeps = λ n w. (refl, refl);
}

-- "12,7,3\n" and "5,644\n".
abbrev pub lines : List CsvLine
lines =
    record { time = 12; value = 7; trailer = 44 ∷ 51 ∷ 10 ∷ [] }
    ∷ record { time = 5; value = 644; trailer = 10 ∷ [] }
    ∷ []

pub lines-AllCsvLines : AllCsvLines lines
unfolding digits
lines-AllCsvLines = (
  (omega arith, omega arith, refl, omega arith),
  ((omega arith, omega arith, refl, omega arith), tt),
)

no_comma : ¬ HasComma (10 ∷ [])
no_comma (inl e) = omega (arith, e)
no_comma (inr h) = h

-- An empty line behind them.
replay-crashes_example :
    let w : Tape = record { unread = texts lines ++ (10 ∷ []) ∷ []; sent = [] } in
    let r = file_rounds tape_datagrams tape_files (length lines + suc 4) telem 3 w in
    (r.0 ≡ crash) × (r.1.sent ≡ datagrams lines)
replay-crashes_example =
    replay-crashes tape_datagrams tape_files telem 3 replay lines (10 ∷ []) [] 4 _ refl
      lines-AllCsvLines (omega arith) no_comma

abbrev box : RandomBox tape_datagrams tape_files telem.sock
box = record {
  sent = λ w. w.sent;
  rand_max_positive = omega arith;
  rand_bound = λ w. omega arith;
  rand_sent = λ w. refl;
  clock_sent = λ w. refl;
  usleep_sent = λ n w. refl;
  sendmsg_sent = λ bs w. refl;
}
