-- ===== src/MockTelemetry/Csv.antt =====
-- Lines of a data file, in `mock_telemetry` of pad_server/src/telemetry.c.
use hysim.Base.{
  ℕ, suc, ◌<◌, ◌≡◌, refl, ◌∙◌, Bool-cases, inl, inr, List, [], ◌∷◌, ◌++◌, some, ◌==◌, arith, length,
}
use hysim.Packet.{u32}
use hysim.Packet.RoundTrip.{IsU32}
use hysim.Libc.{split_at, skip_delimiters, strtok_r, strtoul}
use hysim.Libc.Decimal.{
  decimal, StartsNoDigit, strtoul-decimal, AllDigits, digits-value, length-digits,
}
use hysim.MockTelemetry.{parse_line}

split_at-digits :
    (ds rest : List ℕ)
    → AllDigits ds
    → split_at 44 (ds ++ rest) ≡ (ds ++ (split_at 44 rest).0, (split_at 44 rest).1)
unfolding split_at
split_at-digits [] rest all = refl
split_at-digits (d ∷ ds) rest all = ground (arith, all.0, split_at-digits ds rest all.1)

split_at-StartsNoDigit : (rest : List ℕ) → StartsNoDigit rest → StartsNoDigit (split_at 44 rest).0
unfolding split_at
split_at-StartsNoDigit [] stop = tt
split_at-StartsNoDigit (c ∷ cs) stop = elim (Bool-cases (c == 44)) [
  | inl e ↦ rw (e, split_at) tt
  | inr e ↦ rw (e, split_at) stop
]

-- Digits come first: nothing is skipped.
strtok_r-digits :
    (ds rest : List ℕ)
    → AllDigits ds
    → 0 < length ds
    → strtok_r 44 (ds ++ rest) ≡ some (ds ++ (split_at 44 rest).0, (split_at 44 rest).1)
unfolding strtok_r skip_delimiters
strtok_r-digits [] rest all some_digit = absurd (omega arith)
strtok_r-digits (d ∷ ds) rest all some_digit =
    ground (arith, all.0, split_at-digits (d ∷ ds) rest all)

-- The text of a line: two numbers, a comma between them, and anything that does not begin with a digit.
abbrev pub line_text : ℕ → ℕ → List ℕ → List ℕ
line_text t p rest = decimal t ++ 44 ∷ (decimal p ++ rest)

parse_line-tokens :
    (buffer : List ℕ) {time_str rest pstr rest2 : List ℕ}
    → strtok_r 44 buffer ≡ some (time_str, rest)
    → strtok_r 44 rest ≡ some (pstr, rest2)
    → parse_line buffer ≡ some (u32 (strtoul time_str), u32 (strtoul pstr))
unfolding parse_line
parse_line-tokens buffer first second = rw (first, second, parse_line) refl

pub parse_line-text :
    (t p : ℕ) (rest : List ℕ)
    → IsU32 t
    → IsU32 p
    → StartsNoDigit rest
    → parse_line (line_text t p rest) ≡ some (t, p)
unfolding split_at
parse_line-text t p rest ht hp stop =
    let first : strtok_r 44 (line_text t p rest) ≡ some (decimal t ++ [], decimal p ++ rest) =
      strtok_r-digits (decimal t) (44 ∷ (decimal p ++ rest))
        (digits-value (suc t) t (omega arith)).0 (length-digits t t) in
    let second =
      strtok_r-digits (decimal p) rest (digits-value (suc p) p (omega arith)).0
        (length-digits p p) in
    let time = strtoul-decimal t [] (omega (arith, ht)) tt in
    let value =
      strtoul-decimal p (split_at 44 rest).0 (omega (arith, hp))
        (split_at-StartsNoDigit rest stop) in
    parse_line-tokens (line_text t p rest) first second ∙ ground (arith, time, value, ht, hp)
