-- ===== src/MockTelemetry/Lines.antt =====
-- The lines of a data file of the mock telemetry (pad_server/src/telemetry.c), and what reading them is
-- assumed to do.
use hysim.Base.{
  ℕ, suc, ◌+◌, ◌<◌, ◌≡◌, refl, true, false, Bool-cases, inl, inr, ◌⊎◌, List, [], ◌∷◌, ◌++◌, none,
  some, ◌==◌, arith, length, ℤ,
}
use hysim.Packet.RoundTrip.{IsU32}
use hysim.Packet.Message.{pressure, encode_message}
use hysim.Os.{Datagrams, Files}
use hysim.Libc.{split_at, skip_delimiters, strtok_r}
use hysim.Libc.Decimal.{StartsNoDigit}
use hysim.MockTelemetry.{parse_line}
use hysim.MockTelemetry.Csv.{line_text}

-- A line with two numbers in front and whatever is behind them.
pub record CsvLine : Type 0 where
  pub time : ℕ
  pub value : ℕ
  pub trailer : List ℕ

abbrev pub text : CsvLine → List ℕ
text l = line_text l.time l.value l.trailer

abbrev pub IsCsvLine : CsvLine → Type 0
IsCsvLine l = IsU32 l.time × IsU32 l.value × StartsNoDigit l.trailer × (length (text l) < 8192)

abbrev pub AllCsvLines : List CsvLine → Type 0
AllCsvLines [] = Unit {0}
AllCsvLines (l ∷ ls) = IsCsvLine l × AllCsvLines ls

abbrev pub texts : List CsvLine → List (List ℕ)
texts [] = []
texts (l ∷ ls) = text l ∷ texts ls

-- The datagram of a line: transducer 1.
abbrev pub datagram : CsvLine → List ℕ
datagram l = encode_message (pressure (record { time = l.time; pressure = l.value; id = 1 }))

abbrev pub datagrams : List CsvLine → List (List ℕ)
datagrams [] = []
datagrams (l ∷ ls) = datagram l ∷ datagrams ls

abbrev pub HasComma : List ℕ → Type 0
HasComma [] = ⊥
HasComma (c ∷ cs) = (c ≡ 44) ⊎ HasComma cs

-- An open file that reads without errors: the lines still unread, and the datagrams sent so far. `fgets` finds
-- the lines one by one, and the end of the file is seen only where no line is left.
pub record Replay {W : Type 0} (dgrams : Datagrams W) (files : Files W) (sock : ℤ) (file : ℕ)
    : Type 0 where
  pub sent : W → List (List ℕ)
  pub unread : W → List (List ℕ)
  pub ferror_ok : (w : W) → (files.ferror file w).0 ≡ false
  pub ferror_keeps :
      (w : W)
      → (sent (files.ferror file w).1 ≡ sent w) × (unread (files.ferror file w).1 ≡ unread w)
  pub feof_keeps :
      (w : W) → (sent (files.feof file w).1 ≡ sent w) × (unread (files.feof file w).1 ≡ unread w)
  pub feof_unread : (w : W) → (files.feof file w).0 ≡ true → unread w ≡ []
  pub fgets_line :
      (w : W) (l : List ℕ) (ls : List (List ℕ))
      → unread w ≡ l ∷ ls
      → length l < 8192
      → ((files.fgets file 8192 w).0 ≡ some l)
        × (sent (files.fgets file 8192 w).1 ≡ sent w)
        × (unread (files.fgets file 8192 w).1 ≡ ls)
  pub sendmsg_keeps :
      (bs : List ℕ) (w : W)
      → (sent (dgrams.sendmsg sock bs w).1 ≡ sent w ++ bs ∷ [])
        × (unread (dgrams.sendmsg sock bs w).1 ≡ unread w)
  pub usleep_keeps :
      (n : ℕ) (w : W)
      → (sent (files.usleep_us n w).1 ≡ sent w) × (unread (files.usleep_us n w).1 ≡ unread w)

pub split_at-comma : (l : List ℕ) → ¬ HasComma l → (split_at 44 l).1 ≡ []
unfolding split_at
split_at-comma [] absent = refl
split_at-comma (c ∷ cs) absent = elim (Bool-cases (c == 44)) [
  | inl e ↦ absurd (absent (inl (ground (arith, e))))
  | inr e ↦ rw (e, split_at) (split_at-comma cs (λ h. absent (inr h)))
]

pub HasComma-skip : (l : List ℕ) → ¬ HasComma l → skip_delimiters 44 l ≡ l
unfolding skip_delimiters
HasComma-skip [] absent = refl
HasComma-skip (c ∷ cs) absent = elim (Bool-cases (c == 44)) [
  | inl e ↦ absurd (absent (inl (ground (arith, e))))
  | inr e ↦ rw (e, skip_delimiters) refl
]

pub parse_line-none : (l : List ℕ) → ¬ HasComma l → parse_line l ≡ none
unfolding parse_line strtok_r skip_delimiters
parse_line-none [] absent = refl
parse_line-none (c ∷ cs) absent =
    rw (HasComma-skip (c ∷ cs) absent, split_at-comma (c ∷ cs) absent, parse_line) refl

pub zero_add : (n : ℕ) → 0 + n ≡ n
zero_add n = omega arith

pub suc_add : (m n : ℕ) → suc m + n ≡ suc (m + n)
suc_add m n = omega arith

pub add_zero : (n : ℕ) → n + 0 ≡ n
add_zero n = omega arith
