-- ===== src/Libc/Decimal.antt =====
-- Decimal numbers as `printf` writes them, and `strtoul` on them.
use hysim.Base.{
  length, length-append, Bool-cases, inl, inr, ℕ, zero, suc, ◌+◌, ◌-◌, ◌*◌, ◌/◌, ◌%◌, ◌<◌, ◌≡◌,
  refl, ◌∙◌, true, false, List, [], ◌∷◌, ◌++◌, ltb, if◌then◌else◌, arith,
}
use hysim.Libc.{ulong_size, is_digit, skip_spaces, read_digits, saturated, strtoul}

-- The digits of a number, on fuel for their count.
unfoldable pub digits : ℕ → ℕ → List ℕ
digits zero n = []
digits (suc fuel) n =
    let rest = digits fuel (n / 10) in
    if ltb n 10 then (48 + n) ∷ [] else rest ++ (48 + n % 10) ∷ []

-- A text that no digit starts.
abbrev pub StartsNoDigit : List ℕ → Type 0
StartsNoDigit [] = Unit {0}
StartsNoDigit (c ∷ cs) = is_digit c ≡ false

abbrev pub AllDigits : List ℕ → Type 0
AllDigits [] = Unit {0}
AllDigits (c ∷ cs) = (is_digit c ≡ true) × AllDigits cs

-- The number that digits make behind a value.
abbrev pub value_of : ℕ → List ℕ → ℕ
value_of acc [] = acc
value_of acc (c ∷ cs) = value_of (10 * acc + (c - 48)) cs

read_digits-value :
    (acc : ℕ) (ds rest : List ℕ)
    → AllDigits ds
    → StartsNoDigit rest
    → read_digits acc (ds ++ rest) ≡ value_of acc ds
unfolding read_digits
read_digits-value acc [] [] all stop = refl
read_digits-value acc [] (c ∷ cs) all stop = ground (arith, stop)
read_digits-value acc (d ∷ ds) rest all stop =
    ground (arith, all.0, read_digits-value (10 * acc + (d - 48)) ds rest all.1 stop)

value-append :
    (acc c : ℕ) (ds : List ℕ) → value_of acc (ds ++ c ∷ []) ≡ 10 * value_of acc ds + (c - 48)
value-append acc c [] = refl
value-append acc c (d ∷ ds) = value-append (10 * acc + (d - 48)) c ds

all-append : (ds : List ℕ) (c : ℕ) → AllDigits ds → is_digit c ≡ true → AllDigits (ds ++ c ∷ [])
all-append [] c all e = (e, tt)
all-append (d ∷ ds) c all e = (all.0, all-append ds c all.1 e)

pub digits-value :
    (fuel n : ℕ) → n < fuel → AllDigits (digits fuel n) × (value_of 0 (digits fuel n) ≡ n)
unfolding digits
digits-value zero n h = absurd (omega arith)
digits-value (suc fuel) n h = elim (Bool-cases (ltb n 10)) [
  | inl e ↦ (ground (arith, e), ground (arith, e))
  | inr e ↦
      (let smaller : n / 10 < fuel = ground (arith, e) in
        let (all, value) = digits-value fuel (n / 10) smaller in
        let last : is_digit (48 + n % 10) ≡ true = ground arith in
        rw (e, digits)
          (
            all-append (digits fuel (n / 10)) (48 + n % 10) all last,
            value-append 0 (48 + n % 10) (digits fuel (n / 10)) ∙ omega (arith, value),
          ))
]

-- printf("%lu", n)
abbrev pub decimal : ℕ → List ℕ
decimal n = digits (suc n) n

number_of_digits :
    (ds rest : List ℕ)
    → AllDigits ds
    → StartsNoDigit rest
    → (0 < length ds)
    → strtoul (ds ++ rest) ≡ saturated (value_of 0 ds)
unfolding strtoul skip_spaces
number_of_digits [] rest all stop some = absurd (omega arith)
number_of_digits (d ∷ ds) rest all stop some =
    ground (arith, all.0, read_digits-value 0 (d ∷ ds) rest all stop)

pub length-digits : (fuel n : ℕ) → 0 < length (digits (suc fuel) n)
unfolding digits
length-digits fuel n = ground (arith, length-append (digits fuel (n / 10)) ((48 + n % 10) ∷ []))

-- A number that fits is read as it was written, whatever follows that is no digit.
pub strtoul-decimal :
    (n : ℕ) (rest : List ℕ) → n < ulong_size → StartsNoDigit rest → strtoul (decimal n ++ rest) ≡ n
strtoul-decimal n rest h stop =
    let (all, value) = digits-value (suc n) n (omega arith) in
    let number = number_of_digits (decimal n) rest all stop (length-digits n n) in
    ground (arith, number, value)
