-- ===== src/Libc.antt =====
-- What the programs use of the C library: numbers read off a text, tokens, options. A text is the list of its
-- bytes, without the final zero.
pub mod Decimal
use hysim.Base.{
  ℕ, zero, suc, ◌+◌, ◌-◌, ◌*◌, ◌%◌, Bool, true, false, ◌&&◌, ◌||◌, Option, none, some, List, [],
  ◌∷◌, ltb, leb, ◌==◌, if◌then◌else◌,
}

-- An `unsigned long` of 64 bits.
abbrev pub ulong_size : ℕ
ulong_size = 0x1_0000_0000_0000_0000

abbrev pub is_space : ℕ → Bool
is_space c = (c == 32) || (leb 9 c && leb c 13)

abbrev pub is_digit : ℕ → Bool
is_digit c = leb 48 c && leb c 57

unfoldable pub skip_spaces : List ℕ → List ℕ
skip_spaces [] = []
skip_spaces (c ∷ cs) = let rest = skip_spaces cs in if is_space c then rest else c ∷ cs

-- The number that the digits in front make, behind a value so far.
unfoldable pub read_digits : ℕ → List ℕ → ℕ
read_digits acc [] = acc
read_digits acc (c ∷ cs) =
    let rest = read_digits (10 * acc + (c - 48)) cs in if is_digit c then rest else acc

-- A number too large is the largest there is; a minus sign negates modulo the size of the type.
abbrev pub saturated : ℕ → ℕ
saturated n = if ltb n ulong_size then n else ulong_size - 1

abbrev pub negated : ℕ → ℕ
negated n = if ltb n ulong_size then (ulong_size - n) % ulong_size else ulong_size - 1

abbrev pub signed_number : List ℕ → ℕ
signed_number [] = 0
signed_number (c ∷ cs) =
    if c == 45
    then negated (read_digits 0 cs)
    else saturated (read_digits 0 (if c == 43 then cs else c ∷ cs))

-- strtoul(text, NULL, 10)
unfoldable pub strtoul : List ℕ → ℕ
strtoul text = signed_number (skip_spaces text)

unfoldable pub skip_delimiters : ℕ → List ℕ → List ℕ
skip_delimiters d [] = []
skip_delimiters d (c ∷ cs) = let rest = skip_delimiters d cs in if c == d then rest else c ∷ cs

-- Up to the delimiter, and what is behind it.
unfoldable pub split_at : ℕ → List ℕ → List ℕ × List ℕ
split_at d [] = ([], [])
split_at d (c ∷ cs) =
    let (token, rest) = split_at d cs in if c == d then ([], cs) else (c ∷ token, rest)

-- strtok_r(text, delimiter, &rest) with a single delimiter: the token and the new `rest`, or NULL.
abbrev pub token_of : ℕ → List ℕ → Option (List ℕ × List ℕ)
token_of d [] = none
token_of d (c ∷ cs) = some (split_at d (c ∷ cs))

unfoldable pub strtok_r : ℕ → List ℕ → Option (List ℕ × List ℕ)
strtok_r d text = token_of d (skip_delimiters d text)

-- A result of `getopt`: the option's letter, or `?` or `:` for an error, and `optarg`.
pub record Opt : Type 0 where
  pub letter : ℕ
  pub optarg : List ℕ

abbrev pub u16 : ℕ → ℕ
u16 n = n % 65536
