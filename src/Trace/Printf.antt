-- ===== src/Trace/Printf.antt =====
-- `sprintf` of the C library, for the conversions that trace/cmu-trace.cc uses: %c %d %x %s %f %g, with
-- the flag 0, a width and a precision. The digits of a `double` are a parameter.
pub mod Scan
use antnet.Common.{
  ℕ, zero, suc, ◌+◌, ◌-◌, ◌*◌, ◌/◌, ◌%◌, ◌^◌, ◌==◌, leb, ltb, if◌then◌else◌, ◌&&◌, Bool, true,
  false, Option, none, some, List, [], ◌∷◌, ◌++◌, length, replicate, Text, ◌>>=◌,
}
use antnet.Common.Int.{ℤ, pos, negsuc}

-- What follows the format: `int`, `char`, `const char*`, `double`.
pub data Arg (D : Type 0) : Type 0 where
  int : ℤ → Arg D
  chr : ℕ → Arg D
  str : Text → Arg D
  dbl : D → Arg D

-- A character of the format that is copied, or a conversion: the flag 0, the width, the precision
-- and the letter.
pub data Directive : Type 0 where
  lit : ℕ → Directive
  conv : Bool → ℕ → Option ℕ → ℕ → Directive

-- Where the reader of the format stands: in plain text, behind `%` and the digits of the width, or
-- behind the dot.
pub data Reading : Type 0 where
  plain : Reading
  at_width : Bool → ℕ → Reading
  at_precision : Bool → ℕ → ℕ → Reading

abbrev pub is_digit : ℕ → Bool
is_digit c = leb b'0' c && leb c b'9'

-- One character of the format.
abbrev pub read_one : Reading → ℕ → Reading × List Directive
read_one plain c = if c == b'%' then (at_width false 0, []) else (plain, lit c ∷ [])
read_one (at_width z w) c =
    if (c == b'0') && (w == 0)
    then (at_width true 0, [])
    else if is_digit c
    then (at_width z (10 * w + (c - b'0')), [])
    else if c == b'.'
    then (at_precision z w 0, [])
    else (plain, conv z w none c ∷ [])
read_one (at_precision z w p) c =
    if is_digit c
    then (at_precision z w (10 * p + (c - b'0')), [])
    else (plain, conv z w (some p) c ∷ [])

-- The directives of a format; `none` is a format that ends in a conversion.
abbrev pub directives_from : Reading → Text → Option (List Directive)
directives_from plain [] = some []
directives_from (at_width z w) [] = none
directives_from (at_precision z w p) [] = none
directives_from s (c ∷ cs) =
    let (s', ds) = read_one s c in (directives_from s' cs >>= λ rest. some (ds ++ rest))

abbrev pub digit : ℕ → ℕ
digit n = if ltb n 10 then n + b'0' else n - 10 + b'a'

-- The digits of `n` to the base `b`, in front of `acc`.
unfoldable pub digits : ℕ → ℕ → ℕ → Text → Text
digits zero b n acc = acc
digits (suc fuel) b n acc =
    let acc' = digit (n % b) ∷ acc in
    let more = digits fuel b (n / b) acc' in if n / b == 0 then acc' else more

unfoldable pub decimal : ℤ → Text
unfolding digits
decimal (pos n) = digits (suc n) 10 n []
decimal (negsuc n) = b'-' ∷ digits (suc (suc n)) 10 (suc n) []

-- A negative `int` is printed as its 32 bits.
unfoldable pub hex : ℤ → Text
unfolding digits
hex (pos n) = digits (suc n) 16 n []
hex (negsuc n) = let u = 2 ^ 32 - 1 - n in digits 9 16 u []

abbrev pub pad : Bool → ℕ → Text → Text
pad z w t = replicate (w - length t) (if z then b'0' else b' ') ++ t

abbrev pub or_six : Option ℕ → ℕ
or_six none = 6
or_six (some p) = p

-- How a `double` is written, for a letter (`f` or `g`) and a precision.
abbrev pub Floats : Type 0 → Type 0
Floats D = ℕ → ℕ → D → Text

module _ {D : Type 0} (floats : Floats D) where
  -- The text of one argument; `none` is an argument that does not fit its conversion.
  abbrev pub convert : ℕ → Option ℕ → Arg D → Option Text
  convert c p (int n) =
      if c == b'd' then some (decimal n) else if c == b'x' then some (hex n) else none
  convert c p (chr k) = if c == b'c' then some (k ∷ []) else none
  convert c p (str t) = if c == b's' then some t else none
  convert c p (dbl x) =
      if c == b'f'
      then some (floats b'f' (or_six p) x)
      else if c == b'g'
      then some (floats b'g' (or_six p) x)
      else none

  abbrev pub print : List Directive → List (Arg D) → Option Text
  print [] args = some []
  print (lit c ∷ ds) args = print ds args >>= λ t. some (c ∷ t)
  print (conv z w p c ∷ ds) [] = none
  print (conv z w p c ∷ ds) (a ∷ args) =
      convert c p a >>= λ s. print ds args >>= λ t. some (pad z w s ++ t)

  -- `sprintf(buffer, format, args...)`: the text that it writes. `none` is undefined behaviour.
  unfoldable pub sprintf : Text → List (Arg D) → Option Text
  sprintf format args = directives_from plain format >>= λ ds. print ds args
