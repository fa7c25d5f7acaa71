-- ===== src/Trace/Printf/Scan.antt =====
-- Reading back what `sprintf` wrote.
use antnet.Common.{
  ℕ, zero, suc, ◌+◌, ◌-◌, ◌*◌, ◌/◌, ◌%◌, ◌<◌, ◌≡◌, refl, ap, ◌∙◌, ◌==◌, if◌then◌else◌, true, false,
  Option, none, some, List, [], ◌∷◌, ◌++◌, Text, ◌>>=◌, arith, map, length, subst, Option-cases,
  sym, Bool-cases, inl, inr, ==_iff,
}
use mathlib.Core.List.{append_assoc}
use antnet.Common.Int.{ℤ, pos, negsuc}
use antnet.Trace.Printf.{
  Arg, int, Directive, lit, conv, is_digit, digit, digits, decimal, print, Floats,
}

-- The number that the digits at the front of a text make, with `v` before them, and the rest.
abbrev pub number : ℕ → Text → ℕ × Text
number v [] = (v, [])
number v (c ∷ cs) =
    let more = number (10 * v + (c - b'0')) cs in if is_digit c then more else (v, c ∷ cs)

digit-is_digit : (d : ℕ) → d < 10 → is_digit (digit d) ≡ true
digit-is_digit d h = ground arith

digit-sub : (d : ℕ) → d < 10 → digit d - b'0' ≡ d
digit-sub d h = ground arith

number-digit :
    (v n : ℕ) (acc : Text) → number v (digit (n % 10) ∷ acc) ≡ number (10 * v + n % 10) acc
number-digit v n acc =
    rw (digit-is_digit (n % 10) (omega arith), digit-sub (n % 10) (omega arith)) refl

number-digits :
    (fuel n : ℕ) (acc : Text) → n < fuel → number 0 (digits fuel 10 n acc) ≡ number n acc
unfolding digits
number-digits zero n acc h = absurd (omega arith)
number-digits (suc fuel) n acc h = elim (Bool-cases (n / 10 == 0)) [
  | inl last ↦
      rw last
        (number-digit 0 n acc ∙ ap (λ m. number m acc) (omega (arith, (==_iff (n / 10) 0).0 last)))
  | inr more ↦ rw more (
      number-digits fuel (n / 10) (digit (n % 10) ∷ acc) (ground arith)
      ∙ number-digit (n / 10) n acc
      ∙ ap (λ m. number m acc) (omega arith))
]

-- Behind a number stands no digit.
abbrev pub Stops : Text → Type 0
Stops [] = Unit {0}
Stops (c ∷ cs) = is_digit c ≡ false

number-Stops : (n : ℕ) (t : Text) → Stops t → number n t ≡ (n, t)
number-Stops n [] s = refl
number-Stops n (c ∷ cs) s = rw s refl

digits-append :
    (fuel b n : ℕ) (acc t : Text) → digits fuel b n acc ++ t ≡ digits fuel b n (acc ++ t)
unfolding digits
digits-append zero b n acc t = refl
digits-append (suc fuel) b n acc t = elim (Bool-cases (n / b == 0)) [
  | inl last ↦ rw last refl
  | inr more ↦ rw more (digits-append fuel b (n / b) (digit (n % b) ∷ acc) t)
]

abbrev pub positive : ℕ × Text → ℤ × Text
positive (n, t) = (pos n, t)

abbrev pub negative : ℕ × Text → ℤ × Text
negative (zero, t) = (pos 0, t)
negative (suc n, t) = (negsuc n, t)

-- `%d` of `sscanf`.
abbrev pub integer : Text → Option (ℤ × Text)
integer [] = none
integer (c ∷ cs) =
    if c == b'-'
    then some (negative (number 0 cs))
    else if is_digit c
    then some (positive (number 0 (c ∷ cs)))
    else none

integer-number :
    (c n : ℕ) (cs t : Text)
    → is_digit c ≡ true
    → number 0 (c ∷ cs) ≡ (n, t)
    → integer (c ∷ cs) ≡ some (pos n, t)
integer-number c n cs t is e =
    let sign : (c == b'-') ≡ false = ground arith in
    rw (sign, is) (ap (λ r. some (positive r)) (rw is at e))

number-decimal : (n : ℕ) (t : Text) → Stops t → number 0 (digits (suc n) 10 n [] ++ t) ≡ (n, t)
number-decimal n t s =
    ap (number 0) (digits-append (suc n) 10 n [] t)
    ∙ number-digits (suc n) n t (omega arith)
    ∙ number-Stops n t s

-- The first of the digits.
digits-first :
    (fuel n : ℕ) (acc : Text)
    → n < fuel
    → (c : ℕ) × (cs : Text) × (digits fuel 10 n acc ≡ c ∷ cs) × (is_digit c ≡ true)
unfolding digits
digits-first zero n acc h = absurd (omega arith)
digits-first (suc fuel) n acc h = elim (Bool-cases (n / 10 == 0)) [
  | inl last ↦ rw last (digit (n % 10), acc, refl, digit-is_digit (n % 10) (omega arith))
  | inr more ↦ rw more (digits-first fuel (n / 10) (digit (n % 10) ∷ acc) (ground arith))
]

integer-decimal : (n : ℤ) (t : Text) → Stops t → integer (decimal n ++ t) ≡ some (n, t)
unfolding decimal
integer-decimal (pos n) t s =
    let (c, cs, first, is) = digits-first (suc n) n [] (omega arith) in
    ap (λ u. integer (u ++ t)) first
    ∙ integer-number c n (cs ++ t) t is
        (ap (λ u. number 0 (u ++ t)) (sym first) ∙ number-decimal n t s)
integer-decimal (negsuc n) t s = ap (λ r. some (negative r)) (number-decimal (suc n) t s)

-- A text as `sscanf` reads it, for `%d` and copied characters: the numbers and what is left.
abbrev pub scan : List Directive → Text → Option (List ℤ × Text)
scan [] t = some ([], t)
scan (lit c ∷ ds) [] = none
scan (lit c ∷ ds) (x ∷ t) = if x == c then scan ds t else none
scan (conv z w p c ∷ ds) t =
    integer t >>= λ (n, t'). scan ds t' >>= λ (ns, rest). some (n ∷ ns, rest)

-- What stands behind a number is no digit.
abbrev pub Ends : List Directive → Text → Type 0
Ends [] rest = Stops rest
Ends (lit c ∷ ds) rest = is_digit c ≡ false
Ends (conv z w p c ∷ ds) rest = ⊥

-- The numbers fit the format, which has them as plain `%d`, each with an end.
abbrev pub Fits : List Directive → List ℤ → Text → Type 0
Fits [] [] rest = Unit {0}
Fits [] (n ∷ ns) rest = ⊥
Fits (lit c ∷ ds) ns rest = Fits ds ns rest
Fits (conv z w p c ∷ ds) [] rest = ⊥
Fits (conv z w p c ∷ ds) (n ∷ ns) rest = (w ≡ 0) × (c ≡ b'd') × Ends ds rest × Fits ds ns rest

module _ {D : Type 0} (floats : Floats D) where
  -- What `print` writes behind a number ends it.
  Stops-print :
      (ds : List Directive) (args : List (Arg D)) (rest t : Text)
      → Ends ds rest
      → print floats ds args ≡ some t
      → Stops (t ++ rest)
  Stops-print [] args rest [] e p = e
  Stops-print [] args rest (x ∷ t) e p = cc
  Stops-print (lit c ∷ ds) args rest t e p = elim (Option-cases (print floats ds args)) [
    | inl q ↦ cc (rw q at p)
    | inr (u, q) ↦ starts t (rw q at p)
  ]
    where
      starts : (t : Text) {u : Text} → some (c ∷ u) ≡ some t → Stops (t ++ rest)
      starts [] q = cc
      starts (x ∷ t) q = let same : c ≡ x = cc in subst (λ k. is_digit k ≡ false) same e
  Stops-print (conv z w p c ∷ ds) args rest t e h = elim e [ ]

  -- `sprintf` is defined on numbers that fit the format, and `scan` reads them back.
  pub scan-print :
      (ds : List Directive) (ns : List ℤ) (rest : Text)
      → Fits ds ns rest
      → (t : Text) × (print floats ds (map int ns) ≡ some t)
        × (scan ds (t ++ rest) ≡ some (ns, rest))
  scan-print [] [] rest f = ([], refl, refl)
  scan-print [] (n ∷ ns) rest f = elim f [ ]
  scan-print (lit c ∷ ds) ns rest f =
      let (t, e, back) = scan-print ds ns rest f in
      (c ∷ t, rw e refl, rw ((==_iff c c).1 refl) back)
  scan-print (conv z w p c ∷ ds) [] rest f = elim f [ ]
  scan-print (conv z w p c ∷ ds) (n ∷ ns) rest (width, letter, ends, f) =
      let (t, e, back) = scan-print ds ns rest f in
      let none_before : 0 - length (decimal n) ≡ 0 = omega arith in
      (
        decimal n ++ t,
        rw (letter, width, e, none_before) refl,
        rw (append_assoc (decimal n) t rest) (
            rw (integer-decimal n (t ++ rest) (Stops-print ds (map int ns) rest t ends e))
              (rw back refl)),
      )
