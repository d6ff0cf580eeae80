-- ===== src/Startup/Decimal.antt =====
-- `std::to_string` of an `int` and `std::stoi`, as documented. An `int` is its 32-bit pattern.
use iocp_j_server.Base.{
  ℕ, zero, suc, ◌+◌, ◌-◌, ◌*◌, ◌/◌, ◌%◌, ◌^◌, ◌<◌, ◌≡◌, refl, ap, ◌∙◌, arith, Bool, true, false,
  ◌&&◌, ◌||◌, [], ◌∷◌, ltb, leb, lt→ltb, ◌==◌, if◌then◌else◌, Bool-cases, inl, inr, Bytes, uncaught,
  Outcome, ok, fault, ◌>>=◌,
}

-- The decimal digits of a number, before what follows, on fuel.
unfoldable pub digits : ℕ → ℕ → Bytes → Bytes
digits zero n rest = rest
digits (suc fuel) n rest =
    let more = digits fuel (n / 10) ((48 + n % 10) ∷ rest) in
    if ltb n 10 then (48 + n % 10) ∷ rest else more

unfoldable pub to_string : ℕ → Bytes
unfolding digits
to_string n =
    if ltb n (2 ^ 31) then digits (n + 1) n [] else 45 ∷ digits (2 ^ 32 - n + 1) (2 ^ 32 - n) []

abbrev pub is_digit : ℕ → Bool
is_digit c = leb 48 c && leb c 57

-- The number that the digits at the front stand for, after `n`.
unfoldable pub value : ℕ → Bytes → ℕ
value n [] = n
value n (c ∷ s) = let more = value (n * 10 + (c - 48)) s in if is_digit c then more else n

abbrev pub digit_first : Bytes → Bool
digit_first [] = false
digit_first (c ∷ s) = is_digit c

-- `isspace`
abbrev pub is_space : ℕ → Bool
is_space c = (c == 32) || (leb 9 c && leb c 13)

unfoldable pub skip_spaces : Bytes → Bytes
skip_spaces [] = []
skip_spaces (c ∷ s) = let rest = skip_spaces s in if is_space c then rest else c ∷ s

-- The magnitude, below the given bound.
unfoldable pub magnitude : ℕ → Bytes → Outcome ℕ
unfolding value
magnitude bound s =
    if digit_first s && ltb (value 0 s) bound then ok (value 0 s) else fault uncaught

-- After an optional sign.
unfoldable pub signed : Bytes → Outcome ℕ
unfolding magnitude
signed [] = fault uncaught
signed (c ∷ s) =
    if c == 45
    then (magnitude (2 ^ 31 + 1) s >>= λ n. ok ((2 ^ 32 - n) % 2 ^ 32))
    else if c == 43
    then magnitude (2 ^ 31) s
    else magnitude (2 ^ 31) (c ∷ s)

-- No digits, or a number out of the range of `int`, is an exception.
unfoldable pub stoi : Bytes → Outcome ℕ
unfolding skip_spaces signed
stoi s = signed (skip_spaces s)

next_digit : (n : ℕ) → is_digit (48 + n % 10) ≡ true
next_digit n = ground arith

value-digit :
    (n m : ℕ) (rest : Bytes) → value m ((48 + n % 10) ∷ rest) ≡ value (m * 10 + n % 10) rest
unfolding value
value-digit n m rest = rw next_digit (ap (λ k. value k rest) (omega arith))

value-digits : (fuel n : ℕ) (rest : Bytes) → n < fuel → value 0 (digits fuel n rest) ≡ value n rest
unfolding digits
value-digits zero n rest h = absurd (omega arith)
value-digits (suc fuel) n rest h = elim (Bool-cases (ltb n 10)) [
  | inl one ↦ rw (one, value-digit) (ap (λ k. value k rest) (ground arith))
  | inr more ↦ rw more (
      value-digits fuel (n / 10) _ (ground arith)
      ∙ rw value-digit (ap (λ k. value k rest) (omega arith)))
]

digit_first-digits :
    (fuel n : ℕ) (rest : Bytes) → n < fuel → digit_first (digits fuel n rest) ≡ true
unfolding digits
digit_first-digits zero n rest h = absurd (omega arith)
digit_first-digits (suc fuel) n rest h = elim (Bool-cases (ltb n 10)) [
  | inl one ↦ rw one (next_digit n)
  | inr more ↦ rw more (digit_first-digits fuel (n / 10) _ (ground arith))
]

-- A digit is neither a space nor a sign.
digit_others :
    (c : ℕ) → is_digit c ≡ true → (is_space c ≡ false) × ((c == 45) ≡ false) × ((c == 43) ≡ false)
digit_others c h = (ground (arith, h), ground (arith, h), ground (arith, h))

skip_spaces-digit : (s : Bytes) → digit_first s ≡ true → skip_spaces s ≡ s
unfolding skip_spaces
skip_spaces-digit [] h = refl
skip_spaces-digit (c ∷ s) h = rw ((digit_others c h).0)

signed-digit : (s : Bytes) → digit_first s ≡ true → signed s ≡ magnitude (2 ^ 31) s
unfolding signed
signed-digit [] h = cc
signed-digit (c ∷ s) h = let (a, b, d) = digit_others c h in rw (b, d)

-- The digits of a number below the bound are read as the number.
magnitude-digits : (bound n : ℕ) → n < bound → magnitude bound (digits (n + 1) n []) ≡ ok n
unfolding magnitude
magnitude-digits bound n h = rw (
  digit_first-digits (n + 1) n [] (omega arith),
  value-digits (n + 1) n [] (omega arith),
  lt→ltb n bound h,
)

-- Every `int` is read back from its text.
pub stoi-to_string : (n : ℕ) → n < 2 ^ 32 → stoi (to_string n) ≡ ok n
unfolding stoi to_string skip_spaces signed
stoi-to_string n h = elim (Bool-cases (ltb n (2 ^ 31))) [
  | inl positive ↦
      let first = digit_first-digits (n + 1) n [] (omega arith) in
      rw (positive, skip_spaces-digit _ first, signed-digit _ first)
        (magnitude-digits (2 ^ 31) n (ground arith))
  | inr negative ↦
      rw (negative, magnitude-digits (2 ^ 31 + 1) (2 ^ 32 - n) (ground arith))
        (ap ok (ground arith))
]
