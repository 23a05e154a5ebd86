-- ===== src/Storage/Numerals.antt =====
-- The literals of natural numbers: decimal digits, as `JSON.stringify` prints a safe integer.
use pausemesh.Prelude.{
  ℕ, zero, suc, ◌+◌, ◌-◌, ◌*◌, ◌/◌, ◌%◌, ◌<◌, ◌≤◌, ◌≡◌, ◌∙◌, ap, refl, Bool, ◌&&◌, Option, none,
  some, [], ◌∷◌, ◌++◌, arith, leb, ltb, if◌then◌else◌, Bool-cases, inl, inr, true, false, ltb→lt,
}
use pausemesh.Prelude.Text.{Text}

abbrev digit : ℕ → ℕ
digit d = b'0' + d

abbrev is_digit : ℕ → Bool
is_digit c = leb b'0' c && leb c b'9'

-- The recursion is on a bound of the digits' count.
digits : ℕ → ℕ → Text
digits zero n = []
digits (suc bound) n =
    let rest = digits bound (n / 10) in
    if ltb n 10 then digit n ∷ [] else rest ++ digit (n % 10) ∷ []

unfoldable pub decimal : ℕ → Text
unfolding digits
decimal n = digits (suc n) n

read_digits : ℕ → Text → Option ℕ
read_digits n [] = some n
read_digits n (c ∷ t) =
    let rest = read_digits (n * 10 + (c - b'0')) t in if is_digit c then rest else none

-- The number that a literal denotes, if it is a natural number.
unfoldable pub read_nat : Text → Option ℕ
unfolding read_digits
read_nat [] = none
read_nat (c ∷ t) = read_digits 0 (c ∷ t)

none_yet : read_digits 0 [] ≡ some 0
unfolding read_digits
none_yet = refl

read_last :
    (n d m : ℕ) (s : Text)
    → d < 10
    → read_digits n s ≡ some m
    → read_digits n (s ++ digit d ∷ []) ≡ some (m * 10 + d)
unfolding read_digits
read_last n d m [] h e = ground arith
read_last n d m (c ∷ s) h e = ground (arith, read_last (n * 10 + (c - b'0')) d m s h)

at_least : (n m : ℕ) → ltb n m ≡ false → m ≤ n
at_least n m h = ground arith

one_digit : (bound n : ℕ) → ltb n 10 ≡ true → digits (suc bound) n ≡ digit n ∷ []
unfolding digits
one_digit bound n small = rw small refl

more_digits :
    (bound n : ℕ)
    → ltb n 10 ≡ false
    → digits (suc bound) n ≡ digits bound (n / 10) ++ digit (n % 10) ∷ []
unfolding digits
more_digits bound n large = rw large refl

read_nat_last : (s : Text) (c : ℕ) → read_nat (s ++ c ∷ []) ≡ read_digits 0 (s ++ c ∷ [])
unfolding read_nat
read_nat_last [] c = refl
read_nat_last (d ∷ s) c = refl

read_digits-digits :
    (bound n : ℕ)
    → n < bound
    → (read_digits 0 (digits bound n) ≡ some n)
      × (read_nat (digits bound n) ≡ read_digits 0 (digits bound n))
read_digits-digits zero n h = absurd (omega arith)
read_digits-digits (suc bound) n h = elim (Bool-cases (ltb n 10)) [
  | inl small ↦ rw (one_digit bound n small) (
    read_last 0 n 0 [] (ltb→lt n 10 small) none_yet ∙ ap some (omega arith),
    read_nat_last [] (digit n),
  )
  | inr large ↦
      let (rest, _) = read_digits-digits bound (n / 10) (omega (arith, at_least n 10 large)) in
      rw (more_digits bound n large) (
        read_last 0 (n % 10) (n / 10) (digits bound (n / 10)) (omega arith) rest
            ∙ ap some (omega arith),
        read_nat_last (digits bound (n / 10)) (digit (n % 10)),
      )
]

-- The digits of a number denote it.
pub read_nat-decimal : (n : ℕ) → read_nat (decimal n) ≡ some n
unfolding decimal
read_nat-decimal n = let (value, same) = read_digits-digits (suc n) n (omega arith) in same ∙ value
