-- ===== src/Json/Numbers.antt =====
-- The numbers that literals denote. A literal is printed by `JSON.stringify`: its digits, a fraction
-- and an exponent stay within the 400 places of the scale, as those of a double do.
use pausemesh.Prelude.{
  ℕ, ◌+◌, ◌-◌, ◌*◌, ◌%◌, ◌^◌, ◌≡◌, refl, Bool, true, false, not, ◌&&◌, [], ◌∷◌, leb, ltb, ◌==◌,
  if◌then◌else◌,
}
use pausemesh.Prelude.Text.{Text, codes}

abbrev is_digit : ℕ → Bool
is_digit c = leb b'0' c && leb c b'9'

-- Digits up to a character that is none.
digits_of : ℕ → Text → ℕ
digits_of n [] = n
digits_of n (c ∷ t) = let rest = digits_of (n * 10 + (c - b'0')) t in if is_digit c then rest else n

-- `e+21`, `e-7`: the number scaled by ten to the 400.
scaled : ℕ → ℕ → Text → ℕ
unfolding digits_of
scaled digits places (_ ∷ c ∷ t) =
    if c == b'-'
    then digits * 10 ^ (400 - places - digits_of 0 t)
    else digits * 10 ^ (400 - places + digits_of 0 t)
scaled digits places _ = digits * 10 ^ (400 - places)

fraction : ℕ → ℕ → Text → ℕ
unfolding scaled
fraction digits places [] = scaled digits places []
fraction digits places (c ∷ t) =
    let rest = fraction (digits * 10 + (c - b'0')) (places + 1) t in
    if is_digit c then rest else scaled digits places (c ∷ t)

whole : ℕ → Text → ℕ
unfolding fraction scaled
whole digits [] = scaled digits 0 []
whole digits (c ∷ t) =
    let rest = whole (digits * 10 + (c - b'0')) t in
    if is_digit c then rest else if c == b'.' then fraction digits 0 t else scaled digits 0 (c ∷ t)

-- The sign, and the magnitude.
unfoldable pub magnitude : Text → Bool × ℕ
unfolding whole
magnitude [] = (false, 0)
magnitude (c ∷ t) = if c == b'-' then (true, whole 0 t) else (false, whole 0 (c ∷ t))

less : Bool × ℕ → Bool × ℕ → Bool
less (true, m) (true, n) = ltb n m
less (true, m) (false, n) = not (m == 0 && n == 0)
less (false, m) (true, n) = false
less (false, m) (false, n) = ltb m n

-- `left < right`
unfoldable pub number_lt : Text → Text → Bool
unfolding less
number_lt left right = less (magnitude left) (magnitude right)

-- `Number.isInteger`
unfoldable pub is_integer : Text → Bool
is_integer literal = (magnitude literal).1 % 10 ^ 400 == 0

compared :
    (number_lt (codes "-1.5") (codes "2e-7") ≡ true)
    × (number_lt (codes "1e+21") (codes "999") ≡ false)
    × (is_integer (codes "1e+21") ≡ true)
    × (is_integer (codes "2.5") ≡ false)
unfolding number_lt is_integer magnitude
compared = (refl, refl, refl, refl)
