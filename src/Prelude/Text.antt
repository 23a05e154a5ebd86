-- ===== src/Prelude/Text.antt =====
-- JavaScript strings: sequences of UTF-16 code units, compared unit by unit.
use Prim.Native.Nat.{ℕ, suc}
use Prim.Native.Char.{code}
use Prim.Native.String.{String}
use mathlib.Core.Path.{◌≡◌, refl, sym}
use mathlib.Core.Logic.{◌↔◌, inl, inr}
use mathlib.Core.Bool.{Bool, true, false, ◌&&◌, ◌||◌}
use mathlib.Core.List.{List, [], ◌∷◌}
use native.Mathlib.Omega.{arith}
use pausemesh.Prelude.Tests.{◌==◌, Bool-cases, if◌then◌else◌}

abbrev pub Text : Type 0
Text = List ℕ

-- The code units of an ASCII literal.
abbrev pub codes : String → Text
codes String.[] = []
codes (String.◌∷◌ c s) = code c ∷ codes s

-- `left === right`
unfoldable pub text_eq : Text → Text → Bool
text_eq [] [] = true
text_eq (a ∷ s) (b ∷ t) = (a == b) && text_eq s t
text_eq _ _ = false

pub text_eq→eq : (s t : Text) → text_eq s t ≡ true → s ≡ t
unfolding text_eq
text_eq→eq [] [] h = refl
text_eq→eq (a ∷ s) (b ∷ t) h = ground (arith, text_eq→eq s t)
text_eq→eq [] (b ∷ t) h = cc
text_eq→eq (a ∷ s) [] h = cc

pub text_eq_refl : (s : Text) → text_eq s s ≡ true
unfolding text_eq
text_eq_refl [] = refl
text_eq_refl (a ∷ s) = ground (arith, text_eq_refl s)

pub eq→text_eq : {s t : Text} → s ≡ t → text_eq s t ≡ true
eq→text_eq {s} e = rw (← e) (text_eq_refl s)

pub text_eq_iff : (s t : Text) → (text_eq s t ≡ true) ↔ (s ≡ t)
text_eq_iff s t = (text_eq→eq s t, eq→text_eq)

pub apart : (s t : Text) → text_eq t s ≡ false → text_eq s t ≡ false
apart s t h = elim (Bool-cases (text_eq s t)) [
  | inl same ↦ absurd (cc (h, eq→text_eq (sym (text_eq→eq s t same))))
  | inr other ↦ other
]

-- `ids.includes(id)`, and the test of a set of texts
unfoldable pub is_member : Text → List Text → Bool
is_member id [] = false
is_member id (i ∷ ids) = text_eq id i || is_member id ids

-- `new Set(ids).size`
unfoldable pub set_size : List Text → ℕ
set_size [] = 0
set_size (id ∷ ids) = let rest = set_size ids in if is_member id ids then rest else suc rest
