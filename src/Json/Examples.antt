-- ===== src/Json/Examples.antt =====
-- The theorems on canonical texts at concrete values.
use pausemesh.Prelude.{◌≡◌, ◌↔◌, refl}
use pausemesh.Prelude.Text.{codes}
use pausemesh.Json.{Json, obj, null, num, end, entry}
use pausemesh.Json.Canonical.{canonical_json}
use pausemesh.Json.Same.{SameJson}
use pausemesh.Json.Print.Read.{HasLiterals}
use pausemesh.Json.Ordered.{canonical_json_iff}

abbrev one_amount : Json
one_amount = obj (entry (codes "b") (num (codes "-1.5e7")) (entry (codes "a") null end))

abbrev other_amount : Json
other_amount = obj (entry (codes "a") null (entry (codes "b") (num (codes "-1.5e7")) end))

one_amount-HasLiterals : HasLiterals one_amount
unfolding HasLiterals
one_amount-HasLiterals = (refl, (tt, tt))

other_amount-HasLiterals : HasLiterals other_amount
unfolding HasLiterals
other_amount-HasLiterals = (tt, (refl, tt))

canonical_json_iff_example :
    (canonical_json one_amount ≡ canonical_json other_amount) ↔ SameJson one_amount other_amount
canonical_json_iff_example =
    canonical_json_iff one_amount other_amount one_amount-HasLiterals other_amount-HasLiterals
