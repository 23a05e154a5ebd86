-- ===== src/Adapters/Agui/Distinct.antt =====
-- Identifiers that occur once: the sizes of sets, and the reads of maps.
use pausemesh.Prelude.{
  suc, ◌≤◌, ◌≡◌, refl, ap, false, none, some, List, [], ◌∷◌, length, All, Bool-cases, inl, inr,
  arith,
}
use pausemesh.Prelude.Text.{Text, text_eq_refl, is_member, set_size}
use pausemesh.Domain.Types.{ContinuationId, ContinuationEnvelope}
use pausemesh.Adapters.Agui.Cohorts.{ids_of, find}

unfoldable pub Distinct : List Text → Type 0
Distinct [] = Unit
Distinct (id ∷ ids) = (is_member id ids ≡ false) × Distinct ids

pub set_size-bound : (ids : List Text) → set_size ids ≤ length ids
unfolding set_size
set_size-bound [] = omega arith
set_size-bound (id ∷ ids) = ground (arith, set_size-bound ids)

pub set_size-Distinct : (ids : List Text) → Distinct ids → set_size ids ≡ length ids
unfolding set_size Distinct
set_size-Distinct [] d = refl
set_size-Distinct (id ∷ ids) (fresh, d) = rw fresh (ap suc (set_size-Distinct ids d))

pub Distinct-set_size : (ids : List Text) → set_size ids ≡ length ids → Distinct ids
unfolding set_size Distinct
Distinct-set_size [] h = tt
Distinct-set_size (id ∷ ids) h = elim (Bool-cases (is_member id ids)) [
  | inl again ↦ absurd (omega (arith, set_size-bound ids, rw again at h))
  | inr fresh ↦ (fresh, Distinct-set_size ids (omega (arith, rw fresh at h)))
]

-- The identifier of a continuation gives it.
abbrev pub IsFound : List ContinuationEnvelope → ContinuationEnvelope → Type 0
IsFound cs c = find c.continuation_id cs ≡ some c

find_absent :
    (id : ContinuationId) (cs : List ContinuationEnvelope)
    → is_member id (ids_of cs) ≡ false
    → find id cs ≡ none
unfolding find is_member
find_absent id [] h = refl
find_absent id (c ∷ cs) h =
    let rest : find id cs ≡ none = find_absent id cs (ground arith) in ground arith

IsFound-later :
    (c : ContinuationEnvelope) (cs ds : List ContinuationEnvelope)
    → All (IsFound cs) ds
    → All (IsFound (c ∷ cs)) ds
unfolding find
IsFound-later c cs [] h = tt
IsFound-later c cs (d ∷ ds) (here, h) = (rw here refl, IsFound-later c cs ds h)

pub All-IsFound : (cs : List ContinuationEnvelope) → Distinct (ids_of cs) → All (IsFound cs) cs
unfolding find Distinct
All-IsFound [] d = tt
All-IsFound (c ∷ cs) (fresh, d) = (
  rw (find_absent c.continuation_id cs fresh, text_eq_refl c.continuation_id) refl,
  IsFound-later c cs cs (All-IsFound cs d),
)
