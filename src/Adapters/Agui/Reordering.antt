-- ===== src/Adapters/Agui/Reordering.antt =====
-- Lists of continuations in another order.
use pausemesh.Prelude.{
  suc, ◌≡◌, refl, ap, sym, ◌∙◌, Bool, true, false, ◌||◌, List, [], ◌∷◌, length, arith,
}
use pausemesh.Prelude.Text.{text_eq, apart, is_member}
use pausemesh.Domain.Types.{ContinuationId, ContinuationEnvelope}
use pausemesh.Adapters.Agui.Cohorts.{ids_of}
use pausemesh.Adapters.Agui.Distinct.{Distinct}

-- The same continuations in another order.
pub data Reordered : List ContinuationEnvelope → List ContinuationEnvelope → Type 0 where
  done : Reordered [] []
  keep :
      (c : ContinuationEnvelope) {cs ds : List ContinuationEnvelope}
      → Reordered cs ds
      → Reordered (c ∷ cs) (c ∷ ds)
  swap :
      (c d : ContinuationEnvelope) (cs : List ContinuationEnvelope)
      → Reordered (c ∷ d ∷ cs) (d ∷ c ∷ cs)
  trans :
      {cs ds es : List ContinuationEnvelope} → Reordered cs ds → Reordered ds es → Reordered cs es

either_order : (a b c : Bool) → (a || (b || c)) ≡ (b || (a || c))
either_order true true c = refl
either_order true false c = refl
either_order false b c = refl

pub is_member-Reordered :
    {cs ds : List ContinuationEnvelope} (id : ContinuationId)
    → Reordered cs ds
    → is_member id (ids_of cs) ≡ is_member id (ids_of ds)
unfolding is_member
is_member-Reordered id Reordered.done = refl
is_member-Reordered id (Reordered.keep a p) = rw (is_member-Reordered id p) refl
is_member-Reordered id (Reordered.swap a b l) =
    either_order (text_eq id a.continuation_id) (text_eq id b.continuation_id)
      (is_member id (ids_of l))
is_member-Reordered id (Reordered.trans p q) = is_member-Reordered id p ∙ is_member-Reordered id q

pub Distinct-Reordered :
    {cs ds : List ContinuationEnvelope}
    → Reordered cs ds
    → Distinct (ids_of cs)
    → Distinct (ids_of ds)
unfolding Distinct is_member
Distinct-Reordered Reordered.done d = tt
Distinct-Reordered (Reordered.keep a p) (fresh, d) =
    (sym (is_member-Reordered a.continuation_id p) ∙ fresh, Distinct-Reordered p d)
Distinct-Reordered (Reordered.swap a b l) (fresh, (fresh', d)) =
    let other : text_eq a.continuation_id b.continuation_id ≡ false = ground arith in
    let absent : is_member a.continuation_id (ids_of l) ≡ false = ground arith in
    (rw (apart b.continuation_id a.continuation_id other) fresh', (absent, d))
Distinct-Reordered (Reordered.trans p q) d = Distinct-Reordered q (Distinct-Reordered p d)

pub length-Reordered : {cs ds : List ContinuationEnvelope} → Reordered cs ds → length cs ≡ length ds
length-Reordered Reordered.done = refl
length-Reordered (Reordered.keep a p) = ap suc (length-Reordered p)
length-Reordered (Reordered.swap a b l) = refl
length-Reordered (Reordered.trans p q) = length-Reordered p ∙ length-Reordered q
