-- ===== src/Service/Ensures.antt =====
-- What a program of the service ensures whatever other clients do to the store between its steps,
-- with one rule for each way to build a program.
use pausemesh.Prelude.{◌≡◌, Bool, Result, ok, err}
use pausemesh.Prelude.Text.{Text}
use pausemesh.Domain.Events.{ContinuationEvent}
use pausemesh.Ports.Failure.{Failure, storage_error}
use pausemesh.Ports.Platform.{Date}
use pausemesh.Ports.Observer.{IssuedResumeToken}
use pausemesh.Ports.EventStore.{Streams, append_events}
use pausemesh.Ports.EventStore.Streams.{Grows, Grows-trans, IsValid}
use pausemesh.Service.Program.{
  Program, done, fail, load, append, now, issue, generate_id, observe, ◌>>=◌, attempt,
}

-- The store has grown, and is valid.
abbrev pub Later : Streams → Streams → Type 0
Later before after = Grows before after × IsValid after

pub Later-trans : (r s t : Streams) → Later r s → Later s t → Later r t
Later-trans r s t (g, v) (h, w) = (Grows-trans r s t g h, w)

abbrev pub Post : Type 0 → Type 1
Post A = Result Failure A → Streams → Type 0

-- A postcondition that other clients cannot undo.
abbrev pub IsStable : {A : Type 0} → Post A → Type 0
IsStable {A} Q =
    (r : Result Failure A) (before after : Streams) → Q r before → Later before after → Q r after

module _ (accepts : ContinuationEvent → Bool) where
  module _ {A : Type 0} (Q : Post A) where
    -- A load reads, and an append meets, any later store; either may be lost.
    abbrev pub Ensures : Program A → Streams → Type 0
    Ensures (done a) s = Q (ok a) s
    Ensures (fail e) s = Q (err e) s
    Ensures (load id k) s =
        (t : Streams) → Later s t → Ensures (k (ok (t id))) t × Ensures (k (err storage_error)) t
    Ensures (append id n es k) s =
        (t : Streams)
        → Later s t
        → ((u : Streams)
            → append_events accepts id n es t ≡ ok u
            → IsValid u × Ensures (k (ok tt)) u × Ensures (k (err storage_error)) u)
          × ((e : Failure) → append_events accepts id n es t ≡ err e → Ensures (k (err e)) t)
          × Ensures (k (err storage_error)) t
    Ensures (now k) s = (d : Date) → Ensures (k d) s
    Ensures (issue k) s = (token : IssuedResumeToken) → Ensures (k token) s
    Ensures (generate_id k) s = (id : Text) → Ensures (k id) s
    Ensures (observe o k) s = Ensures k s

    -- The program has not seen what others do in between.
    pub Ensures-Later :
        IsStable Q → (p : Program A) (s t : Streams) → Ensures p s → Later s t → Ensures p t
    Ensures-Later stable (done a) s t h l = stable (ok a) s t h l
    Ensures-Later stable (fail e) s t h l = stable (err e) s t h l
    Ensures-Later stable (load id k) s t h l = λ u m. h u (Later-trans s t u l m)
    Ensures-Later stable (append id n es k) s t h l = λ u m. h u (Later-trans s t u l m)
    Ensures-Later stable (now k) s t h l = λ d. Ensures-Later stable (k d) s t (h d) l
    Ensures-Later stable (issue k) s t h l = λ d. Ensures-Later stable (k d) s t (h d) l
    Ensures-Later stable (generate_id k) s t h l = λ d. Ensures-Later stable (k d) s t (h d) l
    Ensures-Later stable (observe o k) s t h l = Ensures-Later stable k s t h l

  module _ {A B : Type 0} (P : Post A) (Q : Post B) where
    pub Ensures-bind :
        (m : Program A) (f : A → Program B) (s : Streams)
        → Ensures P m s
        → ((a : A) (t : Streams) → P (ok a) t → Ensures Q (f a) t)
        → ((e : Failure) (t : Streams) → P (err e) t → Q (err e) t)
        → Ensures Q (m >>= f) s
    unfolding ◌>>=◌
    Ensures-bind (done a) f s h g e = g a s h
    Ensures-bind (fail x) f s h g e = e x s h
    Ensures-bind (load id k) f s h g e = λ t l. (
      Ensures-bind (k (ok (t id))) f t (h t l).0 g e,
      Ensures-bind (k (err storage_error)) f t (h t l).1 g e,
    )
    Ensures-bind (append id n es k) f s h g e = λ t l. (
      λ u r.
          let (v, x, y) = (h t l).0 u r in
          (v, Ensures-bind (k (ok tt)) f u x g e, Ensures-bind (k (err storage_error)) f u y g e),
      λ x r. Ensures-bind (k (err x)) f t ((h t l).1 x r) g e,
      Ensures-bind (k (err storage_error)) f t (h t l).2 g e,
    )
    Ensures-bind (now k) f s h g e = λ d. Ensures-bind (k d) f s (h d) g e
    Ensures-bind (issue k) f s h g e = λ d. Ensures-bind (k d) f s (h d) g e
    Ensures-bind (generate_id k) f s h g e = λ d. Ensures-bind (k d) f s (h d) g e
    Ensures-bind (observe o k) f s h g e = Ensures-bind k f s h g e

  module _ {A : Type 0} (P Q : Post A) where
    pub Ensures-attempt :
        (m : Program A) (f : Failure → Program A) (s : Streams)
        → Ensures P m s
        → ((a : A) (t : Streams) → P (ok a) t → Q (ok a) t)
        → ((e : Failure) (t : Streams) → P (err e) t → Ensures Q (f e) t)
        → Ensures Q (attempt m f) s
    unfolding attempt
    Ensures-attempt (done a) f s h g e = g a s h
    Ensures-attempt (fail x) f s h g e = e x s h
    Ensures-attempt (load id k) f s h g e = λ t l. (
      Ensures-attempt (k (ok (t id))) f t (h t l).0 g e,
      Ensures-attempt (k (err storage_error)) f t (h t l).1 g e,
    )
    Ensures-attempt (append id n es k) f s h g e = λ t l. (
      λ u r.
          let (v, x, y) = (h t l).0 u r in
          (
            v,
            Ensures-attempt (k (ok tt)) f u x g e,
            Ensures-attempt (k (err storage_error)) f u y g e,
          ),
      λ x r. Ensures-attempt (k (err x)) f t ((h t l).1 x r) g e,
      Ensures-attempt (k (err storage_error)) f t (h t l).2 g e,
    )
    Ensures-attempt (now k) f s h g e = λ d. Ensures-attempt (k d) f s (h d) g e
    Ensures-attempt (issue k) f s h g e = λ d. Ensures-attempt (k d) f s (h d) g e
    Ensures-attempt (generate_id k) f s h g e = λ d. Ensures-attempt (k d) f s (h d) g e
    Ensures-attempt (observe o k) f s h g e = Ensures-attempt k f s h g e

  module _ {A : Type 0} (P Q : Post A)
      (weaker : (r : Result Failure A) (s : Streams) → P r s → Q r s) where
    pub Ensures-weaken : (m : Program A) (s : Streams) → Ensures P m s → Ensures Q m s
    Ensures-weaken (done a) s h = weaker (ok a) s h
    Ensures-weaken (fail e) s h = weaker (err e) s h
    Ensures-weaken (load id k) s h = λ t l. (
      Ensures-weaken (k (ok (t id))) t (h t l).0,
      Ensures-weaken (k (err storage_error)) t (h t l).1,
    )
    Ensures-weaken (append id n es k) s h = λ t l. (
      λ u r.
          let (v, x, y) = (h t l).0 u r in
          (v, Ensures-weaken (k (ok tt)) u x, Ensures-weaken (k (err storage_error)) u y),
      λ x r. Ensures-weaken (k (err x)) t ((h t l).1 x r),
      Ensures-weaken (k (err storage_error)) t (h t l).2,
    )
    Ensures-weaken (now k) s h = λ d. Ensures-weaken (k d) s (h d)
    Ensures-weaken (issue k) s h = λ d. Ensures-weaken (k d) s (h d)
    Ensures-weaken (generate_id k) s h = λ d. Ensures-weaken (k d) s (h d)
    Ensures-weaken (observe o k) s h = Ensures-weaken k s h
