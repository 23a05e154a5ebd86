-- ===== src/Ports/Observer.antt =====
-- ports/observer.ts and ports/token-issuer.ts
use pausemesh.Prelude.{ℕ}
use pausemesh.Prelude.Text.{Text}
use pausemesh.Domain.Types.{ContinuationId, IsoTimestamp, ContinuationStatus}
use pausemesh.Domain.Errors.{PauseMeshErrorCode}

-- Each constructor has the fields of one observation; none holds a token or a payload.
pub data ContinuationObservation : Type 0 where
  created :
      (continuation_id : ContinuationId) (correlation_id : Text) (observed_at : IsoTimestamp)
      (version : ℕ)
      → ContinuationObservation
  transitioned :
      (continuation_id : ContinuationId) (observed_at : IsoTimestamp) (status : ContinuationStatus)
      (version : ℕ)
      → ContinuationObservation
  rejected :
      (continuation_id : ContinuationId) (observed_at : IsoTimestamp) (code : PauseMeshErrorCode)
      → ContinuationObservation

pub record IssuedResumeToken : Type 0 where
  pub token : Text
  pub token_hash : Text
