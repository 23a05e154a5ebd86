-- ===== src/Adapters/Http/Readiness.antt =====
-- The health and readiness routes of adapters/http/app.ts.
use pausemesh.Prelude.{ℕ, Option, none, some, Result, ok, err}
use pausemesh.Ports.Failure.{Failure}

pub data CheckStatus : Type 0 where
  ready not_configured unavailable : CheckStatus

-- The status of the response, and of the check of the event store.
pub record ReadinessResponse : Type 0 where
  pub status : ℕ
  pub check : CheckStatus

-- `GET /healthz`
abbrev pub get_healthz : ℕ
get_healthz = 200

-- The probe of the host, if there is one, by what `checkReadiness` does.
unfoldable pub get_readyz : Option (Result Failure (Unit {0})) → ReadinessResponse
get_readyz none = record { status = 503; check = not_configured }
get_readyz (some (ok done)) = record { status = 200; check = ready }
get_readyz (some (err e)) = record { status = 503; check = unavailable }
