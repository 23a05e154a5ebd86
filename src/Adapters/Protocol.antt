-- ===== src/Adapters/Protocol.antt =====
-- adapters/protocol-error.ts, and a guard that gives an adapter's error.
use pausemesh.Prelude.{◌≡◌, refl, Bool, true, false, Result, ok, err}

pub data ProtocolAdapterErrorCode : Type 0 where
  invalid_protocol_binding : ProtocolAdapterErrorCode
  invalid_protocol_message : ProtocolAdapterErrorCode
  invalid_protocol_transition : ProtocolAdapterErrorCode
  unsupported_protocol_capability : ProtocolAdapterErrorCode

module _ {ℓ} {E : Type ℓ} where
  abbrev pub require : Bool → E → Result E (Unit {0})
  require true code = ok tt
  require false code = err code

  pub require-ok : (b : Bool) (code : E) → require b code ≡ ok tt → b ≡ true
  require-ok true code h = refl
  require-ok false code h = cc
