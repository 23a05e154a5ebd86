-- ===== src/Json.antt =====
-- JSON values (domain/types.ts) and the parts of the JSON object of the language that the program
-- calls. A finite number is its literal, the text that `JSON.stringify` prints for it.
pub mod Fields
pub mod Quote
pub mod Print
pub mod Order
pub mod Canonical
pub mod Same
pub mod Ordered
pub mod Numbers
mod Examples
use pausemesh.Prelude.{Bool, List, [], ◌∷◌}
use pausemesh.Prelude.Text.{Text}

mutual
  pub data Json : Type 0 where
    null : Json
    bool : Bool → Json
    num : Text → Json
    str : Text → Json
    arr : Items → Json
    obj : Entries → Json

  pub data Items : Type 0 where
    nil : Items
    cons : Json → Items → Items

  -- The own enumerable properties, in the order of `Object.entries`.
  pub data Entries : Type 0 where
    end : Entries
    entry : Text → Json → Entries → Entries

abbrev pub JsonObject : Type 0
JsonObject = Entries
