-- ===== src/Capability/Token/Dids.antt =====
-- `DID` of identity/did.py: its two fields, its text and its equality.
use qasp.Prelude.{String, Bool, ◌≡◌, ◌↔◌, ◌&&◌, true, arith, str_eq, eq_iff}
use Prim.Native.String.{◌++◌ as str_append}

pub record Did : Type 0 where
  pub method : String
  pub identifier : String

-- `DID.__str__`.
unfoldable pub did_text : Did → String
did_text d = str_append "did:" (str_append d.method (str_append ":" d.identifier))

-- The dataclass's own `__eq__`.
unfoldable pub did_eq : Did → Did → Bool
did_eq a b = str_eq a.method b.method && str_eq a.identifier b.identifier

pub did_eq_iff : (a b : Did) → (did_eq a b ≡ true) ↔ (a ≡ b)
unfolding did_eq
did_eq_iff a b = ground (arith, eq_iff a.method b.method, eq_iff a.identifier b.identifier)
