-- ===== src/Platform.antt =====
-- What the modelled modules take from elsewhere: Python's runtime and the libraries cbor2, hashlib
-- and liboqs. `sign` and `verify` are the calls of crypto/signatures.py, which wraps liboqs.
use qasp.Prelude.{ℕ, String, Bytes, Bool, List, ◌≡◌}
use qasp.Prelude.Int.{ℤ}
use qasp.Prelude.Result.{Result, ok}

-- The values that are handed to `cbor2.dumps`: a dictionary is the list of its entries in order.
mutual
  pub data Value : Type 0 where
    null : Value
    int : ℤ → Value
    text : String → Value
    bytes : Bytes → Value
    array : Items → Value
    dict : Fields → Value

  pub data Items : Type 0 where
    nil : Items
    cons : Value → Items → Items

  pub data Fields : Type 0 where
    end : Fields
    field : String → Value → Fields → Fields

pub record Platform : Type 0 where
  -- signatures.sign(secret_key, message)
  pub sign : Bytes → Bytes → Result Bytes
  -- signatures.verify(public_key, message, signature), which raises or returns True
  pub verify : Bytes → Bytes → Bytes → Result (Unit {0})
  -- hashlib.sha384(data).digest()
  pub sha384 : Bytes → Bytes
  -- cbor2.dumps(value)
  pub dumps : Value → Bytes
  -- str.encode(), bytes.hex(), datetime.isoformat(), sorted()
  pub encode : String → Bytes
  pub hex : Bytes → String
  pub isoformat : ℕ → String
  pub sorted : List String → List String
  -- z.to_bytes(n, "big", signed=s), which raises OverflowError
  pub to_bytes : ℤ → ℕ → Bool → Result Bytes

-- A secret key and the public key that verifies what it signs.
pub record IsKeyPair (p : Platform) (secret_key public_key : Bytes) : Type 0 where
  pub signature : Bytes → Bytes
  pub signs : (m : Bytes) → p.sign secret_key m ≡ ok (signature m)
  pub verifies : (m : Bytes) → p.verify public_key m (signature m) ≡ ok tt
