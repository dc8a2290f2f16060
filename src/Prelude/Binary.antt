-- ===== src/Prelude/Binary.antt =====
-- Python's int.to_bytes and int.from_bytes, big-endian, and bytes([n]).
use qasp.Prelude.{
  ℕ, Bytes, ◌+◌, ◌*◌, ◌/◌, ◌%◌, ◌<◌, ◌≡◌, [], ◌∷◌, ◌++◌, arith, ltb, if◌then◌else◌, lt→ltb,
}
use qasp.Prelude.Result.{Result, ok, err, value_error, overflow_error}

unfoldable pub be4 : ℕ → Bytes
be4 n = (n / 16777216) ∷ (n / 65536 % 256) ∷ (n / 256 % 256) ∷ (n % 256) ∷ []

-- n.to_bytes(4, "big")
unfoldable pub to_bytes4 : ℕ → Result Bytes
to_bytes4 n = if ltb n 4294967296 then ok (be4 n) else err overflow_error

-- n.to_bytes(2, "big")
unfoldable pub to_bytes2 : ℕ → Result Bytes
to_bytes2 n = if ltb n 65536 then ok ((n / 256) ∷ (n % 256) ∷ []) else err overflow_error

unfoldable pub be8 : ℕ → Bytes
unfolding be4
be8 n = be4 (n / 4294967296) ++ be4 (n % 4294967296)

-- n.to_bytes(8, "big")
unfoldable pub to_bytes8 : ℕ → Result Bytes
to_bytes8 n = if ltb n 18446744073709551616 then ok (be8 n) else err overflow_error

-- bytes([n])
unfoldable pub to_byte : ℕ → Result Bytes
to_byte n = if ltb n 256 then ok (n ∷ []) else err value_error

unfoldable pub from_be : ℕ → Bytes → ℕ
from_be acc [] = acc
from_be acc (b ∷ bs) = from_be (acc * 256 + b) bs

-- int.from_bytes(bs, "big")
unfoldable pub from_bytes : Bytes → ℕ
unfolding from_be
from_bytes bs = from_be 0 bs

pub from_bytes-be4 : (n : ℕ) → n < 4294967296 → from_bytes (be4 n) ≡ n
unfolding from_bytes be4
from_bytes-be4 n h = omega arith

pub to_bytes4_eq : (n : ℕ) → n < 4294967296 → to_bytes4 n ≡ ok (be4 n)
unfolding to_bytes4
to_bytes4_eq n h = rw (lt→ltb _ _ h)

pub to_byte_eq : (n : ℕ) → n < 256 → to_byte n ≡ ok (n ∷ [])
unfolding to_byte
to_byte_eq n h = rw (lt→ltb _ _ h)
