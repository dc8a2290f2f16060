-- ===== src/Framing.antt =====
-- framing/messages.py and framing/codec.py: what a message is made of. The children have the fields
-- of the message classes, the codec, and what the codec keeps.
pub mod Types
pub mod Sessions
pub mod Resources
pub mod Agreements
pub mod Codec
pub mod Attributes
pub mod RoundTrip
use qasp.Prelude.{String, Bool, true, false, List, []}
use qasp.Prelude.Int.{pos}
use qasp.Platform.{Value, Items, int, text, bytes}

-- What an attribute holds: a tuple, or another value. Lists and dictionaries inside a value are
-- those of CBOR.
pub data Attr : Type 0 where
  plain : Value → Attr
  tuple : Items → Attr

-- A field of a message class; whether its annotation says `tuple`, and its default.
pub record FieldSpec : Type 0 where
  pub name : String
  pub is_tuple : Bool
  pub default_value : Attr

abbrev pub plain_field : String → Value → FieldSpec
plain_field name v = record { name = name; is_tuple = false; default_value = plain v }

abbrev pub bytes_field : String → FieldSpec
bytes_field name = plain_field name (bytes [])

abbrev pub int_field : String → FieldSpec
int_field name = plain_field name (int (pos 0))

abbrev pub text_field : String → FieldSpec
text_field name = plain_field name (text "")

abbrev pub tuple_field : String → Items → FieldSpec
tuple_field name items = record { name = name; is_tuple = true; default_value = tuple items }
