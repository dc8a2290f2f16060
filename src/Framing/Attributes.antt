-- ===== src/Framing/Attributes.antt =====
-- The dictionary of a message's attributes gives the message back.
use qasp.Prelude.{
  String, ◌≡◌, refl, Bool, true, false, not, ◌&&◌, Option, none, some, List, [], ◌∷◌, map, contains,
  arith, eq_iff,
}
use qasp.Prelude.Result.{ok, err, framing_error}
use qasp.Platform.{Value, Fields, dict, field}
use qasp.Framing.{Attr, FieldSpec}
use qasp.Framing.Types.{MessageType, client_hello}
use qasp.Framing.Codec.{
  Message, to_value, from_value, payload_fields, find_field, fill, class_of, dict_to_message,
}

-- A field annotated as a tuple holds one, and no other field does or holds a bare list.
abbrev Fitting : Bool → Attr → Type 0
Fitting b a = from_value b (to_value a) ≡ a

-- The attributes of an object of a class: its fields in order.
abbrev pub Instance : List FieldSpec → List (String × Attr) → Type 0
Instance [] [] = Unit
Instance [] (a ∷ as') = ⊥
Instance (s ∷ ss) [] = ⊥
Instance (s ∷ ss) ((name, a) ∷ as') = (name ≡ s.name) × Fitting s.is_tuple a × Instance ss as'

distinct : List String → Bool
distinct [] = true
distinct (x ∷ xs) = not (contains x xs) && distinct xs

names : List (String × Attr) → List String
names [] = []
names ((name, a) ∷ as') = name ∷ names as'

class_names : Option (List FieldSpec) → List String
class_names none = []
class_names (some ss) = map (λ s. s.name) ss

class_of-distinct : (t : MessageType) → distinct (class_names (class_of t)) ≡ true
unfolding class_of class_names distinct contains
class_of-distinct client_hello = refl
class_of-distinct _ = refl

-- A dictionary has every attribute.
Holds : List (String × Attr) → Fields → Type 0
Holds [] fs = Unit
Holds ((name, a) ∷ as') fs = (find_field name fs ≡ some (to_value a)) × Holds as' fs

Holds-field :
    (as' : List (String × Attr)) (k : String) (v : Value) (fs : Fields)
    → contains k (names as') ≡ false
    → Holds as' fs
    → Holds as' (field k v fs)
unfolding Holds names contains find_field
Holds-field [] k v fs h g = tt
Holds-field ((name, a) ∷ as') k v fs h g =
    (ground (arith, g.0), Holds-field as' k v fs (ground arith) g.1)

Holds-payload_fields :
    (as' : List (String × Attr)) → distinct (names as') ≡ true → Holds as' (payload_fields as')
unfolding Holds names distinct payload_fields find_field
Holds-payload_fields [] h = tt
Holds-payload_fields ((name, a) ∷ as') h =
    let fresh : contains name (names as') ≡ false = ground arith in
    let rest : distinct (names as') ≡ true = ground arith in
    (
      rw ((eq_iff name name).1 refl) refl,
      Holds-field as' name (to_value a) (payload_fields as') fresh (Holds-payload_fields as' rest),
    )

fill-Holds :
    (ss : List FieldSpec) (as' : List (String × Attr)) (fs : Fields)
    → Instance ss as'
    → Holds as' fs
    → fill ss fs ≡ as'
unfolding fill Holds
fill-Holds [] [] fs i h = refl
fill-Holds [] (a ∷ as') fs i h = absurd i
fill-Holds (s ∷ ss) [] fs i h = absurd i
fill-Holds (s ∷ ss) ((name, a) ∷ as') fs i h =
    let found : find_field s.name fs ≡ some (to_value a) = rw (i.0) at h.0 in
    rw (fill, found, i.1, fill-Holds ss as' fs i.2 h.1) (cc (i.0))

names-Instance :
    (ss : List FieldSpec) (as' : List (String × Attr))
    → Instance ss as'
    → names as' ≡ map (λ s. s.name) ss
unfolding names
names-Instance [] [] i = refl
names-Instance [] (a ∷ as') i = absurd i
names-Instance (s ∷ ss) [] i = absurd i
names-Instance (s ∷ ss) ((name, a) ∷ as') i = rw (i.0, names-Instance ss as' i.2) refl

-- The dictionary of an object's attributes gives the object back.
pub dict_to_message-payload_fields :
    (m : Message) (ss : List FieldSpec)
    → class_of m.message_type ≡ some ss
    → Instance ss m.attributes
    → dict_to_message m.message_type (dict (payload_fields m.attributes)) ≡ ok m
unfolding dict_to_message class_names
dict_to_message-payload_fields m ss known i =
    let apart : distinct (map (λ s. s.name) ss) ≡ true =
      rw known at (class_of-distinct m.message_type) in
    let different : distinct (names m.attributes) ≡ true =
      rw (names-Instance ss m.attributes i) apart in
    let back =
      fill-Holds ss m.attributes (payload_fields m.attributes) i
        (Holds-payload_fields m.attributes different) in
    rw (dict_to_message, known, back) refl

pub dict_to_message_unlisted :
    (t : MessageType) (v : Value) → class_of t ≡ none → dict_to_message t v ≡ err framing_error
unfolding dict_to_message
dict_to_message_unlisted t v h = rw (dict_to_message, h) refl
