-- ===== src/Prelude/Text.antt =====
-- Python strings are native texts and `bytes` are lists of numbers; a frozenset of strings is the
-- list of its members, which is only ever asked for membership.
use Prim.Native.Nat.{ℕ}
use Prim.Native.String.{String}
use mathlib.Core.Path.{◌≡◌, refl}
use mathlib.Core.Logic.{◌↔◌}
use mathlib.Core.Bool.{Bool, true, false, not, ◌&&◌, ◌||◌}
use mathlib.Core.List.{List, [], ◌∷◌}
use native.Mathlib.Omega.{arith}
use qasp.Prelude.Tests.{◌==◌, if◌then◌else◌}
pub use text.Mathlib.Text.{◌==◌ as str_eq}
pub use text.Mathlib.TextEquality.{eq_iff}

abbrev pub Bytes : Type 0
Bytes = List ℕ

unfoldable pub bytes_eq : Bytes → Bytes → Bool
bytes_eq [] [] = true
bytes_eq [] (b ∷ bs) = false
bytes_eq (a ∷ as') [] = false
bytes_eq (a ∷ as') (b ∷ bs) = a == b && bytes_eq as' bs

pub bytes_eq_iff : (a b : Bytes) → (bytes_eq a b ≡ true) ↔ (a ≡ b)
unfolding bytes_eq
bytes_eq_iff [] [] = ground arith
bytes_eq_iff [] (b ∷ bs) = ground arith
bytes_eq_iff (a ∷ as') [] = ground arith
bytes_eq_iff (a ∷ as') (b ∷ bs) = ground (arith, bytes_eq_iff as' bs)

unfoldable pub texts_eq : List String → List String → Bool
texts_eq [] [] = true
texts_eq [] (b ∷ bs) = false
texts_eq (a ∷ as') [] = false
texts_eq (a ∷ as') (b ∷ bs) = str_eq a b && texts_eq as' bs

pub texts_eq_iff : (a b : List String) → (texts_eq a b ≡ true) ↔ (a ≡ b)
unfolding texts_eq
texts_eq_iff [] [] = ground arith
texts_eq_iff [] (b ∷ bs) = ground arith
texts_eq_iff (a ∷ as') [] = ground arith
texts_eq_iff (a ∷ as') (b ∷ bs) = ground (arith, texts_eq_iff as' bs, eq_iff a b)

-- The truth value of a string, and of a list, tuple or set of strings.
abbrev pub has_text : String → Bool
has_text s = not (str_eq s "")

abbrev pub is_nonempty {ℓ} : {A : Type ℓ} → List A → Bool
is_nonempty [] = false
is_nonempty (x ∷ xs) = true

-- `a in xs`, `xs.issubset(ys)`, `xs & ys` (the members of `xs` that `ys` has, in the order of `xs`).
unfoldable pub contains : String → List String → Bool
contains a [] = false
contains a (x ∷ xs) = str_eq a x || contains a xs

unfoldable pub issubset : List String → List String → Bool
issubset [] ys = true
issubset (x ∷ xs) ys = contains x ys && issubset xs ys

unfoldable pub intersection : List String → List String → List String
intersection [] ys = []
intersection (x ∷ xs) ys = let rest = intersection xs ys in if contains x ys then x ∷ rest else rest

pub contains-issubset :
    (a : String) (xs ys : List String)
    → issubset xs ys ≡ true
    → contains a xs ≡ true
    → contains a ys ≡ true
unfolding contains issubset
contains-issubset a [] ys h m = ground arith
contains-issubset a (x ∷ xs) ys h m = ground (arith, contains-issubset a xs ys, eq_iff a x)

pub contains-intersection :
    (a : String) (xs ys : List String)
    → contains a (intersection xs ys) ≡ (contains a xs && contains a ys)
unfolding contains intersection
contains-intersection a [] ys = refl
contains-intersection a (x ∷ xs) ys = ground (arith, contains-intersection a xs ys, eq_iff a x)

issubset-cons :
    (x : String) (xs ys : List String) → issubset xs ys ≡ true → issubset xs (x ∷ ys) ≡ true
unfolding issubset contains
issubset-cons x [] ys h = refl
issubset-cons x (y ∷ xs) ys h = ground (arith, issubset-cons x xs ys)

pub issubset_refl : (xs : List String) → issubset xs xs ≡ true
unfolding issubset contains
issubset_refl [] = refl
issubset_refl (x ∷ xs) = ground (arith, issubset_refl xs, issubset-cons x xs xs, eq_iff x x)

pub issubset_trans :
    (xs ys zs : List String) → issubset xs ys ≡ true → issubset ys zs ≡ true → issubset xs zs ≡ true
unfolding issubset
issubset_trans [] ys zs h k = refl
issubset_trans (x ∷ xs) ys zs h k =
    ground (arith, issubset_trans xs ys zs, contains-issubset x ys zs)

pub intersection-issubset : (xs ys : List String) → issubset (intersection xs ys) xs ≡ true
unfolding intersection issubset contains
intersection-issubset [] ys = refl
intersection-issubset (x ∷ xs) ys =
    ground (arith, intersection-issubset xs ys, issubset-cons x (intersection xs ys) xs, eq_iff x x)

pub intersection-issubset_right : (xs ys : List String) → issubset (intersection xs ys) ys ≡ true
unfolding intersection issubset
intersection-issubset_right [] ys = refl
intersection-issubset_right (x ∷ xs) ys = ground (arith, intersection-issubset_right xs ys)
