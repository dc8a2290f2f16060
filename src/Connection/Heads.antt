-- ===== src/Connection/Heads.antt =====
-- The head of the buffer when more bytes follow, and which events are fatal.
use qasp.Prelude.{
  ℕ, zero, suc, Bytes, ◌<◌, ◌≤◌, ◌≡◌, refl, ◌∙◌, ltb, Bool, true, false, not, ◌&&◌, List, [], ◌∷◌,
  ◌++◌, inl, inr, ◌⊎◌, length, take, drop, arith, Bool-cases, length-append,
}
use qasp.Prelude.Result.{Result-cases}
use qasp.Prelude.Binary.{from_bytes}
use qasp.Framing.Codec.{parse_header}
use qasp.Connection.Session.{Event, connection_error}
use qasp.Connection.Receive.{Head, incomplete, bad_header, whole, frame_head}

pub frame_head_size :
    (buffer : Bytes) (n : ℕ) → frame_head buffer ≡ whole n → (0 < n) × (n ≤ length buffer)
unfolding frame_head
frame_head_size buffer n h = elim (Result-cases (parse_header buffer)) [
  | inl (x, read) ↦ ground arith
  | inr (e, refused) ↦ ground arith
]

-- A header, or a frame, is read the same when more bytes follow.
parse_header-append :
    (buffer more : Bytes)
    → ltb (length buffer) 8 ≡ false
    → parse_header (buffer ++ more) ≡ parse_header buffer
unfolding parse_header from_bytes
parse_header-append (a ∷ b ∷ c ∷ d ∷ e ∷ f ∷ g ∷ h ∷ rest) more long =
    ground (arith, length-append rest more)
parse_header-append _ more long = cc

pub frame_head-append :
    (buffer more : Bytes) (n : ℕ)
    → frame_head buffer ≡ whole n
    → frame_head (buffer ++ more) ≡ whole n
unfolding frame_head
frame_head-append buffer more n h = elim (Bool-cases (ltb (length buffer) 8)) [
  | inl short ↦ ground (arith, length-append buffer more)
  | inr long ↦ elim (Result-cases (parse_header buffer)) [
    | inl (x, read) ↦
        let again = parse_header-append buffer more long ∙ read in
        ground (arith, again, length-append buffer more)
    | inr (e, refused) ↦ ground (arith, length-append buffer more)
  ]
]

pub take-append_le :
    (n : ℕ) (xs ys : Bytes)
    → n ≤ length xs
    → (take n (xs ++ ys) ≡ take n xs) × (drop n (xs ++ ys) ≡ drop n xs ++ ys)
take-append_le zero xs ys h = (refl, refl)
take-append_le (suc n) [] ys h = elim h [ ]
take-append_le (suc n) (x ∷ xs) ys h =
    let (e1, e2) = take-append_le n xs ys (omega arith) in (rw e1 refl, e2)

abbrev pub is_fatal : Event → Bool
is_fatal (connection_error fatal) = fatal
is_fatal _ = false

-- No event tells of a fatal error.
unfoldable pub fatal_free : List Event → Bool
fatal_free [] = true
fatal_free (e ∷ es) = not (is_fatal e) && fatal_free es

pub fatal_free-failed : (es : List Event) → fatal_free (es ++ connection_error true ∷ []) ≡ false
unfolding fatal_free
fatal_free-failed [] = refl
fatal_free-failed (e ∷ es) = ground (arith, fatal_free-failed es)

pub Head-cases : (h : Head) → (h ≡ incomplete) ⊎ ((h ≡ bad_header) ⊎ ((n : ℕ) × (h ≡ whole n)))
Head-cases incomplete = inl refl
Head-cases bad_header = inr (inl refl)
Head-cases (whole n) = inr (inr (n, refl))
