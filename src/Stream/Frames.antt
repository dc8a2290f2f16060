-- ===== src/Stream/Frames.antt =====
-- A frame that is written is read back, and a part of it is refused.
use qasp.Prelude.{
  ℕ, Bytes, ◌+◌, ◌-◌, ◌<◌, ◌≡◌, refl, ◌∷◌, ◌++◌, length, take, arith, suc, Bool-cases, inl, inr,
  ltb, length-append, length-take, take-append_length,
}
use qasp.Prelude.Result.{ok, err, value_error}
use qasp.Prelude.Binary.{be4, from_bytes-be4, to_bytes4_eq, to_byte_eq}
use qasp.Stream.{StreamFrame, serialize, deserialize}

-- What fits in the fields of the header.
pub record Fits (f : StreamFrame) : Type 0 where
  pub id_fits : f.stream_id < 4294967296
  pub flags_fit : f.flags < 256
  pub size_fits : length f.payload < 4294967296

pub frame_bytes : StreamFrame → Bytes
frame_bytes f = be4 f.stream_id ++ (f.flags ∷ (be4 (length f.payload) ++ f.payload))

pub serialize_eq : (f : StreamFrame) → Fits f → serialize f ≡ ok (frame_bytes f)
unfolding serialize frame_bytes
serialize_eq f h =
    rw
      (
        to_bytes4_eq f.stream_id h.id_fits,
        to_byte_eq f.flags h.flags_fit,
        to_bytes4_eq (length f.payload) h.size_fits,
      )
      refl

pub length-frame_bytes : (f : StreamFrame) → length (frame_bytes f) ≡ 9 + length f.payload
unfolding frame_bytes be4
length-frame_bytes f = omega arith

pub deserialize-frame_bytes :
    (f : StreamFrame) (rest : Bytes)
    → Fits f
    → deserialize (frame_bytes f ++ rest) ≡ ok (f, 9 + length f.payload)
unfolding frame_bytes deserialize be4
deserialize-frame_bytes f rest h =
    let shown = length-append f.payload rest in
    let id = from_bytes-be4 f.stream_id h.id_fits in
    let size = from_bytes-be4 (length f.payload) h.size_fits in
    rw (deserialize, size, id, take-append_length (length f.payload) f.payload rest refl)
      (ground (arith, shown))

deserialize-take_header :
    (f : StreamFrame) (k : ℕ)
    → Fits f
    → k < length f.payload
    → deserialize (take (suc (suc (suc (suc (suc (suc (suc (suc (suc k))))))))) (frame_bytes f))
      ≡ err value_error
unfolding frame_bytes deserialize be4
deserialize-take_header f k h lt =
    let shown = length-take k f.payload in
    let size = from_bytes-be4 (length f.payload) h.size_fits in
    rw (deserialize, size) (ground (arith, shown))

-- A proper part of a frame is refused as too short.
pub deserialize-take :
    (f : StreamFrame) (n : ℕ)
    → Fits f
    → n < 9 + length f.payload
    → deserialize (take n (frame_bytes f)) ≡ err value_error
unfolding deserialize
deserialize-take f n h lt = elim (Bool-cases (ltb n 9)) [
  | inl short ↦ ground (arith, length-take n (frame_bytes f), length-frame_bytes f)
  | inr long ↦
      let e : n ≡ suc (suc (suc (suc (suc (suc (suc (suc (suc (n - 9))))))))) = ground arith in
      rw e (deserialize-take_header f (n - 9) h (ground arith))
]
