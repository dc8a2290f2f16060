-- ===== src/Connection/Frames.antt =====
-- One whole frame through `receive_bytes`.
use mathlib.Core.List.{append-nil}
use qasp.Prelude.{
  ℕ, zero, suc, Bytes, ◌+◌, ◌<◌, ◌≡◌, refl, sym, ap, ◌∙◌, false, ltb, some, List, [], ◌∷◌, arith,
  length, take, drop, take-append_length, drop-append_length,
}
use qasp.Prelude.Result.{ok}
use qasp.Framing.{FieldSpec}
use qasp.Framing.Attributes.{Instance}
use qasp.Framing.Codec.{Message, encode_frame, decode_frame, class_of}
use qasp.Framing.RoundTrip.{Carries, decode_frame-encode_frame, parse-encode_frame}
use qasp.Connection.Session.{Session, Parts, Event}
use qasp.Connection.Handlers.{process_message}
use qasp.Connection.Receive.{
  whole, frame_head, receive_bytes, handle_frame, handled, again, receive_round, receive_loop,
}
use qasp.Connection.Heads.{frame_head_size}

module _ {H : Type 0} (p : Parts H) where
  nothing_left :
      (f : ℕ) (es : List Event) (t : Session H)
      → 0 < f
      → receive_loop p f es [] t
        ≡ some (record { connection = record { recv_buffer = []; session = t }; answer = ok es })
  unfolding receive_loop frame_head
  nothing_left zero es t h = elim h [ ]
  nothing_left (suc f) es t h = refl

  -- The receiving loop on one whole frame.
  one_frame :
      (frame : Bytes) (q t : Session H) (es : List Event)
      → frame_head frame ≡ whole (length frame)
      → handle_frame p frame q ≡ (t, ok es)
      → receive_loop p (suc (length frame)) [] frame q
        ≡ some (record { connection = record { recv_buffer = []; session = t }; answer = ok es })
  unfolding receive_loop receive_round handled
  one_frame frame q t es whole_frame done =
      let all_taken : take (length frame) frame ≡ frame =
        rw (append-nil frame) at (take-append_length (length frame) frame [] refl) in
      let none_left : drop (length frame) frame ≡ [] =
        rw (append-nil frame) at (drop-append_length (length frame) frame [] refl) in
      let stepped : handled p [] (drop (length frame) frame)
            (handle_frame p (take (length frame) frame) q)
          ≡ again es [] t =
        rw (all_taken, none_left, done) refl in
      rw (receive_loop, receive_round, whole_frame, stepped)
        (nothing_left (length frame) es t (frame_head_size frame (length frame) whole_frame).0)

  encoded_head :
      (m : Message) (key frame : Bytes)
      → Carries p.wire m
      → encode_frame p.wire m key ≡ ok frame
      → frame_head frame ≡ whole (length frame)
  unfolding frame_head
  encoded_head m key frame c e =
      let (h, parsed, size) = parse-encode_frame p.wire m key frame c e in
      let long : ltb (length frame) 8 ≡ false = ground arith in
      let full : ltb (length frame) (8 + h.payload_length + 48) ≡ false = ground arith in
      rw (frame_head, long, parsed, full) (ap whole (sym size))

  decoded :
      (m : Message) (ss : List FieldSpec) (key frame : Bytes)
      → Carries p.wire m
      → class_of m.message_type ≡ some ss
      → Instance ss m.attributes
      → encode_frame p.wire m key ≡ ok frame
      → decode_frame p.wire frame key ≡ ok (m, length frame)
  decoded m ss key frame c known i e =
      rw (append-nil frame) at (decode_frame-encode_frame p.wire m ss key frame [] c known i e)

  handle_frame_lem :
      (m : Message) (n : ℕ) (frame : Bytes) (q : Session H)
      → decode_frame p.wire frame q.hmac_key ≡ ok (m, n)
      → handle_frame p frame q ≡ process_message p m q
  unfolding handle_frame
  handle_frame_lem m n frame q e = rw (handle_frame, e) refl

  on_frame :
      (frame : Bytes) (q t : Session H) (es : List Event)
      → frame_head frame ≡ whole (length frame)
      → handle_frame p frame q ≡ (t, ok es)
      → receive_bytes p frame (record { recv_buffer = []; session = q })
        ≡ some (record { connection = record { recv_buffer = []; session = t }; answer = ok es })
  unfolding receive_bytes
  on_frame [] q t es h d = elim (frame_head_size [] 0 h).0 [ ]
  on_frame (b ∷ bs) q t es h d = one_frame (b ∷ bs) q t es h d

  -- A session that is sent a message as a frame under its key handles the message.
  pub receive_bytes-encode_frame :
      (m : Message) (ss : List FieldSpec) (frame : Bytes) (q t : Session H) (es : List Event)
      → Carries p.wire m
      → class_of m.message_type ≡ some ss
      → Instance ss m.attributes
      → encode_frame p.wire m q.hmac_key ≡ ok frame
      → process_message p m q ≡ (t, ok es)
      → receive_bytes p frame (record { recv_buffer = []; session = q })
        ≡ some (record { connection = record { recv_buffer = []; session = t }; answer = ok es })
  receive_bytes-encode_frame m ss frame q t es c known i e done =
      on_frame frame q t es (encoded_head m q.hmac_key frame c e) (
        handle_frame_lem m (length frame) frame q (decoded m ss q.hmac_key frame c known i e)
        ∙ done)
