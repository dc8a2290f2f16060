-- ===== src/Framing/RoundTrip.antt =====
-- What is encoded is decoded: headers and frames.
use mathlib.Core.List.{append_assoc}
use qasp.Prelude.{
  take-append_length, drop-append_length, Bytes, ◌+◌, ◌<◌, ◌≡◌, refl, ap, ◌∙◌, false, none, some,
  List, ◌∷◌, ◌++◌, inl, inr, length, take, drop, arith, ltb, bytes_eq, bytes_eq_iff, Bool-cases,
  length-append,
}
use qasp.Prelude.Result.{ok, err, framing_error, ◌>>=◌, >>=-ok}
use qasp.Prelude.Binary.{be4, to_byte, from_bytes-be4}
use qasp.Platform.{dict}
use qasp.Framing.{FieldSpec}
use qasp.Framing.Types.{code, from_code-code}
use qasp.Framing.Attributes.{Instance, dict_to_message-payload_fields, dict_to_message_unlisted}
use qasp.Framing.Codec.{
  Wire, Message, FrameHeader, parse_header, header_bytes, payload_fields, class_of, dict_to_message,
  encode, encode_frame, decode_body, decode, decode_frame, frame_magic,
}

module _ (w : Wire) where
  -- What is needed of cbor2 and hmac to send one message.
  pub record Carries (m : Message) : Type 0 where
    pub decodes : w.loads (encode w m) ≡ ok (dict (payload_fields m.attributes))
    pub mac_size : (key bs : Bytes) → length (w.hmac key bs) ≡ 48

  head_bytes : Message → Bytes
  head_bytes m = frame_magic ++ (1 ∷ (code m.message_type ∷ be4 (length (encode w m))))

  -- A frame is written exactly when the payload's length fits in the header.
  encode_frame_eq :
      (m : Message) (key bs : Bytes)
      → encode_frame w m key ≡ ok bs
      → (length (encode w m) < 4294967296)
        × (bs ≡ (head_bytes m ++ encode w m) ++ w.hmac key (head_bytes m ++ encode w m))
  unfolding encode_frame header_bytes head_bytes to_byte
  encode_frame_eq m key bs h = elim (Bool-cases (ltb (length (encode w m)) 4294967296)) [
    | inl fits ↦ let e = rw (encode_frame, header_bytes, fits) at h in (ground arith, cc)
    | inr large ↦ let e = rw (encode_frame, header_bytes, large) at h in cc
  ]

  parse-head_bytes :
      (m : Message) (rest : Bytes)
      → length (encode w m) < 4294967296
      → parse_header (head_bytes m ++ rest)
        ≡ ok (record {
          magic = frame_magic;
          version = 1;
          message_type = m.message_type;
          payload_length = length (encode w m);
        })
  unfolding parse_header head_bytes be4 bytes_eq
  parse-head_bytes m rest fits =
      let size = from_bytes-be4 (length (encode w m)) fits in
      let long : ltb (length (head_bytes m ++ rest)) 8 ≡ false = ground arith in
      rw (parse_header, long, from_code-code m.message_type)
        (λ i. ok (record {
          magic = frame_magic;
          version = 1;
          message_type = m.message_type;
          payload_length = size i;
        }))

  -- The parts that the decoder cuts a frame into.
  cuts :
      (head payload mac rest : Bytes)
      → length head ≡ 8
      → length mac ≡ 48
      → (take 8 (((head ++ payload) ++ mac) ++ rest) ≡ head)
        × (take (length payload) (drop 8 (((head ++ payload) ++ mac) ++ rest)) ≡ payload)
        × (take 48 (drop (8 + length payload) (((head ++ payload) ++ mac) ++ rest)) ≡ mac)
        × (ltb (length (((head ++ payload) ++ mac) ++ rest)) (8 + length payload + 48) ≡ false)
  cuts head payload mac rest h k =
      let e1 : ((head ++ payload) ++ mac) ++ rest ≡ (head ++ payload) ++ (mac ++ rest) =
        append_assoc (head ++ payload) mac rest in
      let e2 : ((head ++ payload) ++ mac) ++ rest ≡ head ++ (payload ++ (mac ++ rest)) =
        e1 ∙ append_assoc head payload (mac ++ rest) in
      let both : length (head ++ payload) ≡ 8 + length payload =
        omega (arith, length-append head payload) in
      (
        rw e2 (take-append_length 8 head (payload ++ (mac ++ rest)) h),
        rw e2 (
            rw (drop-append_length 8 head (payload ++ (mac ++ rest)) h)
              (take-append_length (length payload) payload (mac ++ rest) refl)),
        rw e1 (
            rw (drop-append_length (8 + length payload) (head ++ payload) (mac ++ rest) both)
              (take-append_length 48 mac rest k)),
        ground (
          arith,
          both,
          length-append (((head ++ payload) ++ mac)) rest,
          length-append (head ++ payload) mac,
        ),
      )

  length-head_bytes : (m : Message) → length (head_bytes m) ≡ 8
  unfolding head_bytes be4
  length-head_bytes m = refl

  decode_body-cuts :
      (m : Message) (key rest : Bytes) (h : FrameHeader)
      → Carries m
      → h.message_type ≡ m.message_type
      → h.payload_length ≡ length (encode w m)
      → decode_body w h
          (((head_bytes m ++ encode w m) ++ w.hmac key (head_bytes m ++ encode w m)) ++ rest)
          key
        ≡ (dict_to_message m.message_type (dict (payload_fields m.attributes)) >>= λ n.
            ok (n, 8 + length (encode w m) + 48))
  unfolding decode_body decode
  decode_body-cuts m key rest h c same_type same_length =
      let mac = w.hmac key (head_bytes m ++ encode w m) in
      let (head, payload, tag, long) =
        cuts (head_bytes m) (encode w m) mac rest (length-head_bytes m) (c.mac_size _ _) in
      let equal = (bytes_eq_iff mac mac).1 refl in
      rw (decode_body, same_type, same_length, long, head, payload, tag, equal, decode, c.decodes)
        refl

  decode_frame_lem :
      (bs : Bytes) (h : FrameHeader) (key : Bytes)
      → parse_header bs ≡ ok h
      → decode_frame w bs key ≡ decode_body w h bs key
  unfolding decode_frame
  decode_frame_lem bs h key e = >>=-ok (parse_header bs) (λ h'. decode_body w h' bs key) e

  -- What the decoder makes of a frame, and of what follows it.
  decode_frame_of :
      (m : Message) (key bs rest : Bytes)
      → Carries m
      → encode_frame w m key ≡ ok bs
      → decode_frame w (bs ++ rest) key ≡ (
          dict_to_message m.message_type (dict (payload_fields m.attributes)) >>= λ n.
          ok (n, length bs))
  decode_frame_of m key bs rest c e =
      let (fits, shape) = encode_frame_eq m key bs e in
      let mac = w.hmac key (head_bytes m ++ encode w m) in
      let joined : bs ++ rest ≡ ((head_bytes m ++ encode w m) ++ mac) ++ rest = rw shape refl in
      let parts : ((head_bytes m ++ encode w m) ++ mac) ++ rest
          ≡ head_bytes m ++ (encode w m ++ (mac ++ rest)) =
        append_assoc (head_bytes m ++ encode w m) mac rest
        ∙ append_assoc (head_bytes m) (encode w m) (mac ++ rest) in
      let opened = rw (← parts) at (parse-head_bytes m (encode w m ++ (mac ++ rest)) fits) in
      let size : length bs ≡ 8 + length (encode w m) + 48 = omega (
        arith,
        ap length shape,
        c.mac_size key (head_bytes m ++ encode w m),
        length-head_bytes m,
        length-append (head_bytes m ++ encode w m) mac,
        length-append (head_bytes m) (encode w m),
      ) in
      rw (joined, size)
        (decode_frame_lem _ _ key opened ∙ decode_body-cuts m key rest _ c refl refl)

  -- A message of a class that the decoder knows is read back from its frame, with the same key and
  -- whatever follows, and the decoder says how long the frame was.
  pub decode_frame-encode_frame :
      (m : Message) (ss : List FieldSpec) (key bs rest : Bytes)
      → Carries m
      → class_of m.message_type ≡ some ss
      → Instance ss m.attributes
      → encode_frame w m key ≡ ok bs
      → decode_frame w (bs ++ rest) key ≡ ok (m, length bs)
  decode_frame-encode_frame m ss key bs rest c known i e =
      let back = dict_to_message-payload_fields m ss known i in
      decode_frame_of m key bs rest c e ∙ >>=-ok _ (λ n. ok (n, length bs)) back

  -- A message whose type is not in the decoder's table, as those between agents, is sent and then
  -- refused as badly framed, although its header and its tag are right.
  pub decode_frame_unlisted :
      (m : Message) (key bs rest : Bytes)
      → Carries m
      → class_of m.message_type ≡ none
      → encode_frame w m key ≡ ok bs
      → decode_frame w (bs ++ rest) key ≡ err framing_error
  decode_frame_unlisted m key bs rest c unlisted e =
      decode_frame_of m key bs rest c e
      ∙ rw (dict_to_message_unlisted m.message_type (dict (payload_fields m.attributes)) unlisted)
          refl

  -- The header of a frame tells its length.
  pub parse-encode_frame :
      (m : Message) (key bs : Bytes)
      → Carries m
      → encode_frame w m key ≡ ok bs
      → (h : FrameHeader) × (parse_header bs ≡ ok h) × (length bs ≡ 8 + h.payload_length + 48)
  parse-encode_frame m key bs c e =
      let (fits, shape) = encode_frame_eq m key bs e in
      let mac = w.hmac key (head_bytes m ++ encode w m) in
      let parts = shape ∙ append_assoc (head_bytes m) (encode w m) mac in
      (
        _,
        rw (← parts) at (parse-head_bytes m (encode w m ++ mac) fits),
        omega (
          arith,
          ap length shape,
          c.mac_size key (head_bytes m ++ encode w m),
          length-head_bytes m,
          length-append (head_bytes m ++ encode w m) mac,
          length-append (head_bytes m) (encode w m),
        ),
      )
