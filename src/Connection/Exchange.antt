-- ===== src/Connection/Exchange.antt =====
-- Data from one session to another.
use qasp.Prelude.{
  ℕ, Bytes, ◌+◌, ◌<◌, ◌≤◌, ◌≡◌, refl, sym, ◌∙◌, true, false, ltb, lt→ltb, some, [], ◌∷◌, ◌++◌,
  arith, length,
}
use qasp.Prelude.Result.{ok}
use qasp.Prelude.Binary.{be8, to_bytes8}
use qasp.Framing.Sessions
use qasp.Framing.Attributes.{Instance}
use qasp.Framing.Codec.{encode_frame, class_of, from_value, to_value}
use qasp.Framing.RoundTrip.{Carries}
use qasp.Connection.{established, ◌is◌}
use qasp.Connection.Session.{Session, Parts, data_sent, data_received, queue, ◌>>=◌}
use qasp.Connection.Handlers.{
  construct_nonce, present, send_message, open_data, decrypted, sequenced, handle_application_data,
  dispatch, process_message, attribute, as_int, as_bytes,
}
use qasp.Connection.Frames.{receive_bytes-encode_frame}
use qasp.Connection.Receive.{receive_bytes}
use qasp.Connection.Calls.{send_data, data_message}

to_bytes8_eq : (n : ℕ) → n < 18446744073709551616 → to_bytes8 n ≡ ok (be8 n)
unfolding to_bytes8
to_bytes8_eq n h = rw (lt→ltb _ _ h) refl

module _ {H : Type 0} (p : Parts H) where
  -- A session that is established with that key and start of the nonces.
  pub record Uses (key iv : Bytes) (s : Session H) : Type 0 where
    pub live : (s.state is established) ≡ true
    pub key_set : present s.session_key ≡ ok key
    pub iv_set : present s.nonce_iv ≡ ok iv

  data_Instance :
      (bs : Bytes) (n : ℕ) → Instance Sessions.application_data (data_message p bs n).attributes
  unfolding Sessions.application_data from_value to_value
  data_Instance bs n = (refl, refl, (refl, refl, tt))

  open_data_eq :
      (key iv ct bs : Bytes) (s : Session H) (n : ℕ)
      → Uses key iv s
      → n < 18446744073709551616
      → p.decrypt key (iv ++ be8 n) ct (4 ∷ be8 n) ≡ ok bs
      → open_data p n (data_message p ct n) s ≡ (s, ok (data_received bs n ∷ []))
  unfolding open_data attribute as_bytes decrypted
  open_data_eq key iv ct bs s n u small d =
      let counter = to_bytes8_eq n small in
      rw
        (
          open_data, u.key_set, construct_nonce, u.iv_set, counter, ◌>>=◌, counter, d,
          construct_nonce, u.iv_set, counter,
        )
        refl

  sequenced_eq :
      (key iv ct bs : Bytes) (s : Session H) (n : ℕ)
      → Uses key iv s
      → n < 18446744073709551616
      → s.recv_seq ≤ n
      → p.decrypt key (iv ++ be8 n) ct (4 ∷ be8 n) ≡ ok bs
      → handle_application_data p (data_message p ct n) s
        ≡ (record s { recv_seq = n + 1 }, ok (data_received bs n ∷ []))
  unfolding handle_application_data sequenced attribute as_int
  sequenced_eq key iv ct bs s n u small new d =
      let fresh : ltb n s.recv_seq ≡ false = ground arith in
      let later : Uses key iv (record s { recv_seq = n + 1 }) = record {
        live = u.live;
        key_set = u.key_set;
        iv_set = u.iv_set;
      } in
      rw (handle_application_data, u.live, fresh)
        (open_data_eq key iv ct bs (record s { recv_seq = n + 1 }) n later small d)

  send_data_eq :
      (key iv ct bs frame : Bytes) (s : Session H)
      → Uses key iv s
      → s.send_seq < 18446744073709551616
      → p.encrypt key (iv ++ be8 s.send_seq) bs (4 ∷ be8 s.send_seq) ≡ ok ct
      → encode_frame p.wire (data_message p ct s.send_seq) s.hmac_key ≡ ok frame
      → send_data p bs s ≡ (
        record s { send_seq = s.send_seq + 1; send_buffer = s.send_buffer ++ frame },
        ok (data_sent (length bs) s.send_seq ∷ []),
      )
  unfolding send_data construct_nonce send_message queue
  send_data_eq key iv ct bs frame s u small c e =
      let counter = to_bytes8_eq s.send_seq small in
      ground (arith, u.live, u.key_set, u.iv_set, counter, c, e)

  dispatched :
      (bs : Bytes) (n : ℕ) (q : Session H)
      → process_message p (data_message p bs n) q
        ≡ handle_application_data p (data_message p bs n) q
  unfolding process_message dispatch
  dispatched bs n q = refl

  known_class :
      (bs : Bytes) (n : ℕ)
      → class_of (data_message p bs n).message_type ≡ some Sessions.application_data
  unfolding class_of
  known_class bs n = refl

module _ {H J : Type 0} (p : Parts H) (r : Parts J) where
  -- Data that one session sends is passed on by any other with the same codec, key, start of the
  -- nonces and key of the tags that does not expect a larger number, provided that AES-GCM opens
  -- what it sealed and that the codec reads the message back. Neither side of the handshake is asked
  -- for: a session so passes on its own data when the bytes are sent back to it.
  pub receive_bytes-send_data :
      (key iv bs ct frame : Bytes) (s : Session H) (q : Session J)
      → Uses p key iv s
      → Uses r key iv q
      → p.wire ≡ r.wire
      → s.hmac_key ≡ q.hmac_key
      → q.recv_seq ≤ s.send_seq
      → s.send_seq < 18446744073709551616
      → p.encrypt key (iv ++ be8 s.send_seq) bs (4 ∷ be8 s.send_seq) ≡ ok ct
      → r.decrypt key (iv ++ be8 s.send_seq) ct (4 ∷ be8 s.send_seq) ≡ ok bs
      → Carries p.wire (data_message p ct s.send_seq)
      → encode_frame p.wire (data_message p ct s.send_seq) s.hmac_key ≡ ok frame
      → (send_data p bs s ≡ (
        record s { send_seq = s.send_seq + 1; send_buffer = s.send_buffer ++ frame },
        ok (data_sent (length bs) s.send_seq ∷ []),
      ))
        × (receive_bytes r frame (record { recv_buffer = []; session = q })
            ≡ some (record {
              connection = record {
                recv_buffer = [];
                session = record q { recv_seq = s.send_seq + 1 };
              };
              answer = ok (data_received bs s.send_seq ∷ []);
            }))
  receive_bytes-send_data key iv bs ct frame s q us uq wires same new small sealed opened c e =
      let m = data_message p ct s.send_seq in
      let to_q : encode_frame r.wire m q.hmac_key ≡ ok frame = rw (sym same, sym wires) e in
      let to_r : Carries r.wire m = rw (sym wires) c in
      (
        send_data_eq p key iv ct bs frame s us small sealed e,
        receive_bytes-encode_frame r m Sessions.application_data frame q
            (record q { recv_seq = s.send_seq + 1 }) (data_received bs s.send_seq ∷ []) to_r
            (known_class p ct s.send_seq) (data_Instance p ct s.send_seq) to_q
            (dispatched r ct s.send_seq q
              ∙ sequenced_eq r key iv ct bs q s.send_seq uq small new opened),
      )
