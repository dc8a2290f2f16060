-- ===== src/Peers/Talks.antt =====
-- Data between two connections whose handshake is over.
use qasp.Prelude.{Bytes, ◌≡◌, refl, ◌∙◌, sym, ◌+◌, arith, some, [], ◌∷◌, ◌++◌, length}
use qasp.Prelude.Result.{ok}
use qasp.Prelude.Binary.{be8}
use qasp.Platform.{Platform}
use qasp.Framing.Codec.{encode_frame}
use qasp.Framing.RoundTrip.{Carries}
use qasp.Crypto.{Library}
use qasp.Connection.Session.{Session, HandshakeKeys, Parts, data_sent, data_received}
use qasp.Connection.Handlers.{present}
use qasp.Connection.Receive.{receive_bytes}
use qasp.Connection.Calls.{send_data, data_message}
use qasp.Connection.Exchange.{Uses, receive_bytes-send_data}
use qasp.Handshake.{Handshake}
use qasp.Handshake.Runs.{Party}
use qasp.Handshake.Agreement.{Agreed}
use qasp.Peers.Opens.{IsOpen, Framed, Opened, client_parts, server_parts}

-- One connection sends the bytes, and the other, which is sent the frame, passes them on.
abbrev pub Passes :
    Parts Handshake
    → Parts Handshake
    → Bytes
    → Bytes
    → Session Handshake
    → Session Handshake
    → Type 0
Passes p r bs frame s t =
    (send_data p bs s ≡ (
      record s { send_seq = s.send_seq + 1; send_buffer = s.send_buffer ++ frame },
      ok (data_sent (length bs) s.send_seq ∷ []),
    ))
    × (receive_bytes r frame (record { recv_buffer = []; session = t })
        ≡ some (record {
          connection = record {
            recv_buffer = [];
            session = record t { recv_seq = s.send_seq + 1 };
          };
          answer = ok (data_received bs s.send_seq ∷ []);
        }))

-- A first message: what AES-GCM makes of it under a key, and its frame.
pub record FirstSealed (p : Parts Handshake) (key bs ct frame : Bytes) : Type 0 where
  pub sealed : p.encrypt key (p.derive_nonce_iv key ++ be8 0) bs (4 ∷ be8 0) ≡ ok ct
  pub unsealed : p.decrypt key (p.derive_nonce_iv key ++ be8 0) ct (4 ∷ be8 0) ≡ ok bs
  pub carried : Carries p.wire (data_message p ct 0)
  pub encoded : encode_frame p.wire (data_message p ct 0) key ≡ ok frame

module _ (p r other : Parts Handshake) (ks kt : HandshakeKeys) (s t : Session Handshake) where
  open_Uses : IsOpen other ks s → Uses p ks.session_key (other.derive_nonce_iv ks.session_key) s
  unfolding present
  open_Uses o = record { live = o.live; key_set = rw (o.key_set) refl; iv_set = rw (o.iv_set) refl }

  passes :
      (bs ct frame iv : Bytes)
      → Uses p ks.session_key iv s
      → Uses r ks.session_key iv t
      → IsOpen other ks s
      → IsOpen other kt t
      → ks.session_key ≡ kt.session_key
      → p.wire ≡ r.wire
      → p.encrypt ks.session_key (iv ++ be8 0) bs (4 ∷ be8 0) ≡ ok ct
      → r.decrypt ks.session_key (iv ++ be8 0) ct (4 ∷ be8 0) ≡ ok bs
      → Carries p.wire (data_message p ct 0)
      → encode_frame p.wire (data_message p ct 0) ks.session_key ≡ ok frame
      → Passes p r bs frame s t
  passes bs ct frame iv us ut os ot same wires sealed unsealed carried encoded =
      let first = os.sends_first in
      let expected = ot.expects_first in
      receive_bytes-send_data p r ks.session_key iv bs ct frame s t us ut wires
        (os.tags ∙ same ∙ sym ot.tags) (omega arith) (omega arith) (rw first sealed)
        (rw first unsealed) (rw first carried) (rw (first, os.tags) encoded)

module _ (q : Platform) (l : Library) (client server : Party) (nc ns ec rc es rs key : Bytes)
    (other : Parts Handshake) (g : Agreed q l client server nc ns ec rc es rs)
    (f : Framed q l client server nc ns ec rc es rs key other g)
    (o : Opened q l client server nc ns ec rc es rs key other g f) where
  abbrev here : Parts Handshake
  here = client_parts q l client server nc ns ec rc es rs key other g

  abbrev there : Parts Handshake
  there = server_parts q l client server nc ns ec rc es rs key other g

  -- Two connections that have opened pass on the first data of each other, provided that AES-GCM opens
  -- what it sealed and that the codec reads the two messages back; both directions are sealed under
  -- one key and one nonce.
  pub opened-Passes :
      (bs ct frame bs' ct' frame' : Bytes)
      → FirstSealed other g.client_keys.session_key bs ct frame
      → FirstSealed other g.client_keys.session_key bs' ct' frame'
      → Passes here there bs frame o.client_open o.server_open
        × Passes there here bs' frame' o.server_open o.client_open
  opened-Passes bs ct frame bs' ct' frame' asks answers =
      let same = o.same_key in
      let ck = g.client_keys in
      let sk = g.server_keys in
      let c = o.client_open in
      let s = o.server_open in
      let iv = other.derive_nonce_iv ck.session_key in
      let uc = open_Uses here there other ck sk c s o.client_ready in
      let us : Uses there ck.session_key iv s =
        rw same (open_Uses there here other sk ck s c o.server_ready) in
      (
        passes here there other ck sk c s bs ct frame iv uc us o.client_ready o.server_ready same
            refl asks.sealed asks.unsealed asks.carried asks.encoded,
        passes there here other sk ck s c bs' ct' frame' iv (rw (sym same) us) (rw (sym same) uc)
            o.server_ready o.client_ready (sym same) refl (rw (sym same) answers.sealed)
            (rw (sym same) answers.unsealed) answers.carried (rw (sym same) answers.encoded),
      )
