-- ===== src/Settlement/Pricing/Negotiated.antt =====
-- A negotiation from the offer to the schedule.
use qasp.Prelude.{ℕ, String, Bytes, ◌≡◌, refl, List, [], ◌∷◌}
use qasp.Prelude.Int.{ℤ, pos, ◌+ℤ◌}
use qasp.Prelude.Dict.{bytes_Eq, insert, lookup-insert_self}
use qasp.Prelude.Result.{Result, ok, ◌>>=◌}
use qasp.Platform.{Platform, IsKeyPair, Value, Fields, dict, field, end, int, text, bytes}
use qasp.Settlement.Pricing.{
  PriceRequest, PriceOffer, PriceAccept, PriceSchedule, PriceEvent, price_offer_received,
  price_accepted, PriceNegotiator, offer_signable, accept_signable, draft_offer, draft_accept,
  create_price_offer, process_price_offer, create_price_accept, process_price_accept,
}

-- The server offers, the agent checks the offer and accepts it, and the server checks the acceptance.
abbrev pub negotiate :
    Platform
    → ℕ
    → PriceRequest
    → ℤ
    → String
    → Bytes
    → Bytes
    → Bytes
    → Bytes
    → PriceNegotiator
    → PriceNegotiator
    → Result PriceSchedule
negotiate p now request unit_price currency key public_key key' public_key' server agent = do
  let (offered, server') = create_price_offer p now request unit_price currency key server
  offer ← offered
  received ← (process_price_offer p offer public_key agent).0
  accept ← create_price_accept p offer key'
  (schedule, events) ← process_price_accept p accept public_key' server'
  ok schedule

-- What the two signatures are of: the encoding of the offered terms, and the same with the
-- offerer's signature.
abbrev pub terms : PriceRequest → ℤ → String → ℕ → Fields
terms request unit_price currency now = field "resource_type" (text request.resource_type) (
    field "unit_price" (int unit_price) (
      field "currency" (text currency) (
        field "valid_from" (int (pos now))
          (field "valid_until" (int (pos now +ℤ request.duration)) end))))

abbrev pub offered_terms : PriceRequest → ℤ → String → ℕ → Value
offered_terms request unit_price currency now =
    dict (field "request_id" (bytes request.request_id) (terms request unit_price currency now))

abbrev pub accepted_terms : PriceRequest → ℤ → String → ℕ → Bytes → Value
accepted_terms request unit_price currency now signature = dict (
    field "request_id" (bytes request.request_id)
      (field "offer_signature" (bytes signature) (terms request unit_price currency now)))

-- A schedule with the offered terms, for the requested time, which both sides have signed.
pub record Negotiated (p : Platform) (now : ℕ) (request : PriceRequest) (unit_price : ℤ)
    (currency : String) (public_key public_key' : Bytes) (s : PriceSchedule) : Type 0 where
  pub resource : s.resource_type ≡ request.resource_type
  pub price : s.unit_price ≡ unit_price
  pub money : s.currency ≡ currency
  pub from : s.valid_from ≡ pos now
  pub until : s.valid_until ≡ pos now +ℤ request.duration
  pub offerer :
      p.verify public_key
        (p.dumps (offered_terms request unit_price currency now))
        s.offerer_signature
      ≡ ok tt
  pub accepter :
      p.verify public_key'
        (p.dumps (accepted_terms request unit_price currency now s.offerer_signature))
        s.accepter_signature
      ≡ ok tt

module _ (p : Platform) (now : ℕ) (request : PriceRequest) (unit_price : ℤ) (currency : String)
    (key public_key key' public_key' : Bytes) (server agent : PriceNegotiator)
    (pair : IsKeyPair p key public_key) (pair' : IsKeyPair p key' public_key') where
  abbrev draft : PriceOffer
  draft = draft_offer p now request unit_price currency

  abbrev signed_offer : PriceOffer
  signed_offer = record draft { signature = pair.signature (offer_signable p draft) }

  abbrev signed_accept : PriceAccept
  signed_accept = record (draft_accept p signed_offer) {
    signature = pair'.signature (accept_signable p (draft_accept p signed_offer));
  }

  abbrev agreed : PriceSchedule
  agreed = record {
    resource_type = request.resource_type;
    unit_price = unit_price;
    currency = currency;
    valid_from = pos now;
    valid_until = pos now +ℤ request.duration;
    offerer_signature = signed_offer.signature;
    accepter_signature = signed_accept.signature;
  }

  offered :
      create_price_offer p now request unit_price currency key server
      ≡ (ok signed_offer, insert request.request_id signed_offer server)
  unfolding create_price_offer
  offered = rw (create_price_offer, pair.signs (offer_signable p draft))

  received :
      (events : List PriceEvent) × ((process_price_offer p signed_offer public_key agent).0
        ≡ ok events)
  unfolding process_price_offer
  received = (
    price_offer_received request.resource_type unit_price currency (pos now +ℤ request.duration)
        ∷ [],
    rw (process_price_offer, pair.verifies (offer_signable p draft)),
  )

  accepted : create_price_accept p signed_offer key' ≡ ok signed_accept
  unfolding create_price_accept
  accepted = rw (pair'.signs (accept_signable p (draft_accept p signed_offer)))

  scheduled :
      process_price_accept p signed_accept public_key'
        (insert request.request_id signed_offer server)
      ≡ ok (agreed, price_accepted request.resource_type unit_price currency ∷ [])
  unfolding process_price_accept
  scheduled = rw (
    pair'.verifies (accept_signable p (draft_accept p signed_offer)),
    lookup-insert_self request.request_id signed_offer server,
  )

-- With two key pairs a negotiation always ends in a schedule. It has the requested resource, the
-- offered price and currency and the requested duration from the time of the offer on; the offerer
-- has signed the encoding of the request's id and these terms, and the accepter the same encoding
-- with the offerer's signature in it.
pub negotiate-Negotiated :
    (p : Platform) (now : ℕ) (request : PriceRequest) (unit_price : ℤ) (currency : String)
    (key public_key key' public_key' : Bytes) (server agent : PriceNegotiator)
    → IsKeyPair p key public_key
    → IsKeyPair p key' public_key'
    → (s : PriceSchedule) × (negotiate p now request unit_price currency key public_key key'
          public_key' server agent
        ≡ ok s)
      × Negotiated p now request unit_price currency public_key public_key' s
unfolding offer_signable accept_signable
negotiate-Negotiated p now request unit_price currency key public_key key' public_key' server agent
      pair pair' =
    (
      agreed p now request unit_price currency key public_key key' public_key' server agent pair
          pair',
      rw (
        offered p now request unit_price currency key public_key key' public_key' server agent pair
            pair',
        (received p now request unit_price currency key public_key key' public_key' server agent
            pair pair').1,
        accepted p now request unit_price currency key public_key key' public_key' server agent pair
            pair',
        scheduled p now request unit_price currency key public_key key' public_key' server agent
            pair pair',
      ),
      record {
        resource = refl;
        price = refl;
        money = refl;
        from = refl;
        until = refl;
        offerer = pair.verifies _;
        accepter = pair'.verifies _;
      },
    )
