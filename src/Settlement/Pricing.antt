-- ===== src/Settlement/Pricing.antt =====
-- `PriceNegotiator` of protocol/settlement.py: offers and acceptances of a price, each signed.
pub mod Negotiated
use qasp.Prelude.{ℕ, String, Bytes, Option, none, some, List, [], ◌∷◌}
use qasp.Prelude.Int.{ℤ, pos, ◌+ℤ◌}
use qasp.Prelude.Dict.{Dict, bytes_Eq, lookup, insert}
use qasp.Prelude.Result.{Result, ok, err, ◌>>=◌, invalid_price}
use qasp.Platform.{Platform, Value, Fields}

pub record PriceRequest : Type 0 where
  pub request_id : Bytes
  pub resource_type : String
  pub resource_id : Bytes
  pub quantity : ℤ
  pub duration : ℤ

pub record PriceOffer : Type 0 where
  pub request_id : Bytes
  pub resource_type : String
  pub unit_price : ℤ
  pub currency : String
  pub valid_from : ℤ
  pub valid_until : ℤ
  pub signature : Bytes

pub record PriceAccept : Type 0 where
  pub request_id : Bytes
  pub offer_signature : Bytes
  pub resource_type : String
  pub unit_price : ℤ
  pub currency : String
  pub valid_from : ℤ
  pub valid_until : ℤ
  pub signature : Bytes

pub record PriceSchedule : Type 0 where
  pub resource_type : String
  pub unit_price : ℤ
  pub currency : String
  pub valid_from : ℤ
  pub valid_until : ℤ
  pub offerer_signature : Bytes
  pub accepter_signature : Bytes

pub data PriceEvent : Type 0 where
  price_offer_received : String → ℤ → String → ℤ → PriceEvent
  price_accepted : String → ℤ → String → PriceEvent

-- The offers by their request.
abbrev pub PriceNegotiator : Type 0
PriceNegotiator = Dict Bytes PriceOffer

abbrev pub create_price_request : Bytes → String → Bytes → ℤ → ℤ → PriceRequest
create_price_request random resource_type resource_id quantity duration = record {
  request_id = random;
  resource_type = resource_type;
  resource_id = resource_id;
  quantity = quantity;
  duration = duration;
}

-- A signature that does not verify; every exception is caught.
abbrev pub price_failure : Result (Unit {0}) → Result (Unit {0})
price_failure (ok x) = ok x
price_failure (err e) = err invalid_price

-- `offer.signature if offer else b""`
abbrev pub offerer_signature_of : Option PriceOffer → Bytes
offerer_signature_of none = []
offerer_signature_of (some offer) = offer.signature

module _ (p : Platform) where
  unfoldable pub offer_signable : PriceOffer → Bytes
  offer_signable offer = p.dumps (
      Value.dict (
        Fields.field "request_id" (Value.bytes offer.request_id) (
          Fields.field "resource_type" (Value.text offer.resource_type) (
            Fields.field "unit_price" (Value.int offer.unit_price) (
              Fields.field "currency" (Value.text offer.currency) (
                Fields.field "valid_from" (Value.int offer.valid_from)
                  (Fields.field "valid_until" (Value.int offer.valid_until) Fields.end)))))))

  unfoldable pub accept_signable : PriceAccept → Bytes
  accept_signable accept = p.dumps (
      Value.dict (
        Fields.field "request_id" (Value.bytes accept.request_id) (
          Fields.field "offer_signature" (Value.bytes accept.offer_signature) (
            Fields.field "resource_type" (Value.text accept.resource_type) (
              Fields.field "unit_price" (Value.int accept.unit_price) (
                Fields.field "currency" (Value.text accept.currency) (
                  Fields.field "valid_from" (Value.int accept.valid_from)
                    (Fields.field "valid_until" (Value.int accept.valid_until) Fields.end))))))))

  abbrev pub draft_offer : ℕ → PriceRequest → ℤ → String → PriceOffer
  draft_offer now request unit_price currency = record {
    request_id = request.request_id;
    resource_type = request.resource_type;
    unit_price = unit_price;
    currency = currency;
    valid_from = pos now;
    valid_until = pos now +ℤ request.duration;
    signature = [];
  }

  unfoldable pub create_price_offer :
      ℕ → PriceRequest → ℤ → String → Bytes → PriceNegotiator → Result PriceOffer × PriceNegotiator
  create_price_offer now request unit_price currency signing_key offers =
      let draft = draft_offer now request unit_price currency in
      elim (p.sign signing_key (offer_signable draft)) [
        | err e ↦ (err e, offers)
        | ok sig ↦
            let offer : PriceOffer = record draft { signature = sig } in
            (ok offer, insert request.request_id offer offers)
      ]

  unfoldable pub process_price_offer :
      PriceOffer → Bytes → PriceNegotiator → Result (List PriceEvent) × PriceNegotiator
  process_price_offer offer public_key offers =
      elim (price_failure
        (p.verify public_key (offer_signable (record offer { signature = [] })) offer.signature)) [
          | err e ↦ (err e, offers)
          | ok _ ↦ (
            ok (
                price_offer_received offer.resource_type offer.unit_price offer.currency
                  offer.valid_until
                ∷ []),
            insert offer.request_id offer offers,
          )
        ]

  abbrev pub draft_accept : PriceOffer → PriceAccept
  draft_accept offer = record {
    request_id = offer.request_id;
    offer_signature = offer.signature;
    resource_type = offer.resource_type;
    unit_price = offer.unit_price;
    currency = offer.currency;
    valid_from = offer.valid_from;
    valid_until = offer.valid_until;
    signature = [];
  }

  unfoldable pub create_price_accept : PriceOffer → Bytes → Result PriceAccept
  create_price_accept offer signing_key = do
    sig ← p.sign signing_key (accept_signable (draft_accept offer))
    ok (record (draft_accept offer) { signature = sig })

  unfoldable pub process_price_accept :
      PriceAccept → Bytes → PriceNegotiator → Result (PriceSchedule × List PriceEvent)
  process_price_accept accept public_key offers =
      price_failure
        (p.verify public_key (accept_signable (record accept { signature = [] })) accept.signature)
      >>= λ _. ok (
        record {
          resource_type = accept.resource_type;
          unit_price = accept.unit_price;
          currency = accept.currency;
          valid_from = accept.valid_from;
          valid_until = accept.valid_until;
          offerer_signature = offerer_signature_of (lookup accept.request_id offers);
          accepter_signature = accept.signature;
        },
        price_accepted accept.resource_type accept.unit_price accept.currency ∷ [],
      )
