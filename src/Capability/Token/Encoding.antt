-- ===== src/Capability/Token/Encoding.antt =====
-- The dictionary that is signed for a token: `_encode_token_data` and its helpers.
use qasp.Prelude.{
  ℕ, String, Bytes, Option, none, some, List, [], ◌∷◌, has_text, is_nonempty, if◌then◌else◌,
}
use qasp.Prelude.Int.{ℤ, pos}
use qasp.Platform.{
  Platform, Value, Items, Fields, null, int, text, array, dict, nil, cons, end, field,
}
use qasp.Capability.Constraints.{VerbSet, Constraints}
use qasp.Capability.Temporal.{TemporalThreshold, TemporalSchedule}
use qasp.Capability.Token.Dids.{Did, did_text}

-- An entry that is written only where the value is there.
abbrev field_if_int : String → Option ℤ → Fields → Fields
field_if_int key none rest = rest
field_if_int key (some v) rest = field key (int v) rest

abbrev field_if_text : String → String → Fields → Fields
field_if_text key s rest = if has_text s then field key (text s) rest else rest

abbrev texts : List String → Items
texts [] = nil
texts (s ∷ l) = cons (text s) (texts l)

abbrev field_if_texts : String → List String → List String → Fields → Fields
field_if_texts key test shown rest =
    if is_nonempty test then field key (array (texts shown)) rest else rest

module _ (p : Platform) where
  abbrev field_if_time : String → Option ℕ → Fields → Fields
  field_if_time key none rest = rest
  field_if_time key (some t) rest = field key (text (p.isoformat t)) rest

  abbrev field_if_rate : Option ℤ → ℤ → Fields → Fields
  field_if_rate none period rest = rest
  field_if_rate (some v) period rest =
      field "rate_limit" (int v) (field "rate_period_seconds" (int period) rest)

  unfoldable pub constraints_to_dict : Constraints → Fields
  constraints_to_dict c = field_if_time "not_before" c.not_before (
      field_if_time "not_after" c.not_after (
        field_if_int "quantity_limit" c.quantity_limit (
          field_if_text "quantity_unit" c.quantity_unit (
            field_if_rate c.rate_limit c.rate_period_seconds (
              field_if_int "max_spend" c.max_spend (
                field_if_text "spend_currency" c.spend_currency (
                  field_if_texts "data_scope" c.data_scope (p.sorted c.data_scope) (
                    field_if_text "purpose" c.purpose (
                      field_if_texts "allowed_toolchain" c.allowed_toolchain c.allowed_toolchain
                        end)))))))))

  unfoldable pub threshold_items : List TemporalThreshold → Items
  threshold_items [] = nil
  threshold_items (t ∷ rest) =
      cons
        (dict (
          field "at_seconds" (int (pos t.at_seconds)) (
            field_if_int "max_spend" t.max_spend (
              field_if_int "quantity_limit" t.quantity_limit
                (field_if_int "rate_limit" t.rate_limit end)))))
        (threshold_items rest)

  unfoldable pub temporal_schedule_to_dict : TemporalSchedule → Fields
  unfolding threshold_items
  temporal_schedule_to_dict s =
      field "thresholds" (array (threshold_items s.thresholds))
        (field_if_text "policy" s.policy end)

  abbrev optional_did : Option Did → Value
  optional_did none = null
  optional_did (some d) = text (did_text d)

  -- `h.hex() if h else None`: an empty hash is written as None too.
  abbrev optional_hex : Option Bytes → Value
  optional_hex none = null
  optional_hex (some []) = null
  optional_hex (some (b ∷ bs)) = text (p.hex (b ∷ bs))

  abbrev field_if_hex : String → Option Bytes → Fields → Fields
  field_if_hex key none rest = rest
  field_if_hex key (some []) rest = rest
  field_if_hex key (some (b ∷ bs)) rest = field key (text (p.hex (b ∷ bs))) rest

  abbrev temporal_field : Option TemporalSchedule → Fields
  temporal_field none = end
  temporal_field (some s) = field "temporal_attenuation" (dict (temporal_schedule_to_dict s)) end

  unfoldable pub encode_token_data :
      Bytes
      → Did
      → Did
      → Option Did
      → String
      → VerbSet
      → Constraints
      → ℕ
      → Bytes
      → Option Bytes
      → ℤ
      → ℤ
      → ℤ
      → Option Bytes
      → Option TemporalSchedule
      → Bytes
  encode_token_data token_id issuer_did subject_did audience_did resource_uri verbs constraints
        issued_at nonce parent_token_hash max_delegation_depth delegation_chain_length
        toolchain_position auditor_kem_pk temporal_attenuation =
      p.dumps (
        dict (
          field "token_id" (text (p.hex token_id)) (
            field "issuer" (text (did_text issuer_did)) (
              field "subject" (text (did_text subject_did)) (
                field "audience" (optional_did audience_did) (
                  field "resource" (text resource_uri) (
                    field "verbs" (array (texts (p.sorted verbs.verbs))) (
                      field "constraints" (dict (constraints_to_dict constraints)) (
                        field "iat" (text (p.isoformat issued_at)) (
                          field "nonce" (text (p.hex nonce)) (
                            field "parent" (optional_hex parent_token_hash) (
                              field "max_depth" (int max_delegation_depth) (
                                field "chain_len" (int delegation_chain_length) (
                                  field "tc_pos" (int toolchain_position) (
                                    field_if_hex "auditor_kem_pk" auditor_kem_pk
                                      (temporal_field temporal_attenuation))))))))))))))))
