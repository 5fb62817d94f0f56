-- ===== src/Authorization/Request.antt =====
-- src/spurline/witness.py: the request for an authorization and its checks.
use spurline.Prelude.{
  ℕ, zero, suc, ◌+◌, ◌/◌, ◌%◌, Bool, true, false, ◌&&◌, ◌||◌, not, Option, none, some, List, [],
  ◌∷◌, ◌++◌, all, length, map, ltb, leb, if◌then◌else◌, Outcome, ok, ◌>>=◌, ◌>>◌, raise_if,
  or_raise,
}
use spurline.Prelude.Int.{ℤ, pos, negsuc, pos_part, neg_part, ltb_ℤ, leb_ℤ, eq_ℤ, min_ℤ}
use spurline.Prelude.Text.{Text, codes, text_eq}
use spurline.Json.{Json, str, arr, Fields, value, items_of, lookup, as_list, as_str}
use spurline.Events.{Crypto, StoredEvent, is_lower_hex, is_encodable}
use spurline.Receipts.{Codec}
use spurline.Commissioning.{
  Toolkit, witness_request, valid_event, number, exact_int, application_event_kind,
  max_clock_skew_seconds, request_ttl_seconds, service_json,
}
use spurline.Commissioning.Request.{operator_tag, expiration_tag}
use spurline.Commissioning.Attestation.{same_content}
use spurline.Service.{Commissioned}
use spurline.Authorization.{
  WitnessError, WitnessSettings, authorization_request_schema, role, max_policy_bytes,
  max_validity_seconds, dict, lift, integer, public_hex, require_tags, version_of, witness_content,
  wrong_request_signer, wrong_issue_time, wrong_interval, wrong_deadline, deadline_passed,
  wrong_kinds, wrong_nonce, wrong_policy, wrong_predecessor, wrong_request, key_error, value_error,
}

-- `text.encode("utf-8")`, of a text without surrogates
unfoldable pub utf8_char : ℕ → List ℕ
utf8_char c =
    if ltb c 128
    then c ∷ []
    else if ltb c 2048
    then (192 + c / 64) ∷ (128 + c % 64) ∷ []
    else if ltb c 65536
    then (224 + c / 4096) ∷ (128 + c / 64 % 64) ∷ (128 + c % 64) ∷ []
    else (240 + c / 262144) ∷ (128 + c / 4096 % 64) ∷ (128 + c / 64 % 64) ∷ (128 + c % 64) ∷ []

unfoldable pub utf8 : Text → List ℕ
unfolding utf8_char
utf8 [] = []
utf8 (c ∷ s) = utf8_char c ++ utf8 s

-- `sorted(set(kinds))`
abbrev insert_kind : ℤ → List ℤ → List ℤ
insert_kind k [] = k ∷ []
insert_kind k (l ∷ ls) =
    let rest = insert_kind k ls in
    if eq_ℤ k l then l ∷ ls else if ltb_ℤ k l then k ∷ l ∷ ls else l ∷ rest

unfoldable pub sorted_set : List ℤ → List ℤ
sorted_set [] = []
sorted_set (k ∷ ks) = insert_kind k (sorted_set ks)

abbrev pub kinds_eq : List ℤ → List ℤ → Bool
kinds_eq [] [] = true
kinds_eq (k ∷ ks) (l ∷ ls) = eq_ℤ k l && kinds_eq ks ls
kinds_eq _ _ = false

abbrev pub is_supported : ℤ → Bool
is_supported k = eq_ℤ k (pos 1415) || eq_ℤ k (pos 1416)

-- a list of true ints
abbrev cons_int : Option ℤ → Option (List ℤ) → Option (List ℤ)
cons_int (some k) (some ks) = some (k ∷ ks)
cons_int _ _ = none

unfoldable pub int_items : List Json → Option (List ℤ)
int_items [] = some []
int_items (x ∷ xs) = cons_int (exact_int (some x)) (int_items xs)

abbrev nonempty : List ℤ → Bool
nonempty [] = false
nonempty (k ∷ ks) = true

abbrev pub kinds_if_valid : Option (List ℤ) → Option (List ℤ)
kinds_if_valid none = none
kinds_if_valid (some ks) =
    if nonempty ks && (all is_supported ks && kinds_eq ks (sorted_set ks)) then some ks else none

abbrev pub kinds_of_items : Option (List Json) → Option (List ℤ)
kinds_of_items none = none
kinds_of_items (some xs) = kinds_if_valid (int_items xs)

-- the subject kinds: a sorted nonempty list of 1415 and 1416
unfoldable pub subject_kinds : Option Json → Option (List ℤ)
unfolding int_items sorted_set
subject_kinds none = none
subject_kinds (some v) = kinds_of_items (as_list v)

abbrev pub kinds_json : List ℤ → Json
kinds_json ks = arr (items_of (map number ks))

-- 64 lowercase hex digits
abbrev pub hash_if : Option Text → Option Text
hash_if none = none
hash_if (some s) = if is_lower_hex s 64 then some s else none

abbrev pub hash_at : Text → Fields → Option Text
hash_at key content = elim (lookup key content) [ none ↦ none | some v ↦ hash_if (as_str v) ]

-- the times, kinds and nonce of a request, and the digest of its policy
pub record Terms : Type 0 where
  pub version : ℤ
  pub issued : ℤ
  pub expires : ℤ
  pub start : ℤ
  pub stop : ℤ
  pub kinds : List ℤ
  pub nonce : Text
  pub policy_sha256 : Text

-- who asks whom: the hex keys, the management mode and the attestation of the commissioning
pub record Parties : Type 0 where
  pub service_hex : Text
  pub operator_hex : Text
  pub management : Text
  pub attestation_id : Text

abbrev pub service_dict : Text → Json
service_dict hex = service_json hex

-- the content that a request has to have, of version 1 or, with a number and a predecessor, 2
unfoldable pub request_body : Parties → Terms → List (Text × Json) → Fields
request_body p t renewal = dict (
    (codes "schema", str authorization_request_schema)
    ∷ (codes "schema_version", number t.version)
    ∷ (codes "role", str role)
    ∷ (codes "service", service_dict p.service_hex)
    ∷ (codes "requested_operator", str p.operator_hex)
    ∷ (codes "management", str p.management)
    ∷ (codes "commissioning_attestation", str p.attestation_id)
    ∷ (codes "issued_at", number t.issued)
    ∷ (codes "expires_at", number t.expires)
    ∷ (codes "nonce", str t.nonce)
    ∷ (codes "not_before", number t.start)
    ∷ (codes "not_after", number t.stop)
    ∷ (codes "subject_kinds", kinds_json t.kinds)
    ∷ (codes "policy_sha256", str t.policy_sha256)
    ∷ renewal)

abbrev pub renewal_fields : ℤ → Text → List (Text × Json)
renewal_fields sequence previous =
    (codes "action", str (codes "renew"))
    ∷ (codes "sequence", number sequence)
    ∷ (codes "previous", str previous)
    ∷ []

abbrev pub attestation_id_tag : Text → List Text
attestation_id_tag id = codes "e" ∷ id ∷ [] ∷ codes "commissioning-attestation" ∷ []

abbrev pub role_tag : List Text
role_tag = codes "role" ∷ role ∷ []

unfoldable pub request_tags : Parties → ℤ → List (List Text)
request_tags p expires =
    operator_tag p.operator_hex
    ∷ attestation_id_tag p.attestation_id
    ∷ expiration_tag expires
    ∷ role_tag
    ∷ []

-- `0 < end - start <= MAX_VALIDITY_SECONDS`, and `a + n`
abbrev pub is_validity : ℤ → ℤ → Bool
is_validity start stop =
    ltb_ℤ start stop
    && leb (pos_part stop + neg_part start) (max_validity_seconds + pos_part start + neg_part stop)

abbrev pub plus_sum : ℕ → ℕ → ℤ
plus_sum n zero = pos n
plus_sum zero (suc m) = negsuc m
plus_sum (suc n) (suc m) = plus_sum n m

abbrev pub plus : ℤ → ℕ → ℤ
plus a n = plus_sum (pos_part a + n) (neg_part a)

abbrev pub is_later : ℤ → ℕ → Bool
is_later a n = ltb_ℤ (pos n) a

-- the checks of the times
unfoldable pub check_times : ℕ → Bool → StoredEvent → Terms → Outcome WitnessError (Unit {0})
check_times now current event t = do
  raise_if
      (not (eq_ℤ t.issued (value event.created_at))
        || is_later t.issued (now + max_clock_skew_seconds))
      wrong_issue_time
  raise_if (not (eq_ℤ t.start t.issued && is_validity t.start t.stop)) wrong_interval
  raise_if (not (eq_ℤ t.expires (min_ℤ (plus t.issued request_ttl_seconds) t.stop))) wrong_deadline
  raise_if (current && leb_ℤ t.expires (pos now)) deadline_passed

-- the policy's text, of 1 to MAX_POLICY_BYTES bytes
unfoldable pub check_policy : Json → Outcome WitnessError (List ℕ)
check_policy policy = do
  text ← or_raise (as_str policy) wrong_policy
  raise_if (not (is_encodable text)) value_error
  raise_if (not (ltb 0 (length (utf8 text)) && leb (length (utf8 text)) max_policy_bytes))
      wrong_policy
  ok (utf8 text)

-- the number and the predecessor of a renewal
unfoldable pub renewal_of : ℤ → Fields → Outcome WitnessError (List (Text × Json))
renewal_of version content =
    if eq_ℤ version (pos 2)
    then (do
      sequence ← integer (codes "sequence") content
      previous ←
          or_raise (if ltb_ℤ sequence (pos 2) then none else hash_at (codes "previous") content)
            wrong_predecessor
      ok (renewal_fields sequence previous))
    else ok []

module _ (lib : Crypto) (codec : Codec) (kit : Toolkit) where
  -- the terms that the content states, after the checks of the times, the kinds, the nonce and the policy
  unfoldable pub terms_of : ℕ → Bool → StoredEvent → Fields → Json → Outcome WitnessError Terms
  terms_of now current event content policy = do
    version ← or_raise (version_of content) key_error
    issued ← integer (codes "issued_at") content
    expires ← integer (codes "expires_at") content
    start ← integer (codes "not_before") content
    stop ← integer (codes "not_after") content
    let t : Terms = record {
      version = version;
      issued = issued;
      expires = expires;
      start = start;
      stop = stop;
      kinds = [];
      nonce = [];
      policy_sha256 = [];
    }
    check_times now current event t
    kinds ← or_raise (subject_kinds (lookup (codes "subject_kinds") content)) wrong_kinds
    nonce ← or_raise (hash_at (codes "nonce") content) wrong_nonce
    bytes ← check_policy policy
    ok (record t { kinds = kinds; nonce = nonce; policy_sha256 = codec.sha256_bytes bytes })

  -- the parties of the settings and the commissioning
  unfoldable pub parties : WitnessSettings → Commissioned → Outcome WitnessError Parties
  parties settings commissioned = do
    service_hex ← public_hex kit settings.service_npub
    operator_hex ← public_hex kit commissioned.verified.operator_npub
    ok (record {
      service_hex = service_hex;
      operator_hex = operator_hex;
      management = settings.service_management;
      attestation_id = commissioned.verified.attestation_id;
    })

  -- the checks of `_verify_request` on the loaded event and its content
  unfoldable pub check_request :
      ℕ → Bool → Parties → StoredEvent → Fields → Json → Outcome WitnessError Terms
  check_request now current p event content policy = do
    raise_if
        (not (
          eq_ℤ (value event.kind) (pos application_event_kind)
          && text_eq event.pubkey p.service_hex))
        wrong_request_signer
    t ← terms_of now current event content policy
    renewal ← renewal_of t.version content
    raise_if (not (same_content content (request_body p t renewal))) wrong_request
    require_tags (request_tags p t.expires) event
    ok t

  -- `_verify_request` at the time `now`: the event, its content and its terms
  unfoldable pub verify_request :
      ℕ
      → Bool
      → WitnessSettings
      → Commissioned
      → Json
      → Json
      → Outcome WitnessError (StoredEvent × Fields × Terms)
  verify_request now current settings commissioned document policy = do
    request ← lift (valid_event lib codec kit now witness_request document)
    content ← witness_content codec authorization_request_schema request
    p ← parties settings commissioned
    t ← check_request now current p request content policy
    ok (request, content, t)
