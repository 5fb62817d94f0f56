-- ===== src/Authorization/GrantTests.antt =====
-- src/spurline/witness.py with one key and one hash for every text: an authorization in force.
use spurline.Prelude.{true, if◌then◌else◌, ◌≡◌, refl, none, some, List, [], ◌∷◌, ◌++◌, arith, ok}
use spurline.Prelude.Int.{pos}
use spurline.Prelude.Text.{Text, codes, starts_with, text_lt}
use spurline.Json.{null, obj, str, Fields, field, end, int}
use spurline.Json.Equal.{sorted}
use spurline.Json.Dumps.{dumps, dumps_int}
use spurline.Events.{StoredEvent, to_dict, is_encodable, is_surrogate}
use spurline.Events.Validity.{payload}
use spurline.Events.Tests.{lenient, hash_text, key_text}
use spurline.Receipts.{Codec, canonical_json, to_ascii, ascii_char}
use spurline.Commissioning.{Document, valid_event, number}
use spurline.Commissioning.Attestation.{service_tag}
use spurline.Commissioning.Signed.{signed-valid_event}
use spurline.Commissioning.Tests.{stroma, stroma-SignsFor}
use spurline.Service.{Commissioned}
use spurline.Authorization.{WitnessSettings, AuthorizationState, authorization_schema, role, dict}
use spurline.Authorization.Grant.{Status, authorized}
use spurline.Authorization.Views.{View, view_of}
use spurline.Authorization.Request.{
  kinds_json, Terms, Parties, service_dict, request_body, attestation_id_tag, role_tag,
  request_tags,
}
use spurline.Authorization.History.{revocation_tags, revocation_body}

abbrev settings : WitnessSettings
settings = record {
  service_npub = codes "npub1";
  service_nsec = [];
  service_management = codes "local";
  witness_enabled = true;
}

abbrev commissioned : Commissioned
commissioned = record {
  verified = record {
    operator_npub = codes "npub1";
    request_id = hash_text;
    attestation_id = hash_text;
    attested_at = pos 900;
  };
  descriptor_id = hash_text;
}

abbrev both : Parties
both = record {
  service_hex = key_text;
  operator_hex = key_text;
  management = codes "local";
  attestation_id = hash_text;
}

abbrev terms : Terms
terms = record {
  version = pos 1;
  issued = pos 1000;
  expires = pos 2000;
  start = pos 1000;
  stop = pos 2000;
  kinds = pos 1415 ∷ [];
  nonce = hash_text;
  policy_sha256 = hash_text;
}

abbrev asked : Fields
asked = request_body both terms []

abbrev request_event : StoredEvent
request_event =
    stroma.sign [] 78 (canonical_json (obj asked)) (request_tags both (pos 2000)) (pos 1000)

abbrev granted_fields : Fields
granted_fields = dict (
    (codes "schema", str authorization_schema)
    ∷ (codes "schema_version", number (pos 1))
    ∷ (codes "action", str (codes "authorize"))
    ∷ (codes "role", str role)
    ∷ (codes "service", service_dict key_text)
    ∷ (codes "operator", str key_text)
    ∷ (codes "management", str (codes "local"))
    ∷ (codes "commissioning_attestation", str hash_text)
    ∷ (codes "request_event_id", str hash_text)
    ∷ (codes "issued_at", number (pos 1005))
    ∷ (codes "not_before", number (pos 1000))
    ∷ (codes "not_after", number (pos 2000))
    ∷ (codes "subject_kinds", kinds_json (pos 1415 ∷ []))
    ∷ (codes "policy_sha256", str hash_text)
    ∷ (codes "sequence", number (pos 1))
    ∷ (codes "previous", null)
    ∷ [])

abbrev granted_tags : List (List Text)
granted_tags =
    (codes "d" ∷ (authorization_schema ++ b':' ∷ (key_text ++ [])) ∷ [])
    ∷ service_tag key_text
    ∷ (codes "e" ∷ hash_text ∷ [] ∷ codes "authorization-request" ∷ [])
    ∷ attestation_id_tag hash_text
    ∷ role_tag
    ∷ []

abbrev granted_event : StoredEvent
granted_event = stroma.sign [] 30078 (canonical_json (obj granted_fields)) granted_tags (pos 1005)

abbrev evidence : Fields
evidence = dict (
    (codes "request", obj (to_dict request_event))
    ∷ (codes "policy", str (codes "p"))
    ∷ (codes "authorization", obj (to_dict granted_event))
    ∷ [])

abbrev revoked_fields : Fields
revoked_fields = revocation_body both (int (pos 1008)) (str (codes "lost")) (pos 2) hash_text

abbrev revoked_event : StoredEvent
revoked_event =
    stroma.sign [] 30078 (canonical_json (obj revoked_fields)) (revocation_tags both hash_text)
      (pos 1008)

abbrev revocation : Fields
revocation = field (codes "revocation") (obj (to_dict revoked_event)) end

-- `json.loads` on the texts of these tests
abbrev read : Text → Fields
read text =
    if starts_with text (codes "{\"c")
    then asked
    else if starts_with text (codes "{\"action\":\"a")
    then granted_fields
    else if starts_with text (codes "{\"action\":\"r")
    then revoked_fields
    else if starts_with text (codes "{\"r")
    then revocation
    else evidence

abbrev reading : Codec
reading = record { loads = λ text. some (obj (read text)); sha256_bytes = λ _. hash_text }

abbrev in_force : AuthorizationState
in_force = record { row = some []; history = some ((1, []) ∷ []); controls = [] }

encodable_revocation : is_encodable (payload revoked_event) ≡ true
unfolding is_encodable is_surrogate dumps canonical_json to_ascii ascii_char sorted text_lt
    dumps_int revocation_body revocation_tags
encodable_revocation = refl

revocation_loads :
    (label : Document)
    → valid_event lenient reading stroma 1010 label (obj (to_dict revoked_event)) ≡ ok revoked_event
revocation_loads label =
    signed-valid_event lenient reading stroma [] key_text 1010 30078 revoked_event.content
      revoked_event.tags (pos 1008) label revoked_event stroma-SignsFor
      (stroma-SignsFor.signs 30078 revoked_event.content revoked_event.tags (pos 1008))
      encodable_revocation (omega arith)

abbrev status : Status
status = record {
  state = authorized;
  operator_npub = codes "npub1";
  authorization_event_id = some hash_text;
  request_event_id = hash_text;
  terms = terms;
}

abbrev shown : View
shown =
    view_of lenient reading stroma 1010 settings commissioned (evidence ∷ []) evidence none
      (some status) []
