-- ===== src/Events/Tests.antt =====
-- src/spurline/events.py on a small event.
use spurline.Prelude.{true, ◌≡◌, ◌≢◌, refl, [], ◌∷◌, ok, err, arith}
use spurline.Prelude.Int.{pos}
use spurline.Prelude.Text.{Text, codes, text_eq}
use spurline.Json.{null, obj, end, field, int}
use spurline.Json.Dumps.{dumps}
use spurline.Events.{
  Crypto, StoredEvent, invalid, missing_fields, untyped, key_error, to_dict, validate_event,
  canonical_event_payload, missing, is_encodable, is_surrogate,
}
use spurline.Events.Validity.{IsValid, IsHex, validate_event_iff, validate_event-to_dict}
use spurline.Events.Reading.{to_dict-Reads}
use spurline.Events.Safety.{validate_event_safe}

abbrev pub hash_text : Text
hash_text = codes "00112233445566778899aabbccddeeff00112233445566778899aabbccddeeff"

abbrev pub key_text : Text
key_text = codes "aa112233445566778899aabbccddeeff00112233445566778899aabbccddeeff"

abbrev pub sig_text : Text
sig_text =
    codes
      "00112233445566778899aabbccddeeff00112233445566778899aabbccddeeff00112233445566778899aabbccddeeff00112233445566778899aabbccddeeff"

-- one hash for every text, and every signature accepted
abbrev pub lenient : Crypto
lenient = record {
  sha256 = λ _. hash_text;
  coincurve = true;
  is_point = λ _. true;
  schnorr = λ _ _ _. true;
}

abbrev pub note : StoredEvent
note = record {
  id = hash_text;
  pubkey = key_text;
  created_at = int (pos 100);
  kind = int (pos 1);
  tags = (codes "t" ∷ codes "a\"b" ∷ []) ∷ [] ∷ [];
  content = codes "hi\n";
  sig = sig_text;
}

payload_run :
    canonical_event_payload (to_dict note)
    ≡ ok (
        codes
          "[0,\"aa112233445566778899aabbccddeeff00112233445566778899aabbccddeeff\",100,1,[[\"t\",\"a\\\"b\"],[]],\"hi\\n\"]")
unfolding canonical_event_payload to_dict text_eq dumps
payload_run = refl

missing_run :
    validate_event lenient 0 true (obj (field (codes "id") null end))
    ≡ err (
        invalid (
          missing_fields (
            codes "content"
            ∷ codes "created_at"
            ∷ codes "kind"
            ∷ codes "pubkey"
            ∷ codes "sig"
            ∷ codes "tags"
            ∷ [])))
unfolding validate_event missing text_eq
missing_run = refl

note-IsHex : IsHex key_text 64
note-IsHex = omega arith

pub note-IsValid : IsValid lenient 0 true note
unfolding is_encodable is_surrogate dumps
note-IsValid = record {
  id = omega arith;
  pubkey = omega arith;
  sig = omega arith;
  in_time = omega arith;
  encodable = refl;
  hash = refl;
  signed = λ _. record { installed = refl; point = refl; verified = refl };
}

validate_event_iff_example : validate_event lenient 0 true (obj (to_dict note)) ≡ ok note
validate_event_iff_example =
    (validate_event_iff lenient 0 true (obj (to_dict note)) note).1
      (note-IsValid, (to_dict note, refl, to_dict-Reads note))

validate_event-to_dict_example : validate_event lenient 0 true (obj (to_dict note)) ≡ ok note
validate_event-to_dict_example = validate_event-to_dict lenient 0 true (obj (to_dict note)) note (
    (validate_event_iff lenient 0 true (obj (to_dict note)) note).1
      (note-IsValid, (to_dict note, refl, to_dict-Reads note)))

validate_event_safe_example :
    (validate_event lenient 0 true null ≢ err key_error)
    × (validate_event lenient 0 true null ≢ err untyped)
validate_event_safe_example = validate_event_safe lenient 0 true null
