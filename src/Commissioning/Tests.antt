-- ===== src/Commissioning/Tests.antt =====
-- src/spurline/commissioning.py with one key for every text.
use spurline.Prelude.{
  Bool, true, if◌then◌else◌, ◌≡◌, refl, none, some, [], ◌∷◌, arith, Outcome, ok, err,
}
use spurline.Prelude.Int.{pos}
use spurline.Prelude.Text.{codes, text_eq, starts_with, text_lt, text_eq_refl}
use spurline.Json.{Json, obj, Fields, int}
use spurline.Json.Equal.{sorted}
use spurline.Json.Dumps.{dumps, dumps_int}
use spurline.Events.{StoredEvent, Raised, to_dict, is_encodable, is_surrogate, from_dict}
use spurline.Events.Reading.{to_dict-Reads, from_dict_of_Reads}
use spurline.Events.Validity.{IsHex, payload}
use spurline.Events.Tests.{lenient, hash_text, key_text, sig_text}
use spurline.Receipts.{Codec, canonical_json, to_ascii, ascii_char}
use spurline.Commissioning.{
  Loaded, Toolkit, attestation_schema, is_hex_digit, is_ascii_space, hex_length, is_nonce, has_tag,
  normalize_public_key, python_str, valid_event, content_of, loaded, failed, attestation_document,
}
use spurline.Commissioning.Request.{
  request_content, service_type_tag, request_tags, create_commissioning_request, Expected,
  verify_commissioning_request,
}
use spurline.Commissioning.Attestation.{
  VerifiedCommissioning, attestation_content, attestation_tag, service_tag, request_tag,
  check_attestation_header, check_attestation_tags, check_attestation, verify_operator_attestation,
}
use spurline.Commissioning.Signed.{SignsFor, signed-valid_event, read_content}
use spurline.Commissioning.Requested.{create-verify_commissioning_request}
use spurline.Commissioning.Descriptor.{
  descriptor_content, descriptor_tags, create_service_descriptor, verify_service_descriptor,
}
use spurline.Commissioning.Published.{create-verify_service_descriptor}
use spurline.Commissioning.Bound.{Binds, verify_operator_attestation-Binds}

abbrev loaded_of : Outcome Raised StoredEvent → Loaded
loaded_of (ok e) = loaded e
loaded_of (err r) = failed

abbrev load : Json → Loaded
load (obj d) = loaded_of (from_dict d)
load _ = failed

abbrev pub stroma : Toolkit
stroma = record {
  public_key = λ _. some (key_text, codes "npub1");
  secret_key = λ _. some key_text;
  load_event = load;
  sign = λ nsec kind content tags created_at. record {
    id = hash_text;
    pubkey = key_text;
    created_at = int created_at;
    kind = int (pos kind);
    tags = tags;
    content = content;
    sig = sig_text;
  };
  repr = λ _. [];
}

abbrev pub settings : Expected
settings = record { service_npub = codes "npub1"; management = codes "local" }

abbrev asked : Fields
asked = request_content key_text key_text (codes "local") hash_text 1000

abbrev answered : Fields
answered = attestation_content key_text key_text (codes "local") hash_text (int (pos 1005))

abbrev pub request_event : StoredEvent
request_event =
    stroma.sign [] 78 (canonical_json (obj asked)) (request_tags hash_text key_text (pos 87400))
      (pos 1000)

abbrev pub attestation_event : StoredEvent
attestation_event =
    stroma.sign [] 30078 (canonical_json (obj answered))
      (attestation_tag key_text
        ∷ service_tag key_text
        ∷ request_tag hash_text
        ∷ service_type_tag
        ∷ [])
      (pos 1005)

abbrev described : Fields
described = descriptor_content key_text (codes "local") attestation_event (pos 1005)

abbrev pub reading : Codec
reading = record {
  loads = λ text.
      if starts_with text (codes "{\"e")
      then some (obj asked)
      else if starts_with text (codes "{\"a")
      then some (obj answered)
      else some (obj described);
  sha256_bytes = λ _. hash_text;
}

encodable_request : is_encodable (payload request_event) ≡ true
unfolding is_encodable is_surrogate dumps canonical_json to_ascii ascii_char sorted text_lt
    dumps_int request_content request_tags
encodable_request = refl

encodable_attestation : is_encodable (payload attestation_event) ≡ true
unfolding is_encodable is_surrogate dumps canonical_json to_ascii ascii_char sorted text_lt
    dumps_int attestation_content
encodable_attestation = refl

hash-IsHex : IsHex hash_text 64
hash-IsHex = omega arith

key-IsHex : IsHex key_text 64
key-IsHex = omega arith

sig-IsHex : IsHex sig_text 128
sig-IsHex = omega arith

pub stroma-SignsFor : SignsFor lenient stroma [] key_text
stroma-SignsFor = record {
  key = refl;
  key_size = key-IsHex;
  signs = λ kind content tags created_at. record {
    id = hash-IsHex;
    sig = sig-IsHex;
    hash = refl;
    signed = record { installed = refl; point = refl; verified = refl };
    has_pubkey = refl;
    has_kind = refl;
    has_content = refl;
    has_tags = refl;
    has_time = refl;
  };
  loads = λ now e valid. rw (from_dict_of_Reads (to_dict e) e (to_dict-Reads e)) refl;
}

request_made :
    create_commissioning_request stroma [] [] (codes "local") 1000 none hash_text ≡ ok request_event
unfolding create_commissioning_request normalize_public_key is_nonce hex_length is_hex_digit
    is_ascii_space
request_made = refl

request_read : reading.loads (canonical_json (obj asked)) ≡ some (obj asked)
unfolding canonical_json to_ascii ascii_char sorted text_lt dumps request_content starts_with
request_read = refl

create-verify_commissioning_request_example :
    verify_commissioning_request lenient reading stroma settings 1010 true
      (obj (to_dict request_event))
    ≡ ok (request_event, asked)
create-verify_commissioning_request_example =
    create-verify_commissioning_request lenient reading stroma [] key_text (codes "npub1") key_text
      (codes "npub1") [] hash_text none 1000 1010 true settings request_event stroma-SignsFor refl
      refl refl request_made encodable_request request_read (omega arith) (omega arith)

request_run :
    (current : Bool)
    → verify_commissioning_request lenient reading stroma settings 1010 current
        (obj (to_dict request_event))
      ≡ ok (request_event, asked)
request_run current =
    create-verify_commissioning_request lenient reading stroma [] key_text (codes "npub1") key_text
      (codes "npub1") [] hash_text none 1000 1010 current settings request_event stroma-SignsFor
      refl refl refl request_made encodable_request request_read (omega arith) (omega arith)

answer_read : reading.loads (canonical_json (obj answered)) ≡ some (obj answered)
unfolding canonical_json to_ascii ascii_char sorted text_lt dumps attestation_content starts_with
answer_read = refl

attestation_loads :
    valid_event lenient reading stroma 1010 attestation_document (obj (to_dict attestation_event))
    ≡ ok attestation_event
attestation_loads =
    signed-valid_event lenient reading stroma [] key_text 1010 30078 attestation_event.content
      attestation_event.tags (pos 1005) attestation_document attestation_event stroma-SignsFor
      (stroma-SignsFor.signs 30078 attestation_event.content attestation_event.tags (pos 1005))
      encodable_attestation (omega arith)

attestation_content_read :
    content_of lenient reading stroma attestation_schema attestation_event ≡ ok answered
unfolding attestation_content text_eq
attestation_content_read =
    read_content lenient reading stroma attestation_schema attestation_event answered refl
      answer_read refl refl

abbrev pub verified : VerifiedCommissioning
verified = record {
  request = request_event;
  attestation = attestation_event;
  operator_npub = codes "npub1";
}

pub attestation_run :
    (current : Bool)
    → verify_operator_attestation lenient reading stroma settings 1010 current
        (obj (to_dict request_event))
        (obj (to_dict attestation_event))
      ≡ ok verified
unfolding verify_operator_attestation check_attestation check_attestation_header
    check_attestation_tags has_tag text_eq normalize_public_key python_str request_content
attestation_run current = rw (request_run current) (
    rw attestation_loads
      (rw attestation_content_read (rw (text_eq_refl (canonical_json (obj answered))) refl)))

attestation_evidence :
    Binds lenient reading stroma settings 1010
      (obj (to_dict request_event))
      (obj (to_dict attestation_event))
      verified
attestation_evidence =
    verify_operator_attestation-Binds lenient reading stroma settings 1010 true
      (obj (to_dict request_event)) (obj (to_dict attestation_event)) verified
      (attestation_run true)

abbrev pub descriptor_event : StoredEvent
descriptor_event =
    stroma.sign [] 30078 (canonical_json (obj described)) (descriptor_tags attestation_event)
      (pos 1005)

pub descriptor_made :
    create_service_descriptor lenient reading stroma 1010 []
      (obj (to_dict attestation_event))
      (codes "local")
      (pos 1005)
    ≡ ok descriptor_event
unfolding create_service_descriptor
descriptor_made = rw attestation_loads refl

encodable_descriptor : is_encodable (payload descriptor_event) ≡ true
unfolding is_encodable is_surrogate dumps canonical_json to_ascii ascii_char sorted text_lt
    dumps_int descriptor_content descriptor_tags
encodable_descriptor = refl

descriptor_read : reading.loads (canonical_json (obj described)) ≡ some (obj described)
unfolding canonical_json to_ascii ascii_char sorted text_lt dumps descriptor_content starts_with
descriptor_read = refl

create-verify_service_descriptor_example :
    verify_service_descriptor lenient reading stroma 1010 settings
      (obj (to_dict descriptor_event))
      (obj (to_dict attestation_event))
    ≡ ok descriptor_event
create-verify_service_descriptor_example =
    create-verify_service_descriptor lenient reading stroma [] key_text (codes "npub1") 1010
      settings (obj (to_dict attestation_event)) attestation_event descriptor_event (pos 1005)
      stroma-SignsFor refl attestation_loads descriptor_made encodable_descriptor (omega arith)
      descriptor_read

pub descriptor_run :
    verify_service_descriptor lenient reading stroma 1010 settings
      (obj (to_dict descriptor_event))
      (obj (to_dict attestation_event))
    ≡ ok descriptor_event
descriptor_run =
    create-verify_service_descriptor lenient reading stroma [] key_text (codes "npub1") 1010
      settings (obj (to_dict attestation_event)) attestation_event descriptor_event (pos 1005)
      stroma-SignsFor refl attestation_loads descriptor_made encodable_descriptor (omega arith)
      descriptor_read
