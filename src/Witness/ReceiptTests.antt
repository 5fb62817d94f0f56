-- ===== src/Witness/ReceiptTests.antt =====
-- src/spurline/automatic_witness.py: a job whose receipt is issued.
use spurline.Prelude.{ℕ, ◌≡◌, ◌≢◌, refl, ap, length, some, List, [], ◌∷◌, ok, arith}
use spurline.Prelude.Int.{pos}
use spurline.Prelude.Text.{Text, text_eq, text_lt, starts_with}
use spurline.Json.{Json, obj, int}
use spurline.Json.Dumps.{dumps, decimal, decimal_digits, dumps_int, escape}
use spurline.Json.Equal.{sorted}
use spurline.Events.{
  to_dict, validate_event, validate_fields, event_id, verify_event_signature, is_encodable,
  is_surrogate, is_lower_hex, is_hex_char, missing, canonical_event_payload, valid_tags, from_dict,
  is_hex, str_field, int_field, tags_field, string_list, tag_list, as_tags,
}
use spurline.Events.Tests.{lenient, note, hash_text, key_text, sig_text}
use spurline.Receipts.{
  Codec, verify_receipt, signed_event_digest, check_kinds, check_profile, check_times,
  check_uncertainty, check_reference, check_binding, canonical_json, receipt_tags, from_hex,
  has_exactly, to_ascii, ascii_char,
}
use spurline.Store.{
  Connection, JobInputs, empty_database, new_job, pending, save, transaction, execute, enqueue,
  add_event, insert_or_refuse, refusal, add_tags, index_tags, record_deletions, complete,
  insert_event, insert_tag, complete_job, witness_rows,
}
use spurline.Witness.{
  Conditions, issue, receipt_body, receipt_for, may_issue, within_grant, policy_allows_mode,
}
use spurline.Witness.Tests.{settings, view}

abbrev granted_job : JobInputs
granted_job = record {
  subject = record note { kind = int (pos 1415) };
  signed_event_digest = hash_text;
  receipt_version = 1;
  observed_at_ms = 100000;
  clock_uncertainty_ms = some 5;
  authorization_event_id = hash_text;
  witness_policy_digest = hash_text;
  witness_pubkey = key_text;
}

-- `json.loads` on the one content that is read here
abbrev one_codec : Codec
one_codec = record {
  loads = λ t. some (obj (receipt_body granted_job 100500));
  sha256_bytes = λ bytes. hash_text;
}

abbrev signed : ℕ → Text → List (List Text) → Json
signed time content tags = obj (
    to_dict (record {
      id = hash_text;
      pubkey = key_text;
      created_at = int (pos time);
      kind = int (pos 1418);
      tags = tags;
      content = content;
      sig = sig_text;
    }))

abbrev waiting : Connection
waiting = record {
  db = record empty_database { witness_jobs = new_job granted_job pending ∷ [] };
  faults = [];
}

abbrev sampled : Conditions
sampled = (some view, ok (100500, some 5))

verified_run :
    verify_receipt lenient one_codec 0
      (receipt_for lenient one_codec signed settings granted_job 100500 1415)
      (obj (to_dict granted_job.subject))
    ≡ ok (obj (receipt_body granted_job 100500))
unfolding verify_receipt receipt_for receipt_body receipt_tags from_hex has_exactly check_profile
    check_uncertainty check_reference check_times signed_event_digest check_binding check_kinds
    canonical_json to_ascii ascii_char sorted text_lt dumps decimal decimal_digits dumps_int escape
    text_eq string_list tag_list as_tags valid_tags is_hex_char is_lower_hex is_hex str_field
    int_field tags_field from_dict to_dict canonical_event_payload is_surrogate is_encodable missing
    event_id verify_event_signature validate_fields validate_event
verified_run = refl

-- one event is stored
stored_run :
    length (issue lenient one_codec signed settings 0 sampled hash_text waiting).1.db.events ≡ 1
unfolding issue may_issue within_grant policy_allows_mode starts_with witness_rows save transaction
    execute enqueue add_event insert_or_refuse refusal add_tags index_tags record_deletions complete
    insert_event insert_tag complete_job verify_receipt receipt_for receipt_body receipt_tags
    from_hex has_exactly check_profile check_uncertainty check_reference check_times
    signed_event_digest check_binding check_kinds canonical_json to_ascii ascii_char sorted text_lt
    dumps decimal decimal_digits dumps_int escape text_eq string_list tag_list as_tags valid_tags
    is_hex_char is_lower_hex is_hex str_field int_field tags_field from_dict to_dict
    canonical_event_payload is_surrogate is_encodable missing event_id verify_event_signature
    validate_fields validate_event
stored_run = refl

stored :
    (issue lenient one_codec signed settings 0 sampled hash_text waiting).1.db.events
    ≢ waiting.db.events
stored same = absurd (ground (arith, stored_run, ap length same))
