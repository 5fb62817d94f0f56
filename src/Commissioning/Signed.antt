-- ===== src/Commissioning/Signed.antt =====
-- src/spurline/commissioning.py: the events that stroma signs, as documents that are checked.
use spurline.Prelude.{ℕ, ◌+◌, true, ◌≡◌, refl, sym, subst, some, List, [], ◌∷◌, arith, ok}
use spurline.Prelude.Int.{ℤ, pos, ◌≤ℤ◌}
use spurline.Prelude.Text.{Text, codes, text_eq_refl}
use spurline.Json.{obj, str, Fields, int, value, lookup}
use spurline.Json.Equal.{json_eq_refl}
use spurline.Events.{Crypto, StoredEvent, to_dict, is_encodable}
use spurline.Events.Validity.{IsValid, IsHex, IsSigned, payload, validate_event_iff}
use spurline.Events.Reading.{to_dict-Reads}
use spurline.Receipts.{Codec, canonical_json, texts_eq}
use spurline.Commissioning.{Toolkit, Document, number, is_number, valid_event, content_of, loaded}

-- an event with the given fields, hashed and signed
pub record SignedAs (lib : Crypto) (hex : Text) (kind : ℕ) (content : Text)
    (tags : List (List Text)) (created_at : ℤ) (e : StoredEvent) : Type 0 where
  pub id : IsHex e.id 64
  pub sig : IsHex e.sig 128
  pub hash : e.id ≡ lib.sha256 (payload e)
  pub signed : IsSigned lib e
  pub has_pubkey : e.pubkey ≡ hex
  pub has_kind : e.kind ≡ int (pos kind)
  pub has_content : e.content ≡ content
  pub has_tags : e.tags ≡ tags
  pub has_time : e.created_at ≡ int created_at

-- What stroma documents of a secret key: it signs events that have the fields it is given, under its
-- public key, and a valid event loads as itself.
pub record SignsFor (lib : Crypto) (kit : Toolkit) (nsec hex : Text) : Type 0 where
  pub key : kit.secret_key nsec ≡ some hex
  pub key_size : IsHex hex 64
  pub signs :
      (kind : ℕ) (content : Text) (tags : List (List Text)) (created_at : ℤ)
      → SignedAs lib hex kind content tags created_at (kit.sign nsec kind content tags created_at)
  pub loads :
      (now : ℕ) (e : StoredEvent)
      → IsValid lib now true e
      → kit.load_event (obj (to_dict e)) ≡ loaded e

module _ (lib : Crypto) (codec : Codec) (kit : Toolkit) where
  -- a signed event that can be encoded and is not too far ahead is a valid document
  pub signed-valid_event :
      (nsec hex : Text) (now kind : ℕ) (content : Text) (tags : List (List Text)) (created_at : ℤ)
      (label : Document) (e : StoredEvent)
      → SignsFor lib kit nsec hex
      → SignedAs lib hex kind content tags created_at e
      → is_encodable (payload e) ≡ true
      → created_at ≤ℤ pos (now + 900)
      → valid_event lib codec kit now label (obj (to_dict e)) ≡ ok e
  unfolding valid_event
  signed-valid_event nsec hex now kind content tags created_at label e laws s encodable time =
      let valid : IsValid lib now true e = record {
        id = s.id;
        pubkey = subst (λ k. IsHex k 64) (sym s.has_pubkey) laws.key_size;
        sig = s.sig;
        in_time = subst (λ n. value n ≤ℤ pos (now + 900)) (sym s.has_time) time;
        encodable = encodable;
        hash = s.hash;
        signed = λ _. s.signed;
      } in
      rw
        ((validate_event_iff lib now true (obj (to_dict e)) e).1
          (valid, (to_dict e, refl, to_dict-Reads e)))
        (rw (laws.loads now e valid) refl)

  -- the content of such an event is read back
  pub read_content :
      (schema : Text) (e : StoredEvent) (content : Fields)
      → e.content ≡ canonical_json (obj content)
      → codec.loads (canonical_json (obj content)) ≡ some (obj content)
      → lookup (codes "schema") content ≡ some (str schema)
      → lookup (codes "schema_version") content ≡ some (number (pos 1))
      → content_of lib codec kit schema e ≡ ok content
  unfolding content_of is_number
  read_content schema e content same reads s v = rw same (
      rw reads (
        rw s (
          rw v (
            rw (json_eq_refl (str schema))
              (rw (text_eq_refl (canonical_json (obj content))) refl)))))

pub texts_eq_refl : (tag : List Text) → texts_eq tag tag ≡ true
texts_eq_refl [] = refl
texts_eq_refl (t ∷ ts) = ground (arith, text_eq_refl t, texts_eq_refl ts)
