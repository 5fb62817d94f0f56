-- ===== src/Commissioning/Requested.antt =====
-- src/spurline/commissioning.py: a request that the service creates passes the check.
use spurline.Prelude.{
  ℕ, ◌+◌, ◌≤◌, ◌<◌, Bool, true, false, ◌≡◌, refl, subst, Option, some, arith, ok,
}
use spurline.Prelude.Int.{pos}
use spurline.Prelude.Text.{Text, text_eq, text_eq_refl}
use spurline.Json.{obj, str, int}
use spurline.Json.Equal.{json_eq_refl}
use spurline.Events.{Crypto, StoredEvent, to_dict, is_encodable}
use spurline.Events.Validity.{payload}
use spurline.Receipts.{Codec, canonical_json}
use spurline.Commissioning.{
  Toolkit, request_schema, is_number, strip, is_nonce, has_tag, service_json, normalize_public_key,
  text_or_empty, request_document,
}
use spurline.Commissioning.Request.{
  request_content, operator_tag, expiration_tag, service_type_tag, request_tags, chosen_nonce,
  check_header, check_expiry, check_service, check_tags, create_commissioning_request, Expected,
  check_request, verify_commissioning_request,
}
use spurline.Commissioning.Signed.{
  SignedAs, SignsFor, signed-valid_event, read_content, texts_eq_refl,
}

module _ (hex operator management nonce : Text) (now : ℕ) (r : StoredEvent) where
  has_request_tags :
      r.tags ≡ request_tags nonce operator (pos (now + 86400))
      → (has_tag (operator_tag operator) r ≡ true)
        × (has_tag (expiration_tag (pos (now + 86400))) r ≡ true)
        × (has_tag service_type_tag r ≡ true)
  unfolding has_tag request_tags
  has_request_tags ht = rw ht (
    ground (arith, texts_eq_refl (operator_tag operator)),
    ground (arith, texts_eq_refl (expiration_tag (pos (now + 86400)))),
    ground (arith, texts_eq_refl service_type_tag),
  )

  created-check_header :
      (later : ℕ)
      → now ≤ later + 300
      → r.kind ≡ int (pos 78)
      → r.pubkey ≡ hex
      → r.created_at ≡ int (pos now)
      → check_header later hex r (request_content hex operator management nonce now) ≡ ok tt
  unfolding check_header request_content is_number text_eq
  created-check_header later h hk hp hc =
      rw hk (rw hp (rw hc (ground (arith, text_eq_refl hex, h))))

  created-check_tags :
      is_nonce nonce ≡ true
      → r.tags ≡ request_tags nonce operator (pos (now + 86400))
      → check_tags operator
          (pos (now + 86400))
          r
          (request_content hex operator management nonce now)
        ≡ ok tt
  unfolding check_tags request_content text_eq
  created-check_tags hn ht = let (a, b, c) = has_request_tags ht in rw hn (rw a (rw b (rw c refl)))

  created-check_service :
      check_service hex management (request_content hex operator management nonce now) ≡ ok tt
  unfolding check_service request_content text_eq
  created-check_service =
      rw (json_eq_refl (str management)) (rw (json_eq_refl (service_json hex)) refl)

  created-check_expiry :
      (later : ℕ) (current : Bool)
      → later < now + 86400
      → r.created_at ≡ int (pos now)
      → check_expiry later current r (pos (now + 86400)) ≡ ok tt
  unfolding check_expiry
  created-check_expiry later true h hc = rw hc (ground (arith, h))
  created-check_expiry later false h hc = rw hc (ground (arith, h))

module _ (lib : Crypto) (codec : Codec) (kit : Toolkit) where
  created-check_request :
      (settings : Expected) (hex operator npub nonce : Text) (now later : ℕ) (current : Bool)
      (r : StoredEvent)
      → now ≤ later + 300
      → later < now + 86400
      → is_nonce nonce ≡ true
      → kit.public_key (strip operator) ≡ some (operator, npub)
      → SignedAs lib hex 78
          (canonical_json (obj (request_content hex operator settings.management nonce now)))
          (request_tags nonce operator (pos (now + 86400)))
          (pos now)
          r
      → check_request lib codec kit settings later current hex r
          (request_content hex operator settings.management nonce now)
        ≡ ok tt
  unfolding check_request normalize_public_key request_content text_eq text_or_empty
  created-check_request settings hex operator npub nonce now later current r h k hn ho made =
      rw
        (created-check_header hex operator settings.management nonce now r later h made.has_kind
          made.has_pubkey made.has_time)
        (rw
          (created-check_expiry hex operator settings.management nonce now r later current k
            made.has_time)
          (rw (created-check_service hex operator settings.management nonce now r) (
            rw ho
              (created-check_tags hex operator settings.management nonce now r hn made.has_tags))))

  created_request :
      (nsec hex operator npub operator_npub management fresh : Text) (nonce : Option Text) (now : ℕ)
      (r : StoredEvent)
      → SignsFor lib kit nsec hex
      → kit.public_key (strip operator_npub) ≡ some (operator, npub)
      → create_commissioning_request kit nsec operator_npub management now nonce fresh ≡ ok r
      → (is_nonce (chosen_nonce nonce fresh) ≡ true)
        × SignedAs lib hex 78
            (canonical_json
              (obj (request_content hex operator management (chosen_nonce nonce fresh) now)))
            (request_tags (chosen_nonce nonce fresh) operator (pos (now + 86400)))
            (pos now)
            r
  unfolding create_commissioning_request normalize_public_key
  created_request nsec hex operator npub operator_npub management fresh nonce now r laws ho
        created =
      let content =
        canonical_json
          (obj (request_content hex operator management (chosen_nonce nonce fresh) now)) in
      let tags = request_tags (chosen_nonce nonce fresh) operator (pos (now + 86400)) in
      (
        ground (arith, laws.key, ho, created),
        subst (SignedAs lib hex 78 content tags (pos now)) (ground (arith, laws.key, ho, created))
            (laws.signs 78 content tags (pos now)),
      )

  -- A request that the service creates passes `verify_commissioning_request`, whether it has to be current or not, from five
  -- minutes before its creation until a day after it, where the key of the settings is the public key of
  -- the secret key, the operator's hex key is read as itself, the request can be encoded, and `json.loads`
  -- reads its content back.
  pub create-verify_commissioning_request :
      (nsec hex service_npub operator npub operator_npub fresh : Text) (nonce : Option Text)
      (now later : ℕ) (current : Bool) (settings : Expected) (r : StoredEvent)
      → SignsFor lib kit nsec hex
      → kit.public_key (strip settings.service_npub) ≡ some (hex, service_npub)
      → kit.public_key (strip operator_npub) ≡ some (operator, npub)
      → kit.public_key (strip operator) ≡ some (operator, npub)
      → create_commissioning_request kit nsec operator_npub settings.management now nonce fresh
        ≡ ok r
      → is_encodable (payload r) ≡ true
      → codec.loads r.content
        ≡ some
            (obj (request_content hex operator settings.management (chosen_nonce nonce fresh) now))
      → now ≤ later + 300
      → later < now + 86400
      → verify_commissioning_request lib codec kit settings later current (obj (to_dict r))
        ≡ ok (r, request_content hex operator settings.management (chosen_nonce nonce fresh) now)
  unfolding verify_commissioning_request normalize_public_key request_content text_eq
  create-verify_commissioning_request nsec hex service_npub operator npub operator_npub fresh nonce
        now later current settings r laws key asked own created encodable reads early late =
      let (hn, made) =
        created_request nsec hex operator npub operator_npub settings.management fresh nonce now r
          laws asked created in
      let content =
        request_content hex operator settings.management (chosen_nonce nonce fresh) now in
      rw
        (signed-valid_event lib codec kit nsec hex later 78 (canonical_json (obj content))
          (request_tags (chosen_nonce nonce fresh) operator (pos (now + 86400))) (pos now)
          request_document r laws made encodable (omega (arith, early)))
        (rw
          (read_content lib codec kit request_schema r content made.has_content
            (subst (λ c. codec.loads c ≡ some (obj content)) made.has_content reads) refl refl)
          (rw key (
            rw
              (created-check_request settings hex operator npub (chosen_nonce nonce fresh) now later
                current r early late hn own made)
              refl)))
