-- ===== src/Store/Refusal.antt =====
-- Which events the INSERT of `EventStore.save` can be given.
use spurline.Prelude.{true, false, ◌&&◌, all, ◌≡◌, none, some, arith}
use spurline.Events.{StoredEvent, is_encodable}
use spurline.Filters.{fits_int64}
use spurline.Store.{StoreError, overflow_error, encode_error, refusal}

-- The columns that hold integers can hold those of the event.
abbrev pub Fits : StoredEvent → Type 0
Fits e = (fits_int64 e.created_at && fits_int64 e.kind) ≡ true

-- No text of the event has a lone surrogate.
pub record IsEncodable (e : StoredEvent) : Type 0 where
  pub id : is_encodable e.id ≡ true
  pub pubkey : is_encodable e.pubkey ≡ true
  pub content : is_encodable e.content ≡ true
  pub sig : is_encodable e.sig ≡ true
  pub tags : all (λ t. all is_encodable t) e.tags ≡ true

pub refusal-storable : (e : StoredEvent) → Fits e → IsEncodable e → refusal e ≡ none
unfolding refusal
refusal-storable e fits texts =
    ground (arith, fits, texts.id, texts.pubkey, texts.content, texts.sig, texts.tags)

pub refusal-overflow :
    (e : StoredEvent)
    → (fits_int64 e.created_at && fits_int64 e.kind) ≡ false
    → IsEncodable e
    → refusal e ≡ some overflow_error
unfolding refusal
refusal-overflow e big texts = ground (arith, big, texts.id, texts.pubkey)

-- An event whose numbers fit can only be refused for a text.
pub refusal-Fits :
    (e : StoredEvent) (x : StoreError)
    → Fits e
    → refusal e ≡ some x
    → (x ≡ encode_error) × ¬ (IsEncodable e)
unfolding refusal
refusal-Fits e x fits h =
    (ground (arith, fits, h), λ texts. absurd (ground (arith, h, refusal-storable e fits texts)))
