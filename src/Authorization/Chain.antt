-- ===== src/Authorization/Chain.antt =====
-- src/spurline/witness.py: a history that is accepted is a chain.
use spurline.Prelude.{ℕ, suc, false, ◌≡◌, ◌⊎◌, Option, none, some, List, [], ◌∷◌, ok}
use spurline.Prelude.Int.{ℤ, pos, ◌≤ℤ◌}
use spurline.Prelude.Text.{Text, codes}
use spurline.Json.{Json, null, str, Fields, lookup, value}
use spurline.Events.{Crypto, StoredEvent}
use spurline.Receipts.{Codec}
use spurline.Commissioning.{Toolkit, number}
use spurline.Commissioning.Bound.{IsLoaded}
use spurline.Service.{Commissioned}
use spurline.Authorization.{
  WitnessSettings, authorization_schema, or_null, witness_content, event_of, is_revocation,
  event_id, event_time,
}
use spurline.Authorization.Grant.{Template, Status, check}
use spurline.Authorization.History.{action_at, revocation_template}

-- what the predecessor of an entry is called: None for the first
abbrev pub predecessor : Option Fields → Json
predecessor none = null
predecessor (some before) = str (event_id (event_of before))

abbrev pub NotBehind : Option Fields → ℤ → Type 0
NotBehind none time = Unit
NotBehind (some before) time = event_time (event_of before) ≤ℤ time

module _ (lib : Crypto) (codec : Codec) (kit : Toolkit) (now : ℕ) (settings : WitnessSettings)
    (commissioned : Commissioned) where
  -- an authorization: the evidence passes its checks, with the action of its place
  pub record IsGranted (index : ℕ) (entry body : Fields) : Type 0 where
    pub status : Status
    pub checked : check lib codec kit now false settings commissioned entry ≡ ok status
    pub action : lookup (codes "action") body ≡ some (str (action_at index))

  -- a revocation of the entry before it, which is no revocation, as the operator has to sign it
  pub record IsRevoked (before : Option Fields) (body : Fields) (event : StoredEvent) : Type 0 where
    pub head : Fields
    pub after_head : before ≡ some head
    pub head_stands : is_revocation head ≡ false
    pub template : Template
    pub expected :
        revocation_template lib codec kit now settings commissioned head
          (or_null (lookup (codes "reason") body))
          event.created_at
        ≡ ok template
    pub signer : event.pubkey ≡ template.pubkey
    pub same_content : event.content ≡ template.content

  -- an entry at its place in the chain
  pub record IsLinked (index : ℕ) (before : Option Fields) (entry : Fields) : Type 0 where
    pub event : StoredEvent
    pub body : Fields
    pub is_event : IsLoaded lib codec kit now (event_of entry) event
    pub has_body : witness_content codec authorization_schema event ≡ ok body
    pub sequence : lookup (codes "sequence") body ≡ some (number (pos index))
    pub previous : or_null (lookup (codes "previous") body) ≡ predecessor before
    pub time : NotBehind before (value event.created_at)
    pub step : IsGranted index entry body ⊎ IsRevoked before body event

  abbrev pub IsChain : ℕ → Option Fields → List Fields → Type 0
  IsChain index before [] = Unit
  IsChain index before (entry ∷ entries) =
      IsLinked index before entry × IsChain (suc index) (some entry) entries
