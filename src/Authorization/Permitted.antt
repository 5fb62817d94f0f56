-- ===== src/Authorization/Permitted.antt =====
-- src/spurline/witness.py: when witnessing is permitted.
use spurline.Prelude.{ℕ, true, false, ◌≡◌, Option, some, arith, ok, returns}
use spurline.Prelude.Int.{pos, ltb_ℤ, ◌≤ℤ◌}
use spurline.Prelude.Text.{codes}
use spurline.Json.{Json, Fields, lookup, value}
use spurline.Events.{Crypto, StoredEvent}
use spurline.Receipts.{Codec}
use spurline.Commissioning.{Toolkit}
use spurline.Service.{Commissioned}
use spurline.Authorization.{WitnessSettings, AuthorizationState, load}
use spurline.Authorization.Request.{Terms, verify_request}
use spurline.Authorization.Views.{
  View, is_suspended, is_authorized, pending_of, or_else, check_some, view_of, view,
}
use spurline.Authorization.History.{last_grant, last_entry, revokes, validate_history}
use spurline.Authorization.Grant.{GrantState, Status, grant_state, verify_authorization, authorized}

module _ (lib : Crypto) (codec : Codec) (kit : Toolkit) (now : ℕ) (settings : WitnessSettings)
    (commissioned : Commissioned) where
  -- evidence with a request and an answer that both pass their checks, at a time at which it is in force
  pub record InForce (evidence : Fields) (status : Status) : Type 0 where
    pub request_document : Json
    pub policy : Json
    pub document : Json
    pub request : StoredEvent
    pub content : Fields
    pub event : StoredEvent
    pub has_request : lookup (codes "request") evidence ≡ some request_document
    pub has_policy : lookup (codes "policy") evidence ≡ some policy
    pub has_answer : lookup (codes "authorization") evidence ≡ some document
    pub requested :
        verify_request lib codec kit now false settings commissioned request_document policy
        ≡ ok (request, content, status.terms)
    pub answered_by :
        verify_authorization lib codec kit now request content status.terms document ≡ ok event
    pub started : status.terms.start ≤ℤ pos now
    pub signed : value event.created_at ≤ℤ pos now
    pub unfinished : ltb_ℤ (pos now) status.terms.stop ≡ true

  -- an answer that is in force
  record Answered (request : StoredEvent) (content : Fields) (t : Terms) (answer : Option Json)
      (status : Status) : Type 0 where
    document : Json
    event : StoredEvent
    is_answer : answer ≡ some document
    verified : verify_authorization lib codec kit now request content t document ≡ ok event
    same_terms : t ≡ status.terms
    state : grant_state now t (value event.created_at) ≡ authorized

  -- the checks that the view makes
  pub record Viewed (s : AuthorizationState) (v : View) : Type 0 where
    pub current : Fields
    pub pending_status : Option Status
    pub grant_status : Option Status
    pub validated : validate_history lib codec kit now settings commissioned s ≡ ok v.history
    pub pending_checked :
        check_some lib codec kit now settings commissioned (pending_of current) ≡ ok pending_status
    pub grant_checked :
        check_some lib codec kit now settings commissioned (last_grant v.history) ≡ ok grant_status
    pub is_view :
        view_of lib codec kit now settings commissioned v.history current pending_status
          (or_else grant_status pending_status)
          s.controls
        ≡ v

  pub view-Viewed :
      (s : AuthorizationState) (v : View)
      → view lib codec kit now settings commissioned s ≡ ok v
      → Viewed s v
  unfolding view
  view-Viewed s v h =
      let (history, hh) =
        returns (validate_history lib codec kit now settings commissioned s)
          (λ e k. ground (arith, h, k)) in
      let (current, hc) = returns (load codec s) (λ e k. ground (arith, h, hh, k)) in
      let (p, hp) =
        returns (check_some lib codec kit now settings commissioned (pending_of current))
          (λ e k. ground (arith, h, hh, hc, k)) in
      let (g, hg) =
        returns (check_some lib codec kit now settings commissioned (last_grant history))
          (λ e k. ground (arith, h, hh, hc, hp, k)) in
      record {
        current = current;
        pending_status = p;
        grant_status = g;
        validated = ground (arith, h, hh, hc, hp, hg);
        pending_checked = hp;
        grant_checked = ground (arith, h, hh, hc, hp, hg);
        is_view = ground (arith, h, hh, hc, hp, hg);
      }

  -- what a view that permits witnessing stands on
  pub record Permits (s : AuthorizationState) (v : View) : Type 0 where
    pub grant : Fields
    pub status : Status
    pub history_valid : validate_history lib codec kit now settings commissioned s ≡ ok v.history
    pub latest : last_grant v.history ≡ some grant
    pub reported_status : v.status ≡ some status
    pub in_force : InForce grant status
    pub not_revoked : revokes (last_entry v.history) ≡ false
    pub not_suspended : is_suspended s.controls ≡ false

  pub is_authorized-eq : (state : GrantState) → is_authorized state ≡ true → state ≡ authorized
  is_authorized-eq state h = ground arith
