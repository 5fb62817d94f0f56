-- ===== src/Authorization/Lifecycle.antt =====
-- src/spurline/witness.py: sequences of operations, at any times and under any commissioning.
use spurline.Prelude.{ℕ, ◌≡◌, refl, Option, List, Outcome, ok, err}
use spurline.Prelude.Text.{Text}
use spurline.Json.{Json}
use spurline.Events.{Crypto}
use spurline.Receipts.{Codec}
use spurline.Commissioning.{Toolkit}
use spurline.Service.{Commissioned}
use spurline.Authorization.{WitnessError, WitnessSettings, AuthorizationState, table, transaction}
use spurline.Authorization.Operations.{
  RequestArguments, new_request, request, new_authorization, authorize, new_revocation, revoke,
  new_control, control,
}
use spurline.Authorization.Rows.{IsNumbered}
use spurline.Authorization.Extended.{
  Extends, Extends-refl, Extends-trans, new_authorization-Extends, new_revocation-Extends,
  new_control-Extends, new_request-Extends,
}

module _ (lib : Crypto) (codec : Codec) (kit : Toolkit) (decode : List ℕ → Option Text)
    (settings : WitnessSettings) where
  -- a call of an operation that writes, whether it returns or raises
  pub data Step : AuthorizationState → AuthorizationState → Type 0 where
    requests :
        (c : Outcome WitnessError Commissioned) (now : ℕ) (arguments : RequestArguments)
        (fresh : Text) (s : AuthorizationState)
        → Step s (request lib codec kit decode settings c now arguments fresh s).1
    authorizes :
        (c : Outcome WitnessError Commissioned) (now : ℕ) (event : Json) (s : AuthorizationState)
        → Step s (authorize lib codec kit decode settings c now event s).1
    revokes :
        (c : Outcome WitnessError Commissioned) (now : ℕ) (event : Json) (s : AuthorizationState)
        → Step s (revoke lib codec kit decode settings c now event s).1
    controls :
        (c : Outcome WitnessError Commissioned) (now : ℕ) (action : Text) (reason : Json)
        (s : AuthorizationState)
        → Step s (control lib codec kit decode settings c now action reason s).1

  pub data Steps : AuthorizationState → AuthorizationState → Type 0 where
    stop : (s : AuthorizationState) → Steps s s
    then : (s t u : AuthorizationState) → Step s t → Steps t u → Steps s u

  transaction-Extends :
      {A : Type 0} (s : AuthorizationState) (o : Outcome WitnessError (A × AuthorizationState))
      → IsNumbered 1 (table s.history)
      → ((a : A) (s' : AuthorizationState) → o ≡ ok (a, s') → Extends s s')
      → Extends s (transaction s o).1
  transaction-Extends s (ok (a, s')) n h = h a s' refl
  transaction-Extends s (err e) n h = Extends-refl s n

  Step-Extends :
      (s t : AuthorizationState) → IsNumbered 1 (table s.history) → Step s t → Extends s t
  unfolding request authorize revoke control
  Step-Extends x t n (requests c now arguments fresh s) =
      transaction-Extends s (new_request lib codec kit decode settings c now arguments fresh s) n
        (λ r s'. new_request-Extends lib codec kit decode settings c now arguments fresh s s' r n)
  Step-Extends x t n (authorizes c now event s) =
      transaction-Extends s (new_authorization lib codec kit decode settings c now event s) n
        (λ v s'. new_authorization-Extends lib codec kit decode settings c now event s s' v n)
  Step-Extends x t n (revokes c now event s) =
      transaction-Extends s (new_revocation lib codec kit decode settings c now event s) n
        (λ v s'. new_revocation-Extends lib codec kit decode settings c now event s s' v n)
  Step-Extends x t n (controls c now action reason s) =
      transaction-Extends s (new_control lib codec kit decode settings c now action reason s) n
        (λ v s'. new_control-Extends lib codec kit decode settings c now action reason s s' v n)

  -- Whatever calls are made, at whatever times, returning or raising: the rows of the history and the
  -- controls that were there stay as they are, before those that are added, and the rows are numbered
  -- from 1 without a gap, where they were at the start.
  pub Steps-Extends :
      (s t : AuthorizationState) → IsNumbered 1 (table s.history) → Steps s t → Extends s t
  Steps-Extends x t n (stop s) = Extends-refl s n
  Steps-Extends x y n (then s u t step steps) =
      let first = Step-Extends s u n step in
      Extends-trans s u t first (Steps-Extends u t first.numbered steps)
