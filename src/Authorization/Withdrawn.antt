-- ===== src/Authorization/Withdrawn.antt =====
-- src/spurline/witness.py: after a suspension or a revocation nothing is permitted.
use spurline.Prelude.{
  ℕ, suc, true, false, ◌≡◌, ◌⊎◌, inl, inr, Bool-cases, refl, sym, subst, ◌∙◌, Option, some, List,
  [], ◌∷◌, ◌++◌, length, arith, Outcome, ok, err, returns, holds_some,
}
use spurline.Prelude.Text.{Text, codes, text_eq, text_eq_iff, text_in}
use spurline.Json.{Json, obj, Fields, end, field}
use spurline.Events.{Crypto}
use spurline.Receipts.{Codec, canonical_json}
use spurline.Commissioning.{Toolkit, revocation_document, valid_event}
use spurline.Service.{Commissioned}
use spurline.Authorization.{
  WitnessError, WitnessSettings, Control, AuthorizationState, lift, text_value, read_dict,
  read_rows, read_history, write, table, append_entry, transaction, history_invalid,
}
use spurline.Authorization.Grant.{authorized, revoked}
use spurline.Authorization.History.{last_grant, last_entry, revokes, validate_history}
use spurline.Authorization.Views.{View, is_suspended, view}
use spurline.Authorization.Rows.{IsNumbered, Appends, append_entry-Appends}
use spurline.Authorization.Extended.{validate_history-read, viewing-state}
use spurline.Authorization.Operations.{
  is_recorded, actions, accept_revocation, new_revocation, revoke, add_control, new_control,
  control,
}
use spurline.Authorization.Permitted.{view-Viewed, is_authorized-eq}

is_suspended-append :
    (controls : List Control) (c : Control)
    → is_suspended (controls ++ c ∷ []) ≡ text_eq c.action (codes "suspend")
unfolding is_suspended
is_suspended-append [] c = refl
is_suspended-append (d ∷ []) c = refl
is_suspended-append (d ∷ e ∷ controls) c = is_suspended-append (e ∷ controls) c

-- the last entry that is read
last_entry-append :
    (history : List Fields) (entry : Fields) → last_entry (history ++ entry ∷ []) ≡ some entry
unfolding last_entry
last_entry-append [] entry = refl
last_entry-append (e ∷ history) entry = rw (last_entry-append history entry) refl

module _ (codec : Codec) where
  read_rows-last :
      (rows : List (ℕ × Text)) (n : ℕ) (text : Text) (d : Fields) (history : List Fields)
      → codec.loads text ≡ some (obj d)
      → read_rows codec (rows ++ (n, text) ∷ []) ≡ ok history
      → (earlier : List Fields) × (history ≡ earlier ++ d ∷ [])
  read_rows-last [] n text d history l h = ([], ground (arith, l, h))
  read_rows-last ((m, old) ∷ rows) n text d history l h =
      let (entry, he) =
        returns (read_dict codec history_invalid old) (λ e k. ground (arith, h, k)) in
      let (entries, hs) =
        returns (read_rows codec (rows ++ (n, text) ∷ [])) (λ e k. ground (arith, h, he, k)) in
      let (earlier, same) = read_rows-last rows n text d entries l hs in
      (entry ∷ earlier, ground (arith, h, he, hs, same))

module _ (lib : Crypto) (codec : Codec) (kit : Toolkit) (decode : List ℕ → Option Text)
    (settings : WitnessSettings) (commissioning : Outcome WitnessError Commissioned) (now : ℕ) where
  view-suspended :
      (c : Commissioned) (s : AuthorizationState) (v : View)
      → is_suspended s.controls ≡ true
      → view lib codec kit now settings c s ≡ ok v
      → (v.witnessing_permitted ≡ false) × (v.locally_suspended ≡ true)
  view-suspended c s v e h =
      let w = view-Viewed lib codec kit now settings c s v h in
      let made = w.is_view in (ground (arith, made, e), ground (arith, made, e))

  of_transaction :
      {A : Type 0} (s : AuthorizationState) (o : Outcome WitnessError (A × AuthorizationState))
      (a : A)
      → (transaction s o).0 ≡ ok a
      → o ≡ ok (a, (transaction s o).1)
  of_transaction s (ok (b, s')) a h = ground (arith, h)
  of_transaction s (err e) a h = absurd (ground (arith, h))

  is_action :
      (action : Text)
      → text_in action actions ≡ true
      → text_eq action (codes "suspend") ≡ false
      → text_eq action (codes "resume") ≡ true
  is_action action h e = ground (arith, h, e)

  -- A suspension that returns reports that witnessing is not permitted, and a resumption returns only
  -- where the view before it has the authorization in force.
  pub control_lem :
      (action : Text) (reason : Json) (s : AuthorizationState) (v : View)
      → (control lib codec kit decode settings commissioning now action reason s).0 ≡ ok v
      → ((action ≡ codes "suspend")
          × (v.witnessing_permitted ≡ false)
          × (v.locally_suspended ≡ true))
        ⊎ ((action ≡ codes "resume")
            × (c : Commissioned) × (before : View) × (commissioning ≡ ok c)
            × (view lib codec kit now settings c s ≡ ok before)
            × (before.authorization_state ≡ authorized))
  unfolding control new_control
  control_lem action reason s v h =
      let k =
        of_transaction s
          (new_control lib codec kit decode settings commissioning now action reason s) v h in
      let known : text_in action actions ≡ true = ground (arith, k) in
      let (c, h1) = returns commissioning (λ e x. ground (arith, k, x)) in
      let (before, h2) =
        returns (view lib codec kit now settings c s) (λ e x. ground (arith, k, h1, x)) in
      let t =
        add_control lib codec kit decode settings commissioning now action (text_value reason) s in
      let (same, viewed) =
        viewing-state lib codec kit decode settings commissioning now c t v
          (transaction s
            (new_control lib codec kit decode settings commissioning now action reason s)).1
          (ground (arith, k, h1, h2)) in
      elim (Bool-cases (text_eq action (codes "suspend"))) [
        | inl e ↦
            let (denied, held) =
              view-suspended c t v (is_suspended-append s.controls _ ∙ e) viewed in
            inl ((text_eq_iff action (codes "suspend")).0 e, denied, held)
        | inr e ↦
            let resumes = is_action action known e in
            inr (
              (text_eq_iff action (codes "resume")).0 resumes,
              c,
              before,
              h1,
              h2,
              is_authorized-eq lib codec kit now settings c before.authorization_state
                  (ground (arith, k, h1, h2, resumes)),
            )
      ]

  -- a history that ends in a revocation is reported as revoked
  view-revoked :
      (c : Commissioned) (s : AuthorizationState) (v : View)
      → revokes (last_entry v.history) ≡ true
      → view lib codec kit now settings c s ≡ ok v
      → (v.authorization_state ≡ revoked) × (v.witnessing_permitted ≡ false)
  view-revoked c s v e h =
      let w = view-Viewed lib codec kit now settings c s v h in
      let made = w.is_view in (ground (arith, made, e), ground (arith, made, e))

  -- the history that is read after the append ends in the new entry
  appended-last :
      (c : Commissioned) (history history' : List Fields) (entry latest d : Fields)
      (s t : AuthorizationState)
      → Appends codec history entry s t
      → codec.loads (canonical_json (obj entry)) ≡ some (obj d)
      → validate_history lib codec kit now settings c (write latest t) ≡ ok history'
      → last_entry history' ≡ some d
  unfolding read_history write
  appended-last c history history' entry latest d s t a l h =
      let read =
        validate_history-read lib codec kit decode settings commissioning now c (write latest t)
          history' h in
      let (earlier, same) =
        read_rows-last codec a.earlier (suc (length history)) (canonical_json (obj entry)) d
          history' l (ground (arith, a.rows, read)) in
      rw same (last_entry-append earlier d)

  accepted-revocation :
      (c : Commissioned) (event event' : Json) (history : List Fields) (s t : AuthorizationState)
      (v : View)
      → IsNumbered 1 (table s.history)
      → codec.loads (canonical_json (obj (field (codes "revocation") event end)))
        ≡ some (obj (field (codes "revocation") event' end))
      → read_history codec s ≡ ok history
      → accept_revocation lib codec kit decode settings commissioning now c event history s ≡ ok t
      → view lib codec kit now settings c t ≡ ok v
      → (v.authorization_state ≡ revoked) × (v.witnessing_permitted ≡ false)
  unfolding accept_revocation text_eq
  accepted-revocation c event event' history s t v n l r h viewed =
      let entry : Fields = field (codes "revocation") event end in
      let (e, h1) =
        returns (lift (valid_event lib codec kit now revocation_document event))
          (λ x k. ground (arith, h, k)) in
      let (u, h2) = returns (append_entry history entry s) (λ x k. ground (arith, h, h1, k)) in
      let (history', h3) =
        returns (validate_history lib codec kit now settings c u)
          (λ x k. ground (arith, h, h1, h2, k)) in
      let (latest, h4) = holds_some (last_grant history) (λ k. ground (arith, h, h1, h2, h3, k)) in
      let same : write latest u ≡ t = ground (arith, h, h1, h2, h3, h4) in
      let w = view-Viewed lib codec kit now settings c t v viewed in
      let validated =
        subst (λ x. validate_history lib codec kit now settings c x ≡ ok v.history) (sym same)
          w.validated in
      let ends =
        appended-last c history v.history entry latest (field (codes "revocation") event' end) s u
          (append_entry-Appends codec history entry s u r n h2) l validated in
      view-revoked c t v (rw ends refl) viewed

  -- A revocation that was not recorded before, and that returns, reports the authorization as revoked and
  -- witnessing as not permitted, where the rows are numbered and `json.loads` reads the new row back.
  pub revoke_lem :
      (event event' : Json) (history : List Fields) (c : Commissioned) (s : AuthorizationState)
      (v : View)
      → IsNumbered 1 (table s.history)
      → codec.loads (canonical_json (obj (field (codes "revocation") event end)))
        ≡ some (obj (field (codes "revocation") event' end))
      → commissioning ≡ ok c
      → validate_history lib codec kit now settings c s ≡ ok history
      → is_recorded (codes "revocation") event history ≡ false
      → (revoke lib codec kit decode settings commissioning now event s).0 ≡ ok v
      → (v.authorization_state ≡ revoked) × (v.witnessing_permitted ≡ false)
  unfolding revoke new_revocation
  revoke_lem event event' history c s v n l hc hh fresh h =
      let k =
        of_transaction s (new_revocation lib codec kit decode settings commissioning now event s) v
          h in
      let (t, h4) =
        returns
          (accept_revocation lib codec kit decode settings commissioning now c event history s)
          (λ x e. ground (arith, k, hc, hh, fresh, e)) in
      let (same, viewed) =
        viewing-state lib codec kit decode settings commissioning now c t v
          (transaction s (new_revocation lib codec kit decode settings commissioning now event s)).1
          (ground (arith, k, hc, hh, fresh, h4)) in
      accepted-revocation c event event' history s t v n l
        (validate_history-read lib codec kit decode settings commissioning now c s history hh) h4
        viewed
