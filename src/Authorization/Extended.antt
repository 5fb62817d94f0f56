-- ===== src/Authorization/Extended.antt =====
-- src/spurline/witness.py: the operations only add to the history and to the controls.
use spurline.Prelude.{
  ℕ, suc, Bool, true, false, ◌≡◌, ◌⊎◌, inl, inr, Bool-cases, Option-cases, refl, sym, ap, subst,
  ◌∙◌, Option, none, some, List, [], ◌∷◌, ◌++◌, length, arith, if◌then◌else◌, Outcome, ok, returns,
  holds_some,
}
use spurline.Prelude.Text.{Text, codes}
use spurline.Json.{Json, obj, Fields, end, field, lookup}
use spurline.Events.{Crypto, StoredEvent}
use spurline.Receipts.{Codec, canonical_json}
use spurline.Commissioning.{Toolkit, revocation_document, valid_event}
use spurline.Service.{Commissioned}
use spurline.Authorization.{
  WitnessError, WitnessSettings, Control, AuthorizationState, lift, text_value, load, read_history,
  write, import_rows, table, append_entry,
}
use spurline.Authorization.Grant.{Status, check}
use spurline.Authorization.History.{last_grant, validate_entries, validate_history}
use spurline.Authorization.Views.{View, view}
use spurline.Authorization.Operations.{
  RequestArguments, materialize, is_recorded, with_authorization, prepare_request, new_request,
  viewing, check_next, accept_answer, answer, new_authorization, accept_revocation, new_revocation,
  add_control, new_control,
}
use spurline.Authorization.Rows.{IsNumbered, Appends, appended, append_entry-Appends}

-- the rows and the controls of the first state stand in the second, before what is added, and the rows
-- have the numbers from 1 on
pub record Extends (s s' : AuthorizationState) : Type 0 where
  pub new_rows : List (ℕ × Text)
  pub new_controls : List Control
  pub rows : table s'.history ≡ table s.history ++ new_rows
  pub controls : s'.controls ≡ s.controls ++ new_controls
  pub numbered : IsNumbered 1 (table s'.history)

append_nil : {A : Type 0} (xs : List A) → xs ≡ xs ++ []
append_nil [] = refl
append_nil (x ∷ xs) = ap (◌∷◌ x) (append_nil xs)

append_assoc : {A : Type 0} (xs ys zs : List A) → (xs ++ ys) ++ zs ≡ xs ++ (ys ++ zs)
append_assoc [] ys zs = refl
append_assoc (x ∷ xs) ys zs = ap (◌∷◌ x) (append_assoc xs ys zs)

pub Extends-refl : (s : AuthorizationState) → IsNumbered 1 (table s.history) → Extends s s
Extends-refl s n = record {
  new_rows = [];
  new_controls = [];
  rows = append_nil (table s.history);
  controls = append_nil s.controls;
  numbered = n;
}

pub Extends-trans : (s t u : AuthorizationState) → Extends s t → Extends t u → Extends s u
Extends-trans s t u a b = record {
  new_rows = a.new_rows ++ b.new_rows;
  new_controls = a.new_controls ++ b.new_controls;
  rows =
      b.rows
      ∙ ap (λ (x : List (ℕ × Text)). x ++ b.new_rows) a.rows
      ∙ append_assoc (table s.history) a.new_rows b.new_rows;
  controls =
      b.controls
      ∙ ap (λ (x : List Control). x ++ b.new_controls) a.controls
      ∙ append_assoc s.controls a.new_controls b.new_controls;
  numbered = b.numbered;
}

module _ (lib : Crypto) (codec : Codec) (kit : Toolkit) (decode : List ℕ → Option Text)
    (settings : WitnessSettings) (commissioning : Outcome WitnessError Commissioned) (now : ℕ) where
  appended_rows :
      (s s' : AuthorizationState) (earlier : List (ℕ × Text)) (row : ℕ × Text)
      → s'.history ≡ some (earlier ++ row ∷ [])
      → (earlier ≡ table s.history) ⊎ (s.history ≡ none)
      → (new : List (ℕ × Text)) × (table s'.history ≡ table s.history ++ new)
  appended_rows s s' earlier row h (inl e) = (row ∷ [], rw (sym e) (ap table h))
  appended_rows s s' earlier row h (inr e) = (earlier ++ row ∷ [], rw e (ap table h))

  -- an append and a write
  Appends-Extends :
      (history : List Fields) (entry evidence : Fields) (s s' : AuthorizationState)
      → Appends codec history entry s s'
      → Extends s (write evidence s')
  unfolding write
  Appends-Extends history entry evidence s s' a =
      let row : ℕ × Text = (suc (length history), canonical_json (obj entry)) in
      let (new, e) = appended_rows s s' a.earlier row a.rows a.kept in
      record {
        new_rows = new;
        new_controls = [];
        rows = e;
        controls = a.same_controls ∙ append_nil s.controls;
        numbered =
            subst (λ (o : Option (List (ℕ × Text))). IsNumbered 1 (table o)) (sym a.rows)
              a.numbered;
      }

  pub validate_history-read :
      (c : Commissioned) (s : AuthorizationState) (history : List Fields)
      → validate_history lib codec kit now settings c s ≡ ok history
      → read_history codec s ≡ ok history
  unfolding validate_history
  validate_history-read c s history h =
      let (read, hr) = returns (read_history codec s) (λ e k. ground (arith, h, k)) in
      let (u, hv) =
        returns (validate_entries lib codec kit now settings c 1 none read)
          (λ e k. ground (arith, h, hr, k)) in
      let (d, hc) = returns (load codec s) (λ e k. ground (arith, h, hr, hv, k)) in
      ground (arith, h, hr, hv, hc)

  accept_answer-Extends :
      (c : Commissioned) (event : Json) (history : List Fields) (evidence : Fields)
      (s s' : AuthorizationState)
      → read_history codec s ≡ ok history
      → IsNumbered 1 (table s.history)
      → accept_answer lib codec kit decode settings commissioning now c event history evidence s
        ≡ ok s'
      → Extends s s'
  unfolding accept_answer
  accept_answer-Extends c event history evidence s s' r n h =
      let entry = with_authorization event evidence in
      let (st, h1) =
        returns (check lib codec kit now true settings c entry) (λ e k. ground (arith, h, k)) in
      let (u, h2) =
        returns (check_next lib codec kit decode settings commissioning now event history)
          (λ e k. ground (arith, h, h1, k)) in
      let (t, h3) = returns (append_entry history entry s) (λ e k. ground (arith, h, h1, h2, k)) in
      subst (Extends s) (ground (arith, h, h1, h2, h3)) (
        Appends-Extends history entry entry s t
          (append_entry-Appends codec history entry s t r n h3))

  answer-Extends :
      (c : Commissioned) (event : Json) (history : List Fields) (evidence : Fields)
      (s s' : AuthorizationState)
      → read_history codec s ≡ ok history
      → IsNumbered 1 (table s.history)
      → answer lib codec kit decode settings commissioning now c event history evidence s ≡ ok s'
      → Extends s s'
  unfolding answer
  answer-Extends c event history end s s' r n h = absurd (ground (arith, h))
  answer-Extends c event history (field k v d) s s' r n h =
      elim (Option-cases (lookup (codes "authorization") (field k v d))) [
        | inl e ↦
            accept_answer-Extends c event history (field k v d) s s' r n (ground (arith, h, e))
        | inr (present, e) ↦
            let (st, h1) =
              returns (check lib codec kit now false settings c (field k v d))
                (λ x k'. ground (arith, h, e, k')) in
            subst (Extends s) (ground (arith, h, e, h1)) (Extends-refl s n)
      ]

  -- a view does not change the state
  pub viewing-state :
      (c : Commissioned) (s : AuthorizationState) (v : View) (s' : AuthorizationState)
      → viewing lib codec kit decode settings commissioning now c s ≡ ok (v, s')
      → (s ≡ s') × (view lib codec kit now settings c s ≡ ok v)
  viewing-state c s v s' h =
      let (w, hw) = returns (view lib codec kit now settings c s) (λ e k. ground (arith, h, k)) in
      (ground (arith, h, hw), ground (arith, h, hw))

  recorded_or :
      {A : Type 0} (b : Bool) (x y : Outcome WitnessError A) (r : A)
      → (if b then x else y) ≡ ok r
      → (x ≡ ok r) ⊎ (y ≡ ok r)
  recorded_or true x y r h = inl h
  recorded_or false x y r h = inr h

  pub new_authorization-Extends :
      (event : Json) (s s' : AuthorizationState) (v : View)
      → IsNumbered 1 (table s.history)
      → new_authorization lib codec kit decode settings commissioning now event s ≡ ok (v, s')
      → Extends s s'
  unfolding new_authorization
  new_authorization-Extends event s s' v n h =
      let (c, h1) = returns commissioning (λ e k. ground (arith, h, k)) in
      let (history, h2) =
        returns (validate_history lib codec kit now settings c s)
          (λ e k. ground (arith, h, h1, k)) in
      elim (Bool-cases (is_recorded (codes "authorization") event history)) [
        | inl e ↦
            subst (Extends s) (viewing-state c s v s' (ground (arith, h, h1, h2, e))).0
              (Extends-refl s n)
        | inr e ↦
            let (evidence, h3) = returns (load codec s) (λ x k. ground (arith, h, h1, h2, e, k)) in
            let (t, h4) =
              returns
                (answer lib codec kit decode settings commissioning now c event history evidence s)
                (λ x k. ground (arith, h, h1, h2, e, h3, k)) in
            subst (Extends s) (viewing-state c t v s' (ground (arith, h, h1, h2, e, h3, h4))).0 (
              answer-Extends c event history evidence s t (validate_history-read c s history h2) n
                h4)
      ]

  pub accept_revocation-Extends :
      (c : Commissioned) (event : Json) (history : List Fields) (s s' : AuthorizationState)
      → read_history codec s ≡ ok history
      → IsNumbered 1 (table s.history)
      → accept_revocation lib codec kit decode settings commissioning now c event history s ≡ ok s'
      → Extends s s'
  unfolding accept_revocation
  accept_revocation-Extends c event history s s' r n h =
      let entry : Fields = field (codes "revocation") event end in
      let (e, h1) =
        returns (lift (valid_event lib codec kit now revocation_document event))
          (λ x k. ground (arith, h, k)) in
      let (t, h2) = returns (append_entry history entry s) (λ x k. ground (arith, h, h1, k)) in
      let (history', h3) =
        returns (validate_history lib codec kit now settings c t)
          (λ x k. ground (arith, h, h1, h2, k)) in
      let (latest, h4) = holds_some (last_grant history) (λ k. ground (arith, h, h1, h2, h3, k)) in
      subst (Extends s) (ground (arith, h, h1, h2, h3, h4)) (
        Appends-Extends history entry latest s t
          (append_entry-Appends codec history entry s t r n h2))

  pub new_revocation-Extends :
      (event : Json) (s s' : AuthorizationState) (v : View)
      → IsNumbered 1 (table s.history)
      → new_revocation lib codec kit decode settings commissioning now event s ≡ ok (v, s')
      → Extends s s'
  unfolding new_revocation
  new_revocation-Extends event s s' v n h =
      let (c, h1) = returns commissioning (λ e k. ground (arith, h, k)) in
      let (history, h2) =
        returns (validate_history lib codec kit now settings c s)
          (λ e k. ground (arith, h, h1, k)) in
      elim (Bool-cases (is_recorded (codes "revocation") event history)) [
        | inl e ↦
            subst (Extends s) (viewing-state c s v s' (ground (arith, h, h1, h2, e))).0
              (Extends-refl s n)
        | inr e ↦
            let (t, h4) =
              returns
                (accept_revocation lib codec kit decode settings commissioning now c event history
                  s)
                (λ x k. ground (arith, h, h1, h2, e, k)) in
            subst (Extends s) (viewing-state c t v s' (ground (arith, h, h1, h2, e, h4))).0 (
              accept_revocation-Extends c event history s t (validate_history-read c s history h2) n
                h4)
      ]

  pub new_control-Extends :
      (action : Text) (reason : Json) (s s' : AuthorizationState) (v : View)
      → IsNumbered 1 (table s.history)
      → new_control lib codec kit decode settings commissioning now action reason s ≡ ok (v, s')
      → Extends s s'
  unfolding new_control
  new_control-Extends action reason s s' v n h =
      let (c, h1) = returns commissioning (λ e k. ground (arith, h, k)) in
      let (before, h2) =
        returns (view lib codec kit now settings c s) (λ e k. ground (arith, h, h1, k)) in
      let t =
        add_control lib codec kit decode settings commissioning now action (text_value reason) s in
      subst (Extends s) (viewing-state c t v s' (ground (arith, h, h1, h2))).0 (record {
        new_rows = [];
        new_controls = _;
        rows = append_nil (table s.history);
        controls = refl;
        numbered = n;
      })

  materialize-Extends :
      (history : List Fields) (evidence : Fields) (s t : AuthorizationState)
      → IsNumbered 1 (table s.history)
      → materialize history s ≡ ok t
      → Extends s (write evidence t)
  unfolding write import_rows
  materialize-Extends [] evidence s t n h =
      let same : s ≡ t = ground (arith, h) in
      subst (λ u. Extends s (write evidence u)) same
        (record {
          new_rows = [];
          new_controls = [];
          rows = append_nil (table s.history);
          controls = append_nil s.controls;
          numbered = n;
        })
  materialize-Extends (entry ∷ entries) evidence s t n h = elim (Option-cases s.history) [
    | inl e ↦
        Appends-Extends [] entry evidence s t
          (appended codec [] entry s t [] (rw e refl) tt refl (inr e) (ground (arith, h, e)))
    | inr (rows, e) ↦
        let same : s ≡ t = ground (arith, h, e) in
        subst (λ u. Extends s (write evidence u)) same
          (record {
            new_rows = [];
            new_controls = [];
            rows = append_nil (table s.history);
            controls = append_nil s.controls;
            numbered = n;
          })
  ]

  pub new_request-Extends :
      (arguments : RequestArguments) (fresh : Text) (s s' : AuthorizationState)
      (r : Status × StoredEvent)
      → IsNumbered 1 (table s.history)
      → new_request lib codec kit decode settings commissioning now arguments fresh s ≡ ok (r, s')
      → Extends s s'
  unfolding new_request
  new_request-Extends arguments fresh s s' r n h =
      let (m, h1) =
        returns (prepare_request lib codec kit decode settings commissioning now arguments fresh s)
          (λ e k. ground (arith, h, k)) in
      let (t, h2) = returns (materialize m.2 s) (λ e k. ground (arith, h, h1, k)) in
      subst (Extends s) (ground (arith, h, h1, h2)) (materialize-Extends m.2 m.1 s t n h2)
