-- ===== src/Store/Jobs.antt =====
-- The queue of witness jobs: its bound, and the moves that a job can make.
use spurline.Prelude.{
  true, false, ◌&&◌, ◌≡◌, ◌⊎◌, inl, inr, refl, none, some, List, [], ◌∷◌, ◌++◌, map, All, arith,
  if◌then◌else◌, Bool-cases,
}
use spurline.Prelude.Text.{Text, text_eq}
use spurline.Events.{StoredEvent}
use spurline.Store.{JobRow, JobState, pending, issued, unavailable, is_pending, is_issued}

-- What may become of a job: nothing, a receipt while it is pending, no receipt ever while it is
-- pending, or a broadcast once it is issued. Its digest and inputs stay.
pub data Move (j : JobRow) (k : JobRow) : Type 0 where
  stay : k ≡ j → Move j k
  issue :
      (receipt : StoredEvent)
      → j.state ≡ pending
      → k ≡ record j { state = issued; receipt = some receipt; broadcast = false }
      → Move j k
  give_up : j.state ≡ pending → k ≡ record j { state = unavailable } → Move j k
  announce : j.state ≡ issued → k ≡ record j { broadcast = true } → Move j k

-- a job as `save` queues it
pub record IsNew (j : JobRow) : Type 0 where
  pub state : (j.state ≡ pending) ⊎ (j.state ≡ unavailable)
  pub digest : j.digest ≡ j.inputs.signed_event_digest
  pub receipt : j.receipt ≡ none
  pub broadcast : j.broadcast ≡ false

-- The jobs of the second list are those of the first, each moved on, and new ones.
abbrev pub Follows : List JobRow → List JobRow → Type 0
Follows [] ks = All IsNew ks
Follows (j ∷ js) [] = ⊥
Follows (j ∷ js) (k ∷ ks) = Move j k × Follows js ks

pub Follows-refl : (js : List JobRow) → Follows js js
Follows-refl [] = tt
Follows-refl (j ∷ js) = (stay refl, Follows-refl js)

pub Follows-append : (js : List JobRow) (k : JobRow) → IsNew k → Follows js (js ++ k ∷ [])
Follows-append [] k h = (h, tt)
Follows-append (j ∷ js) k h = (stay refl, Follows-append js k h)

is_pending→eq : (s : JobState) → is_pending s ≡ true → s ≡ pending
is_pending→eq s h = ground arith

is_issued→eq : (s : JobState) → is_issued s ≡ true → s ≡ issued
is_issued→eq s h = ground arith

module _ (digest : Text) where
  issue_move :
      (receipt : StoredEvent) (j : JobRow)
      → Move j (
          if text_eq j.digest digest && is_pending j.state
          then record j { state = issued; receipt = some receipt; broadcast = false }
          else j)
  issue_move receipt j = elim (Bool-cases (text_eq j.digest digest && is_pending j.state)) [
    | inl e ↦ rw e (issue receipt (is_pending→eq j.state (ground arith)) refl)
    | inr e ↦ rw e (stay refl)
  ]

  pub Follows-complete :
      (receipt : StoredEvent) (js : List JobRow)
      → Follows js (
          map
            (λ j.
              if text_eq j.digest digest && is_pending j.state
              then record j { state = issued; receipt = some receipt; broadcast = false }
              else j)
            js)
  Follows-complete receipt [] = tt
  Follows-complete receipt (j ∷ js) = (issue_move receipt j, Follows-complete receipt js)

  give_up_move :
      (j : JobRow)
      → Move j (
          if text_eq j.digest digest && is_pending j.state
          then record j { state = unavailable }
          else j)
  give_up_move j = elim (Bool-cases (text_eq j.digest digest && is_pending j.state)) [
    | inl e ↦ rw e (give_up (is_pending→eq j.state (ground arith)) refl)
    | inr e ↦ rw e (stay refl)
  ]

  pub Follows-give_up :
      (js : List JobRow)
      → Follows js (
          map
            (λ j.
              if text_eq j.digest digest && is_pending j.state
              then record j { state = unavailable }
              else j)
            js)
  Follows-give_up [] = tt
  Follows-give_up (j ∷ js) = (give_up_move j, Follows-give_up js)

  announce_move :
      (j : JobRow)
      → Move j (
          if text_eq j.digest digest && is_issued j.state then record j { broadcast = true } else j)
  announce_move j = elim (Bool-cases (text_eq j.digest digest && is_issued j.state)) [
    | inl e ↦ rw e (announce (is_issued→eq j.state (ground arith)) refl)
    | inr e ↦ rw e (stay refl)
  ]

  pub Follows-announce :
      (js : List JobRow)
      → Follows js (
          map
            (λ j.
              if text_eq j.digest digest && is_issued j.state
              then record j { broadcast = true }
              else j)
            js)
  Follows-announce [] = tt
  Follows-announce (j ∷ js) = (announce_move j, Follows-announce js)
