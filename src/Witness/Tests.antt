-- ===== src/Witness/Tests.antt =====
-- src/spurline/automatic_witness.py on one subject.
use spurline.Prelude.{ℕ, true, false, ◌≡◌, ◌⊎◌, refl, none, some, List, [], ◌∷◌, ok}
use spurline.Prelude.Int.{pos}
use spurline.Prelude.Text.{Text, codes, text_eq, starts_with}
use spurline.Json.{Json, null, int}
use spurline.Events.{StoredEvent}
use spurline.Events.Tests.{lenient, note, hash_text, key_text}
use spurline.Receipts.{Codec}
use spurline.Clock.{bounded, system, WitnessClock}
use spurline.Store.{Connection, new_job, pending}
use spurline.Store.Tests.{job, noted}
use spurline.Witness.{
  View, WitnessSettings, issue, issue_time, may_issue, within_grant, policy_allows_mode,
}
use spurline.Witness.Issue.{AfterIssue, rows_of, issue_lem}
use spurline.Witness.Worker.{work}
use spurline.Witness.Evolution.{Evolves, work-Evolves}

abbrev codec : Codec
codec = record { loads = λ t. none; sha256_bytes = λ bytes. hash_text }

abbrev sign : ℕ → Text → List (List Text) → Json
sign time content tags = null

abbrev pub settings : WitnessSettings
settings = record {
  clock_mode = bounded;
  receipt_version = 1;
  max_delay_seconds = 60;
  queue_limit = 10;
  witness_pubkey = key_text;
}

abbrev pub view : View
view = record {
  witnessing_permitted = true;
  subject_kinds = pos 1415 ∷ [];
  policy_lines = codes "Receipts for all" ∷ [];
  issued_at = 50;
  not_before = 60;
  not_after = 1000;
  authorization_event_id = hash_text;
  policy_sha256 = hash_text;
}

abbrev connection : Connection
connection = record { db = record noted { witness_jobs = new_job job pending ∷ [] }; faults = [] }

issue_lem_example :
    AfterIssue lenient codec sign settings 0 hash_text
      (some view, ok (100500, some 5))
      (rows_of hash_text connection.db)
      connection.db
      (issue lenient codec sign settings 0
        (some view, ok (100500, some 5))
        hash_text
        connection).1.db
    ⊎ ((issue lenient codec sign settings 0
          (some view, ok (100500, some 5))
          hash_text
          connection).1.db
        ≡ connection.db)
issue_lem_example =
    issue_lem lenient codec sign settings 0 hash_text (some view, ok (100500, some 5)) connection

issue_time_run : issue_time settings (some view, ok (100500, some 5)) job ≡ some 100500
unfolding may_issue within_grant policy_allows_mode text_eq starts_with
issue_time_run = refl

abbrev clock : WitnessClock
clock = record {
  mode = system;
  previous = record { wall = 100000000; monotonic = 5 };
  failed = false;
}

abbrev subject : StoredEvent
subject = record note { kind = int (pos 1415) }

work-Evolves_example :
    Evolves connection.db.witness_jobs
      (work lenient codec sign settings 0
        (λ digest. (some view, ok (100500, some 5)))
        connection).connection.db.witness_jobs
work-Evolves_example =
    work-Evolves lenient codec sign settings 0 (λ digest. (some view, ok (100500, some 5)))
      connection
