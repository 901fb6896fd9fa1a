-- ===== src/Policy/Samples.antt =====
-- The theorem about policy revisions at a concrete policy.
use pomkita_be.Prelude.{first, count, select, ◌≡◌, refl, ◌≢◌, false, none, [], ◌∷◌}
use pomkita_be.Prelude.Text.{codes}
use pomkita_be.Domain.{ok}
use pomkita_be.Samples.{state_of, sample_db}
use pomkita_be.Store.{Db}
use pomkita_be.Audit.{append_in_transaction, audit_row_hash}
use pomkita_be.Audit.Samples.{sample_library}
use pomkita_be.Canonical.{marshal}
use pomkita_be.Policy.{
  Library, PolicyRevisionRequest, PolicyRevision, create_revision, count, first,
}
use pomkita_be.Policy.Overlap.{create_revision-once}

abbrev library : Library
library = record {
  audit = sample_library;
  json_marshal = λ v. codes "{}";
  parse_rational = λ t. none;
}

abbrev photos : PolicyRevisionRequest
photos = record {
  org_id = 1;
  station_id = 2;
  actor_id = 8;
  role = "Owner";
  policy_kind = "evidence";
  policy_id = 40;
  supersedes_revision_id = none;
  valid_from = 500;
  disabled = false;
  tombstone_reason = "";
  loss_liter_threshold = [];
  gain_liter_threshold = [];
  loss_rupiah_threshold = [];
  gain_rupiah_threshold = [];
  variance_rupiah_threshold = [];
  rollover_threshold = [];
  evidence_mode = "wajib";
}

abbrev owned : Db
owned = record sample_db {
  roles = record { org_id = 1; station_id = 2; user_id = 8; role = "Owner" } ∷ [];
}

abbrev revised : Db
unfolding create_revision
revised = state_of (create_revision library photos 41 20 owned) owned

abbrev answer : PolicyRevision
answer = record {
  revision_id = 41;
  policy_id = 40;
  policy_kind = "evidence";
  valid_from = 500;
  disabled = false;
}

revised_is : create_revision library photos 41 20 owned ≡ ok (answer, revised)
unfolding create_revision count select first append_in_transaction audit_row_hash marshal
revised_is = refl

abbrev optional_photos : PolicyRevisionRequest
optional_photos = record photos { evidence_mode = "opsional" }

create_revision-once_example :
    create_revision library optional_photos 42 30 revised ≢ ok (answer, revised)
create_revision-once_example =
    create_revision-once library photos optional_photos 41 42 20 30 owned revised revised answer
      answer revised_is (λ e. cc) (refl, refl, refl, refl, refl)
