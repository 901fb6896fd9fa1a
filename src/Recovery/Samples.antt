-- ===== src/Recovery/Samples.antt =====
-- The theorem about recoveries at a shift whose submission was left in progress.
use pomkita_be.Prelude.{first, select, update_where, count, order_by, ◌≡◌, refl, [], ◌∷◌, map}
use pomkita_be.Prelude.Text.{codes}
use pomkita_be.Domain.{ok, err}
use pomkita_be.Samples.{sample_db}
use pomkita_be.Canonical.{marshal}
use pomkita_be.Audit.{append_in_transaction, audit_row_hash}
use pomkita_be.Audit.Samples.{sample_library}
use pomkita_be.Store.{Db}
use pomkita_be.Submission.Samples as Filed
use pomkita_be.Recovery.{Library, is_stale, recover_stale}
use pomkita_be.Recovery.Settles.{recover_stale-settles}

abbrev library : Library
library = record { audit = sample_library; json_marshal = λ v. codes "{}" }

abbrev left : Db
left = record sample_db {
  shifts = record Filed.shift { status = "submitting" } ∷ [];
  drafts = record Filed.draft { status = "submitting" } ∷ [];
}

abbrev recovered : Db
unfolding recover_stale
recovered = elim (recover_stale library 100 50 left) [ ok (n, db) ↦ db | err e ↦ left ]

recovered_is : recover_stale library 100 50 left ≡ ok (1, recovered)
unfolding recover_stale order_by select first append_in_transaction audit_row_hash marshal
recovered_is = refl

reopened : map (λ s. s.status) recovered.shifts ≡ "open" ∷ []
unfolding recovered recover_stale order_by select first append_in_transaction audit_row_hash marshal
    update_where
reopened = refl

recover_stale-settles_example :
    (select (is_stale 50) recovered.drafts ≡ []) × (1 ≡ count (is_stale 50) left.drafts)
recover_stale-settles_example = recover_stale-settles library 100 50 left recovered 1 recovered_is
