-- ===== src/Audit/Samples.antt =====
-- The theorems about the audit chain at a concrete history.
use pomkita_be.Prelude.{
  replicate, length, ◌+◌, ◌≡◌, refl, ◌↔◌, ◌⊎◌, true, some, [], ◌∷◌, order_by, select, last?,
}
use pomkita_be.Prelude.Text.{codes}
use pomkita_be.Domain.{ok, err}
use pomkita_be.Samples.{sample_db, state_of}
use pomkita_be.Store.{Db}
use pomkita_be.Canonical.{Encoding, null, marshal}
use pomkita_be.Audit.{
  Library, AppendRequest, Event, append_in_transaction, verify, zero_hash, verify_rows, chain_of,
  chain_tampered, audit_row_hash,
}
use pomkita_be.Audit.Chain.{IsChain, verify_rows_exact}
use pomkita_be.Audit.Append.{IsSound, append-IsSound, empty-IsSound, append_all, append_all-verify}

abbrev pub sample_encoding : Encoding
sample_encoding = record {
  format_int = λ n. codes "1";
  marshal_string = λ s. ok (codes s);
  parses_float = λ b. true;
  sort_strings = λ l. l;
  sha256 = λ b. replicate 32 7;
}

abbrev pub sample_library : Library
sample_library = record {
  encoding = sample_encoding;
  trim_space = λ s. s;
  json_valid = λ b. true;
  decode = λ b. some null;
  stored_json = λ b. b;
  uuid_string = λ u. "uuid";
  lower_uuid_string = λ u. "uuid";
  format_time = λ t. "time";
  hex = λ b. "hex";
}

abbrev opened : AppendRequest
opened = record {
  org_id = 1;
  event_id = 30;
  event_type = "shift.opened";
  payload = codes "{}";
  outcome = "success";
  outcome_error = "";
}

abbrev claimed : AppendRequest
claimed = record opened { event_id = 31; event_type = "draft.claimed" }

append_all-verify_example :
    verify sample_library 1 (append_all sample_library ((opened, 5) ∷ (claimed, 6) ∷ []) sample_db)
    ≡ ok tt
append_all-verify_example =
    append_all-verify sample_library ((opened, 5) ∷ (claimed, 6) ∷ []) sample_db 1
      (refl, (refl, tt)) refl

abbrev logged : Db
unfolding append_in_transaction
logged = state_of (append_in_transaction sample_library opened 5 sample_db) sample_db

abbrev the_event : Event
the_event = record { event_id = 30; org_sequence = 1; row_hash = replicate 32 7 }

logged_is : append_in_transaction sample_library opened 5 sample_db ≡ ok (the_event, logged)
unfolding append_in_transaction audit_row_hash marshal last? order_by select
logged_is = refl

append-IsSound_example : IsSound sample_library 1 logged × (1 ≡ length (chain_of 1 sample_db) + 1)
append-IsSound_example =
    append-IsSound sample_library opened 5 sample_db logged the_event 1
      (empty-IsSound sample_library sample_db refl 1)
      (empty-IsSound sample_library sample_db refl 1) refl logged_is

verify_rows_exact_example :
    ((verify_rows sample_library zero_hash 1 (chain_of 1 logged) ≡ ok tt)
      ↔ IsChain sample_library zero_hash 1 (chain_of 1 logged))
    × ((verify_rows sample_library zero_hash 1 (chain_of 1 logged) ≡ ok tt)
        ⊎ (verify_rows sample_library zero_hash 1 (chain_of 1 logged) ≡ err chain_tampered))
verify_rows_exact_example = verify_rows_exact sample_library zero_hash 1 (chain_of 1 logged)
