-- ===== src/Audit.antt =====
-- internal/repository/audit/repository.go: the hash chain of audit events of an organization, with
-- the outbox row that each event leaves for the relay.
pub mod Chain
pub mod Append
pub mod Samples
use pomkita_be.Prelude.{
  length, select, first, create, order_by, last?, nil_uuid, ℕ, zero, suc, ◌+◌, ◌-◌, ◌*◌, ◌/◌, ◌%◌,
  ◌^◌, ◌≤◌, ◌<◌, String, ◌≡◌, refl, sym, ap, ◌∙◌, ◌≢◌, ◌↔◌, ◌⊎◌, inl, inr, Bool, true, false, not,
  ◌&&◌, ◌||◌, Option, none, some, List, [], ◌∷◌, ◌++◌, map, arith, eq_iff, ltb, leb, ◌==◌, str_eq,
  if◌then◌else◌, Uuid, Time, replicate,
}
use pomkita_be.Prelude.Text.{Bytes}
use pomkita_be.Domain.{
  Error, validation, conflict, Result, ok, err, domain, wrapped, plain, record_not_found, refuse_if,
  found_or, ◌>>=◌, ◌>>◌, transaction,
}
use pomkita_be.Store.{Db}
use pomkita_be.Store.AuditRows.{AuditLogModel, AuditOutboxModel, OutboxRelayStateModel}
use pomkita_be.Canonical
use pomkita_be.Canonical.{Value, Encoding, marshal}

-- `audit.AppendRequest`
pub record AppendRequest : Type 0 where
  pub org_id : Uuid
  pub event_id : Uuid
  pub event_type : String
  pub payload : Bytes
  pub outcome : String
  pub outcome_error : String

-- `audit.Event`
pub record Event : Type 0 where
  pub event_id : Uuid
  pub org_sequence : ℕ
  pub row_hash : Bytes

abbrev pub invalid_request : Error
invalid_request = domain validation "invalid_audit_event"

abbrev pub chain_tampered : Error
chain_tampered = domain conflict "audit_chain_tampered"

-- What the package calls of Go's standard library and of the uuid package.
pub record Library : Type 0 where
  pub encoding : Encoding
  -- `strings.TrimSpace`
  pub trim_space : String → String
  -- `json.Valid`
  pub json_valid : Bytes → Bool
  -- `json.Decoder.Decode` with `UseNumber`; a map of Go has no order, so this is the value with the
  -- members of its objects in the order of their keys
  pub decode : Bytes → Option Value
  -- what a column of the type jsonb gives back for a text that was written to it
  pub stored_json : Bytes → Bytes
  -- `orgID.String()`, and `strings.ToLower(eventID.String())`
  pub uuid_string : Uuid → String
  pub lower_uuid_string : Uuid → String
  -- `createdAt.UTC().Format("2006-01-02T15:04:05.000000Z")`
  pub format_time : Time → String
  -- `hex.EncodeToString`
  pub hex : Bytes → String

-- 32 zero bytes, `make([]byte, 32)`
abbrev pub zero_hash : Bytes
zero_hash = replicate 32 0

abbrev pub value_list : List Value → Canonical.Values
value_list [] = Canonical.no_values
value_list (v ∷ vs) = Canonical.value v (value_list vs)

-- `string ok`, `nil` for an error
abbrev pub bytes_or_nil : Result Bytes → (Bytes → Bytes) → Bytes
bytes_or_nil (ok b) f = f b
bytes_or_nil (err e) f = []

-- the end of `auditRowHash`, for the decoded payload
unfoldable pub row_hash_of :
    Library → Option Value → Uuid → ℕ → Uuid → String → Time → Bytes → Bytes
row_hash_of lib none org_id sequence event_id event_type created_at prev_hash = []
row_hash_of lib (some payload) org_id sequence event_id event_type created_at prev_hash =
    bytes_or_nil
      (marshal lib.encoding (
        Canonical.array (
          value_list (
            Canonical.int (Canonical.pos 1)
            ∷ Canonical.str (lib.uuid_string org_id)
            ∷ Canonical.int (Canonical.pos sequence)
            ∷ Canonical.str (lib.lower_uuid_string event_id)
            ∷ Canonical.str event_type
            ∷ payload
            ∷ Canonical.str (lib.format_time created_at)
            ∷ Canonical.str (lib.hex prev_hash)
            ∷ []))))
      lib.encoding.sha256

-- `auditRowHash`; a payload that does not decode has the hash `nil`
unfoldable pub audit_row_hash : Library → Uuid → ℕ → Uuid → String → Bytes → Time → Bytes → Bytes
unfolding row_hash_of
audit_row_hash lib org_id sequence event_id event_type payload created_at prev_hash =
    row_hash_of lib (lib.decode payload) org_id sequence event_id event_type created_at prev_hash

-- the hash that a row should have
abbrev pub expected_hash : Library → AuditLogModel → Bytes
expected_hash lib r =
    audit_row_hash lib r.org_id r.org_sequence r.event_id r.event_type r.payload r.created_at
      r.prev_hash

-- The rows of an organization in the order of their sequence.
unfoldable pub chain_of : Uuid → Db → List AuditLogModel
chain_of org_id db = order_by (λ r. r.org_sequence) (select (λ r. r.org_id == org_id) db.audit_log)

unfoldable pub is_invalid : Library → AppendRequest → Bool
is_invalid lib request =
    request.org_id == nil_uuid
    || request.event_id == nil_uuid
    || str_eq (lib.trim_space request.event_type) ""
    || length request.payload == 0
    || not (lib.json_valid request.payload)
    || str_eq (lib.trim_space request.outcome) ""

-- `last.OrgSequence` and `last.RowHash` of the zero row, if there is none
abbrev pub sequence_of : Option AuditLogModel → ℕ
sequence_of none = 0
sequence_of (some r) = r.org_sequence

abbrev pub hash_or_zero : Bytes → Bytes
hash_or_zero [] = zero_hash
hash_or_zero (b ∷ bs) = b ∷ bs

abbrev pub prev_hash_of : Option AuditLogModel → Bytes
prev_hash_of none = zero_hash
prev_hash_of (some r) = hash_or_zero r.row_hash

-- the row that `AppendInTransaction` creates, as the table has it: its hash is over the payload of
-- the request, and the column `payload` is jsonb
unfoldable pub next_row : Library → AppendRequest → Time → Option AuditLogModel → AuditLogModel
next_row lib request now last = record {
  event_id = request.event_id;
  org_id = request.org_id;
  org_sequence = sequence_of last + 1;
  event_type = request.event_type;
  payload = lib.stored_json request.payload;
  outcome = request.outcome;
  outcome_error =
      if str_eq (lib.trim_space request.outcome_error) "" then none else some request.outcome_error;
  created_at = now;
  prev_hash = prev_hash_of last;
  row_hash =
      audit_row_hash lib request.org_id (sequence_of last + 1) request.event_id request.event_type
        request.payload now (prev_hash_of last);
}

abbrev pub outbox_row : Library → AppendRequest → Time → AuditOutboxModel
outbox_row lib request now = record {
  org_id = request.org_id;
  event_id = request.event_id;
  event_type = request.event_type;
  payload = lib.stored_json request.payload;
  created_at = now;
}

abbrev pub relay_row : AppendRequest → Time → OutboxRelayStateModel
relay_row request now = record {
  org_id = request.org_id;
  event_id = request.event_id;
  relay_status = "pending";
  attempt_count = 0;
  lease_token = none;
  lease_expires_at = none;
  last_attempt_at = none;
  next_attempt_at = some now;
  delivered_at = none;
  last_error = none;
}

-- `AppendInTransaction`. The row of `audit_chain_locks` only serialises the writers.
unfoldable pub append_in_transaction : Library → AppendRequest → Time → Db → Result (Event × Db)
unfolding next_row is_invalid chain_of
append_in_transaction lib request now db = do
  refuse_if (is_invalid lib request) invalid_request
  let row = next_row lib request now (last? (chain_of request.org_id db))
  refuse_if (not (length row.row_hash == 32)) invalid_request
  ok (
    record {
      event_id = request.event_id;
      org_sequence = row.org_sequence;
      row_hash = row.row_hash;
    },
    record db {
      audit_log = create row db.audit_log;
      audit_outbox = create (outbox_row lib request now) db.audit_outbox;
      relay_states = create (relay_row request now) db.relay_states;
    },
  )

abbrev pub bytes_eq : Bytes → Bytes → Bool
bytes_eq [] [] = true
bytes_eq [] (c ∷ cs) = false
bytes_eq (b ∷ bs) [] = false
bytes_eq (b ∷ bs) (c ∷ cs) = b == c && bytes_eq bs cs

-- the loop of `Verify`: `prev` is the hash of the row before, and `sequence` is `index + 1`
unfoldable pub verify_rows : Library → Bytes → ℕ → List AuditLogModel → Result (Unit {0})
verify_rows lib prev sequence [] = ok tt
verify_rows lib prev sequence (row ∷ rows) =
    refuse_if (not (row.org_sequence == sequence) || not (bytes_eq row.prev_hash prev))
      chain_tampered
    >> refuse_if (not (bytes_eq row.row_hash (expected_hash lib row))) chain_tampered
    >> verify_rows lib row.row_hash (sequence + 1) rows

-- `Verify`
unfoldable pub verify : Library → Uuid → Db → Result (Unit {0})
unfolding verify_rows chain_of
verify lib org_id db = verify_rows lib zero_hash 1 (chain_of org_id db)
