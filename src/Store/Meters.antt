-- ===== src/Store/Meters.antt =====
-- internal/repository/store/models.go: meter resets and baselines.
use pomkita_be.Prelude.{ℕ, Uuid, Time, String, Option}
use pomkita_be.Store.Decimal.{Decimal}

pub record MeterResetEventModel : Type 0 where
  pub reset_id : Uuid
  pub org_id : Uuid
  pub station_id : Uuid
  pub nozzle_id : Uuid
  pub old_value : Decimal
  pub new_value : Decimal
  pub effective_shift_id : Uuid
  pub reason : String
  pub actor_user_id : Uuid
  pub approver_user_id : Uuid
  pub approved_at : Option Time
  pub status : String

pub record NozzleBaselineRevisionModel : Type 0 where
  pub baseline_rev_id : Uuid
  pub org_id : Uuid
  pub station_id : Uuid
  pub nozzle_id : Uuid
  pub effective_station_seq : ℕ
  pub initial_meter_value : Decimal
  pub meter_max : Decimal
  pub created_by : Uuid
  pub created_at : Time

pub record NozzleBaselineCurrentModel : Type 0 where
  pub org_id : Uuid
  pub station_id : Uuid
  pub nozzle_id : Uuid
  pub current_baseline_rev_id : Uuid
