-- ===== src/Store/Tenants.antt =====
-- internal/repository/store/models.go: the tenants: organizations and stations.
use pomkita_be.Prelude.{Uuid, Time, String, Bool, Option}

pub record OrganizationModel : Type 0 where
  pub org_id : Uuid
  pub name : String
  pub legal_name : Option String
  pub address : Option String
  pub contact_email : Option String
  pub timezone : Option String
  pub enabled : Bool
  pub updated_at : Option Time
  pub created_at : Time

pub record StationModel : Type 0 where
  pub org_id : Uuid
  pub station_id : Uuid
  pub name : String
  pub code : Option String
  pub address : Option String
  pub enabled : Bool
  pub updated_at : Option Time
  pub timezone : String
  pub created_at : Time
