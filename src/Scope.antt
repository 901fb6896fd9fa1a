-- ===== src/Scope.antt =====
-- internal/repository/scope/scope.go: writes need an enabled organization and station.
use pomkita_be.Prelude.{◌≡◌, refl, Uuid, ◌&&◌, not, ◌==◌, first}
use pomkita_be.Domain.{
  Error, Result, domain, conflict, record_not_found, refuse_if, found_or, ◌>>=◌, ◌>>◌,
}
use pomkita_be.Store.{Db}

abbrev pub organization_disabled : Error
organization_disabled = domain conflict "org_disabled"

abbrev pub station_disabled : Error
station_disabled = domain conflict "station_disabled"

unfoldable pub require_enabled : Db → Uuid → Uuid → Result (Unit {0})
require_enabled db org_id station_id = do
  organization ← found_or record_not_found (first (λ o. o.org_id == org_id) db.organizations)
  refuse_if (not organization.enabled) organization_disabled
  station ←
      found_or record_not_found
        (first (λ s. s.org_id == org_id && s.station_id == station_id) db.stations)
  refuse_if (not station.enabled) station_disabled

-- The test reads the organizations and the stations alone.
pub require_enabled-cong :
    (db db' : Db) (org_id station_id : Uuid)
    → db'.organizations ≡ db.organizations
    → db'.stations ≡ db.stations
    → require_enabled db' org_id station_id ≡ require_enabled db org_id station_id
unfolding require_enabled
require_enabled-cong db db' org_id station_id o s = rw (o, s) refl
