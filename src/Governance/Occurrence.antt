-- ===== src/Governance/Occurrence.antt =====
-- An occurrence that was recorded is found when it is recorded again.
use pomkita_be.Prelude.{
  first, ◌≡◌, refl, sym, ap, ◌∙◌, inl, inr, true, false, not, ◌&&◌, Option, none, some, arith,
  eq_iff, str_eq, Uuid, Time, is_set, Bool-cases, Option-cases, first-create_none,
}
use pomkita_be.Domain.{ok, found_or, ◌>>=◌, >>=-ok}
use pomkita_be.Store.{Db}
use pomkita_be.Store.Alerts.{AlertEventModel, AlertRuleModel}
use pomkita_be.Governance.Alerts.{
  AlertOccurrenceRequest, AlertEvent, is_occurrence, occurrence_row, is_rule, record_under,
  record_or_find, no_event, record_alert_occurrence, invalid_alert_request,
}

-- The row that is inserted is the occurrence, if a clearing names the event that it clears.
inserted-is_occurrence :
    (r : AlertOccurrenceRequest) (id : Uuid) (now : Time)
    → str_eq r.event_type "cleared" && not (is_set r.related_fired_event_id) ≡ false
    → is_occurrence r (occurrence_row r id now) ≡ true
unfolding occurrence_row
inserted-is_occurrence r id now h =
    let same = (eq_iff r.event_type r.event_type).1 refl in
    let kind = (eq_iff r.subject_kind r.subject_kind).1 refl in
    elim (Bool-cases (str_eq r.event_type "cleared")) [
      | inl clears ↦ elim (Option-cases r.related_fired_event_id) [
        | inl absent ↦ absurd ground (arith, h, clears, absent)
        | inr (related, e) ↦
            let other : str_eq r.event_type "fired" ≡ false =
              (let named : r.event_type ≡ "cleared" = (eq_iff r.event_type "cleared").0 clears in
                rw named refl) in
            rw (clears, other, e) (ground (arith, same))
      ]
      | inr fires ↦ rw fires (ground (arith, same, kind))
    ]

found-again :
    (r : AlertOccurrenceRequest) (id id2 : Uuid) (now later : Time) (db db' : Db) (e : AlertEvent)
    (o : Option AlertEventModel)
    → str_eq r.event_type "cleared" && not (is_set r.related_fired_event_id) ≡ false
    → first (is_occurrence r) db.alert_events ≡ o
    → record_or_find r id now db o ≡ (e, db')
    → record_or_find r id2 later db' (first (is_occurrence r) db'.alert_events)
      ≡ (record e { inserted = false }, db')
unfolding record_or_find
found-again r id id2 now later db db' e (some row) named there h =
    let same : db ≡ db' = ap (λ x. x.1) h in
    let event = ap (λ (x : AlertEvent × Db). x.0) h in rw⁻¹ same (rw⁻¹ event (rw there refl))
found-again r id id2 now later db db' e none named absent h =
    let same = ap (λ (x : AlertEvent × Db). x.1) h in
    let event = ap (λ (x : AlertEvent × Db). x.0) h in
    let found =
      first-create_none (is_occurrence r) db.alert_events (occurrence_row r id now) absent
        (inserted-is_occurrence r id now named) in
    rw⁻¹ same (rw⁻¹ event (rw found refl))

record_or_find-rules :
    (r : AlertOccurrenceRequest) (id : Uuid) (now : Time) (db : Db) (o : Option AlertEventModel)
    → (record_or_find r id now db o).1.alert_rules ≡ db.alert_rules
unfolding record_or_find
record_or_find-rules r id now db (some row) = refl
record_or_find-rules r id now db none = refl

under-again :
    (r : AlertOccurrenceRequest) (id id2 : Uuid) (now later : Time) (db db' : Db) (e : AlertEvent)
    (rule : AlertRuleModel)
    → record_under r id now db rule ≡ ok (e, db')
    → (record_under r id2 later db' rule ≡ ok (record e { inserted = false }, db'))
      × (db'.alert_rules ≡ db.alert_rules)
unfolding record_under
under-again r id id2 now later db db' e rule h =
    elim (Bool-cases (not rule.enabled && str_eq r.event_type "fired")) [
      | inl muted ↦
          let left : ok (no_event, db) ≡ ok (e, db') = rw muted at h in
          let state : db ≡ db' = ground (arith, left) in
          let event : no_event ≡ e = ground (arith, left) in
          (rw⁻¹ event (rw⁻¹ state (rw muted refl)), ap (λ x. x.alert_rules) (sym state))
      | inr heard ↦
          elim (Bool-cases
            (str_eq r.event_type "cleared" && not (is_set r.related_fired_event_id))) [
              | inl lacks ↦ absurd ground (arith, h, heard, lacks)
              | inr named ↦
                  let found : record_or_find r id now db (first (is_occurrence r) db.alert_events)
                      ≡ (e, db') =
                    ground (arith, h, heard, named) in
                  (
                    rw (heard, named, found-again r id id2 now later db db' e _ named refl found)
                        refl,
                    ap (λ x. x.1.alert_rules) (sym found) ∙ record_or_find-rules r id now db _,
                  )
            ]
    ]

-- After an occurrence was recorded, recording it again, under any new identifier and at any time,
-- returns the same event as one that was not inserted, and changes nothing.
pub record-again :
    (r : AlertOccurrenceRequest) (id id2 : Uuid) (now later : Time) (db db' : Db) (e : AlertEvent)
    → record_alert_occurrence r id now db ≡ ok (e, db')
    → record_alert_occurrence r id2 later db' ≡ ok (record e { inserted = false }, db')
unfolding record_alert_occurrence record_under
record-again r id id2 now later db db' e h =
    let (rule, there, h1) =
      >>=-ok (found_or invalid_alert_request (first (is_rule r) db.alert_rules)) _ h in
    let (again, rules) = under-again r id id2 now later db db' e rule h1 in
    ap (λ x. found_or invalid_alert_request (first (is_rule r) x) >>= record_under r id2 later db')
      rules
    ∙ ap (λ x. x >>= record_under r id2 later db') there
    ∙ again
