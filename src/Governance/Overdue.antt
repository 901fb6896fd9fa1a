-- ===== src/Governance/Overdue.antt =====
-- What an evaluation of the starvation rules leaves: every overdue shift has its event.
use pomkita_be.Prelude.{
  first, All, All-order_by, ℕ, ◌≡◌, refl, inl, inr, Bool, true, not, ◌||◌, Option, none, some, List,
  [], ◌∷◌, ◌++◌, arith, ◌==◌, str_eq, Uuid, Time, is_set, Bool-cases, select, Option-cases,
  first-create_none, order_by,
}
use pomkita_be.Domain.{passed, ok}
use pomkita_be.Store.{Db}
use pomkita_be.Store.Shifts.{ShiftModel}
use pomkita_be.Store.Alerts.{AlertRuleModel, AlertEventModel}
use pomkita_be.Governance.Alerts.{invalid_alert_request}
use pomkita_be.Governance.Starvation.{
  Inserted, is_watched, starvation_shifts, starvation_rules, is_fired, starved_event, insert_unless,
  fired_events, is_open, is_overdue, fire_overdue, clear_all, evaluate_rule, evaluate_rules,
  of_station, evaluate_shifts, evaluate_all, evaluate_starvation, required_window,
}

-- the query finds a row
abbrev pub IsFound {ℓ} : {A : Type ℓ} → (A → Bool) → List A → Type 0
IsFound p xs = is_set (first p xs) ≡ true

first-create_IsFound {ℓ} :
    {A : Type ℓ} (p : A → Bool) (xs : List A) (x : A) → IsFound p xs → IsFound p (xs ++ x ∷ [])
unfolding first
first-create_IsFound p [] x h = ground arith
first-create_IsFound p (y ∷ xs) x h = ground (arith, h, first-create_IsFound p xs x)

module _ (p : AlertEventModel → Bool) where
  insert_unless-IsFound :
      (o : Option AlertEventModel) (e : AlertEventModel) (st : Inserted)
      → IsFound p st.events
      → IsFound p (insert_unless o e st).events
  unfolding insert_unless
  insert_unless-IsFound (some found) e st h = h
  insert_unless-IsFound none e st h = first-create_IsFound p st.events e h

  clear_all-IsFound :
      (fresh : ℕ → Uuid) (now : Time) (s : ShiftModel) (r : AlertRuleModel)
      (fired : List AlertEventModel) (st : Inserted)
      → IsFound p st.events
      → IsFound p (clear_all fresh now s r fired st).events
  unfolding clear_all
  clear_all-IsFound fresh now s r [] st h = h
  clear_all-IsFound fresh now s r (e ∷ fired) st h =
      clear_all-IsFound fresh now s r fired _ (insert_unless-IsFound _ _ st h)

  fire_overdue-IsFound :
      (fresh : ℕ → Uuid) (now window : Time) (s : ShiftModel) (r : AlertRuleModel) (st : Inserted)
      → IsFound p st.events
      → IsFound p (fire_overdue fresh now window s r st).events
  unfolding fire_overdue
  fire_overdue-IsFound fresh now window s r st h = elim (Bool-cases (is_overdue now window s r)) [
    | inl late ↦ rw late (insert_unless-IsFound _ _ st h)
    | inr early ↦ rw early h
  ]

  evaluate_rule-IsFound :
      (fresh : ℕ → Uuid) (now window : Time) (s : ShiftModel) (r : AlertRuleModel) (st : Inserted)
      → IsFound p st.events
      → IsFound p (evaluate_rule fresh now window s r st).events
  unfolding evaluate_rule
  evaluate_rule-IsFound fresh now window s r st h = elim (Bool-cases (is_open s)) [
    | inl waits ↦ rw waits (fire_overdue-IsFound fresh now window s r st h)
    | inr other ↦ elim (Bool-cases (str_eq s.status "locked")) [
      | inl locked ↦
          rw (other, locked) (clear_all-IsFound fresh now s r (fired_events s r st.events) st h)
      | inr left ↦ rw (other, left) h
    ]
  ]

  evaluate_rules-IsFound :
      (fresh : ℕ → Uuid) (now window : Time) (s : ShiftModel) (rules : List AlertRuleModel)
      (st : Inserted)
      → IsFound p st.events
      → IsFound p (evaluate_rules fresh now window s rules st).events
  unfolding evaluate_rules
  evaluate_rules-IsFound fresh now window s [] st h = h
  evaluate_rules-IsFound fresh now window s (r ∷ rules) st h =
      evaluate_rules-IsFound fresh now window s rules _
        (evaluate_rule-IsFound fresh now window s r st h)

  evaluate_shifts-IsFound :
      (fresh : ℕ → Uuid) (now window : Time) (rules : List AlertRuleModel)
      (shifts : List ShiftModel) (st : Inserted)
      → IsFound p st.events
      → IsFound p (evaluate_shifts fresh now window rules shifts st).events
  unfolding evaluate_shifts
  evaluate_shifts-IsFound fresh now window rules [] st h = h
  evaluate_shifts-IsFound fresh now window rules (s ∷ shifts) st h =
      evaluate_shifts-IsFound fresh now window rules shifts _
        (evaluate_rules-IsFound fresh now window s (select (of_station s) rules) st h)

-- An open shift that is overdue under the rule has a fired event in its bucket.
abbrev pub HasFired : Time → Time → List AlertEventModel → ShiftModel → AlertRuleModel → Type 0
HasFired now window events s r =
    is_open s ≡ true → is_overdue now window s r ≡ true → IsFound (is_fired s r) events

starved-IsFound :
    (s : ShiftModel) (r : AlertRuleModel) (id : Uuid) (now : Time)
    → is_fired s r (starved_event s r id now) ≡ true
unfolding starved_event
starved-IsFound s r id now = ground arith

fire_overdue-HasFired :
    (fresh : ℕ → Uuid) (now window : Time) (s : ShiftModel) (r : AlertRuleModel) (st : Inserted)
    → is_overdue now window s r ≡ true
    → IsFound (is_fired s r) (fire_overdue fresh now window s r st).events
unfolding fire_overdue insert_unless
fire_overdue-HasFired fresh now window s r st overdue =
    elim (Option-cases (first (is_fired s r) st.events)) [
      | inl absent ↦
          rw
            (
              overdue,
              absent,
              first-create_none (is_fired s r) st.events (starved_event s r (fresh st.inserted) now)
                  absent (starved-IsFound s r (fresh st.inserted) now),
            )
            refl
      | inr (e, found) ↦ rw (overdue, found, found) refl
    ]

evaluate_rules-HasFired :
    (fresh : ℕ → Uuid) (now window : Time) (s : ShiftModel) (rules : List AlertRuleModel)
    (st : Inserted)
    → All (HasFired now window (evaluate_rules fresh now window s rules st).events s) rules
unfolding evaluate_rules evaluate_rule
evaluate_rules-HasFired fresh now window s [] st = tt
evaluate_rules-HasFired fresh now window s (r ∷ rules) st = (
  (λ waits overdue.
      evaluate_rules-IsFound (is_fired s r) fresh now window s rules _
        (rw waits (fire_overdue-HasFired fresh now window s r st overdue))),
  evaluate_rules-HasFired fresh now window s rules _,
)

All-HasFired :
    (now window : Time) (s : ShiftModel) (before after : List AlertEventModel)
    (rules : List AlertRuleModel)
    → ((p : AlertEventModel → Bool) → IsFound p before → IsFound p after)
    → All (HasFired now window before s) rules
    → All (HasFired now window after s) rules
All-HasFired now window s before after [] grow h = tt
All-HasFired now window s before after (r ∷ rules) grow h = (
  (λ waits overdue. grow (is_fired s r) (h.0 waits overdue)),
  All-HasFired now window s before after rules grow h.1,
)

-- every rule of the station
abbrev pub IsAlerted :
    Time → Time → List AlertRuleModel → List AlertEventModel → ShiftModel → Type 0
IsAlerted now window rules events s =
    All (HasFired now window events s) (select (of_station s) (starvation_rules rules))

evaluate_shifts-IsAlerted :
    (fresh : ℕ → Uuid) (now window : Time) (table : List AlertRuleModel) (shifts : List ShiftModel)
    (st : Inserted)
    → All
        (IsAlerted now window table
          (evaluate_shifts fresh now window (starvation_rules table) shifts st).events)
        shifts
unfolding evaluate_shifts
evaluate_shifts-IsAlerted fresh now window table [] st = tt
evaluate_shifts-IsAlerted fresh now window table (s ∷ shifts) st =
    let rules = starvation_rules table in
    let mid = evaluate_rules fresh now window s (select (of_station s) rules) st in
    (
      All-HasFired now window s mid.events _ (select (of_station s) rules)
          (λ p. evaluate_shifts-IsFound p fresh now window rules shifts mid)
          (evaluate_rules-HasFired fresh now window s (select (of_station s) rules) st),
      evaluate_shifts-IsAlerted fresh now window table shifts mid,
    )

-- After an evaluation, every shift of the past that is open or awaits its confirmation, and that is
-- older than the window, has a fired event in its bucket for each enabled starvation rule of its
-- station.
pub evaluate_starvation-alerts :
    (fresh : ℕ → Uuid) (now window : Time) (db db' : Db) (n : ℕ)
    → evaluate_starvation fresh now window db ≡ ok (n, db')
    → All (IsAlerted now window db.alert_rules db'.alert_events) (select (is_watched now) db.shifts)
unfolding evaluate_starvation evaluate_all starvation_shifts
evaluate_starvation-alerts fresh now window db db' n h =
    let (_, h1) = passed (now == 0 || not (window == required_window)) invalid_alert_request h in
    let final = evaluate_all fresh now window db in
    let same : final.events ≡ db'.alert_events = ground (arith, h1) in
    let P = IsAlerted now window db.alert_rules final.events in
    let by_id = order_by (λ (s : ShiftModel). s.shift_id) (select (is_watched now) db.shifts) in
    let by_station = order_by (λ (s : ShiftModel). s.station_id) by_id in
    let alerted : All P (select (is_watched now) db.shifts) =
      All-order_by (λ (s : ShiftModel). s.shift_id) P (select (is_watched now) db.shifts)
        (All-order_by (λ (s : ShiftModel). s.station_id) P by_id
          (All-order_by (λ (s : ShiftModel). s.org_id) P by_station
            (evaluate_shifts-IsAlerted fresh now window db.alert_rules
              (starvation_shifts now db.shifts) _))) in
    rw same at alerted
