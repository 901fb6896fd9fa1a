-- ===== src/Lifecycle/Rows.antt =====
-- The shifts before and after a call, row by row.
use pomkita_be.Prelude.{
  first, update_where, Bool-cases, All, ◌≡◌, refl, sym, ap, ◌∙◌, ◌≢◌, inl, inr, Bool, true, some,
  List, [], ◌∷◌, arith, if◌then◌else◌, Uuid,
}
use pomkita_be.Store.Shifts.{ShiftModel}
use pomkita_be.Submission.Settled.{All-first}
use pomkita_be.Lifecycle.{Phase, phase_of}

-- A shift keeps its key, and its phase goes as the relation says.
abbrev pub Moves : (Uuid → Phase → Phase → Type 0) → ShiftModel → ShiftModel → Type 0
Moves T s s' =
    (s'.shift_id ≡ s.shift_id)
    × ((p : Phase)
        → phase_of s ≡ some p
        → (p' : Phase) × (phase_of s' ≡ some p') × T s.shift_id p p')

abbrev pub AllMove : (Uuid → Phase → Phase → Type 0) → List ShiftModel → List ShiftModel → Type 0
AllMove T [] [] = Unit
AllMove T [] (s' ∷ ss') = ⊥
AllMove T (s ∷ ss) [] = ⊥
AllMove T (s ∷ ss) (s' ∷ ss') = Moves T s s' × AllMove T ss ss'

-- No two rows have the same key, as the primary key of the table demands.
abbrev pub Distinct : List ShiftModel → Type 0
Distinct [] = Unit
Distinct (s ∷ ss) = All (λ t. t.shift_id ≢ s.shift_id) ss × Distinct ss

pub Moves-refl :
    (T : Uuid → Phase → Phase → Type 0) (rests : (id : Uuid) (p : Phase) → T id p p)
    (s : ShiftModel)
    → Moves T s s
Moves-refl T rests s = (refl, λ p e. (p, e, rests s.shift_id p))

pub AllMove-refl :
    (T : Uuid → Phase → Phase → Type 0) (rests : (id : Uuid) (p : Phase) → T id p p)
    (ss : List ShiftModel)
    → AllMove T ss ss
AllMove-refl T rests [] = tt
AllMove-refl T rests (s ∷ ss) = (Moves-refl T rests s, AllMove-refl T rests ss)

-- One relation after another.
module _ (T U V : Uuid → Phase → Phase → Type 0)
    (after : (id : Uuid) (p q r : Phase) → T id p q → U id q r → V id p r) where
  Moves-trans : (s t u : ShiftModel) → Moves T s t → Moves U t u → Moves V s u
  Moves-trans s t u (same, f) (same', g) = (
    same' ∙ same,
    λ p e.
        let (q, e', st) = f p e in
        let (r, e'', st') = g q e' in
        let own : U s.shift_id q r = rw same at st' in (r, e'', after s.shift_id p q r st own),
  )

  pub AllMove-trans :
      (ss ts us : List ShiftModel) → AllMove T ss ts → AllMove U ts us → AllMove V ss us
  AllMove-trans [] [] [] m n = tt
  AllMove-trans [] [] (u ∷ us) m n = n
  AllMove-trans [] (t ∷ ts) us m n = absurd m
  AllMove-trans (s ∷ ss) [] us m n = absurd m
  AllMove-trans (s ∷ ss) (t ∷ ts) [] m n = n
  AllMove-trans (s ∷ ss) (t ∷ ts) (u ∷ us) m n =
      (Moves-trans s t u m.0 n.0, AllMove-trans ss ts us m.1 n.1)

-- the keys are the same, so they stay distinct
others :
    (T : Uuid → Phase → Phase → Type 0) (id : Uuid) (ss ts : List ShiftModel)
    → AllMove T ss ts
    → All (λ (t : ShiftModel). t.shift_id ≢ id) ss
    → All (λ (t : ShiftModel). t.shift_id ≢ id) ts
others T id [] [] m h = tt
others T id [] (t ∷ ts) m h = absurd m
others T id (s ∷ ss) [] m h = absurd m
others T id (s ∷ ss) (t ∷ ts) m h = (λ e. h.0 (sym m.0.0 ∙ e), others T id ss ts m.1 h.1)

pub Distinct-AllMove :
    (T : Uuid → Phase → Phase → Type 0) (ss ts : List ShiftModel)
    → AllMove T ss ts
    → Distinct ss
    → Distinct ts
Distinct-AllMove T [] [] m d = tt
Distinct-AllMove T [] (t ∷ ts) m d = absurd m
Distinct-AllMove T (s ∷ ss) [] m d = absurd m
Distinct-AllMove T (s ∷ ss) (t ∷ ts) m d =
    (rw m.0.0 (others T s.shift_id ss ts m.1 d.0), Distinct-AllMove T ss ts m.1 d.1)

-- An update of a row by its key, where the row moves.
module _ (T : Uuid → Phase → Phase → Type 0) (rests : (id : Uuid) (p : Phase) → T id p p)
    (id : Uuid) (q : ShiftModel → Bool) (f : ShiftModel → ShiftModel)
    (keyed : (s : ShiftModel) → q s ≡ true → s.shift_id ≡ id) where
  untouched :
      (ss : List ShiftModel)
      → All (λ (t : ShiftModel). t.shift_id ≢ id) ss
      → update_where q f ss ≡ ss
  unfolding update_where
  untouched [] h = refl
  untouched (s ∷ ss) h = elim (Bool-cases (q s)) [
    | inl hit ↦ absurd (h.0 (keyed s hit))
    | inr miss ↦ rw (miss, untouched ss h.1) refl
  ]

  moved_head : (t : ShiftModel) → Moves T t (f t) → Moves T t (if q t then f t else t)
  moved_head t m = elim (Bool-cases (q t)) [
    | inl hit ↦ rw hit m
    | inr miss ↦ rw miss (Moves-refl T rests t)
  ]

  pub AllMove-update :
      (p : ShiftModel → Bool) (ss : List ShiftModel) (s : ShiftModel)
      → Distinct ss
      → first p ss ≡ some s
      → s.shift_id ≡ id
      → Moves T s (f s)
      → AllMove T ss (update_where q f ss)
  unfolding first update_where
  AllMove-update p [] s d e own m = tt
  AllMove-update p (t ∷ ss) s d e own m = elim (Bool-cases (p t)) [
    | inl hit ↦
        let same : t ≡ s = ground (arith, hit, e) in
        let key : t.shift_id ≡ id = ap (λ (x : ShiftModel). x.shift_id) same ∙ own in
        let rest : All (λ (x : ShiftModel). x.shift_id ≢ id) ss = rw⁻¹ key d.0 in
        let moved : Moves T t (f t) = rw same m in
        rw (untouched ss rest) (moved_head t moved, AllMove-refl T rests ss)
    | inr miss ↦
        let found : first p ss ≡ some s = ground (arith, miss, e) in
        let differs = All-first (λ (x : ShiftModel). x.shift_id ≢ t.shift_id) p ss s d.0 found in
        elim (Bool-cases (q t)) [
          | inl hit ↦ absurd (differs (own ∙ sym (keyed t hit)))
          | inr other ↦ rw other (Moves-refl T rests t, AllMove-update p ss s d.1 found own m)
        ]
  ]
