-- ===== src/Workflows/Budget.antt =====
-- workflows/models.py: `CoreMissionBudget` and `CoreBudgetState`. Where a validator raises there is no state.
use decode.Prelude.{
  ℕ, ◌+◌, ◌*◌, ◌≤◌, ◌≡◌, ◌↔◌, refl, ◌∙◌, String, Bool, true, false, not, ◌&&◌, ◌||◌, Option, none,
  some, is_empty, leb, ltb, ◌==◌, arith, if◌then◌else◌, Bool-cases, inl, inr, sym, of_some,
  bind-eq-some,
}
use decode.Values.{ℤ, pos, negsuc}

pub record CoreMissionBudget : Type 0 where
  pub max_stage_dispatches : ℕ
  pub max_reserved_steps : ℕ

pub record CoreBudgetState : Type 0 where
  pub limits : CoreMissionBudget
  pub stage_dispatches : ℕ
  pub reserved_steps : ℕ

abbrev bool_differs : Bool → Bool → Bool
bool_differs a b = if a then not b else b

-- the bounds of the fields, which are whole numbers from 0 on
unfoldable pub fields_bounded : CoreBudgetState → Bool
fields_bounded s =
    leb s.limits.max_stage_dispatches 1024
    && leb s.limits.max_reserved_steps 32768
    && leb s.stage_dispatches 1024
    && leb s.reserved_steps 32768

unfoldable pub usage_within_limits : CoreBudgetState → Bool
usage_within_limits s = not (
    ltb s.limits.max_stage_dispatches s.stage_dispatches
    || ltb s.limits.max_reserved_steps s.reserved_steps
    || bool_differs (s.stage_dispatches == 0) (s.reserved_steps == 0)
    || ltb s.reserved_steps s.stage_dispatches
    || ltb (s.stage_dispatches * 32) s.reserved_steps)

-- the state that the class makes of its fields
unfoldable pub validated : CoreBudgetState → Option CoreBudgetState
unfolding fields_bounded usage_within_limits
validated s = if fields_bounded s && usage_within_limits s then some s else none

-- none: a number of steps that no stage has raises `ValueError`
unfoldable pub stop_reason : CoreBudgetState → ℤ → Option String
stop_reason s (negsuc n) = none
stop_reason s (pos steps) =
    if not (leb 1 steps && leb steps 32)
    then none
    else if leb s.limits.max_stage_dispatches s.stage_dispatches
    then some "mission stage-dispatch budget exhausted"
    else if ltb s.limits.max_reserved_steps (s.reserved_steps + steps)
    then some "mission step-reservation budget cannot cover the next stage"
    else some ""

abbrev spent : CoreBudgetState → ℕ → CoreBudgetState
spent s steps = record {
  limits = s.limits;
  stage_dispatches = s.stage_dispatches + 1;
  reserved_steps = s.reserved_steps + steps;
}

abbrev reserve_after : CoreBudgetState → ℕ → String → Option CoreBudgetState
reserve_after s steps reason = if not (is_empty reason) then none else validated (spent s steps)

unfoldable pub reserve : CoreBudgetState → ℤ → Option CoreBudgetState
unfolding stop_reason validated
reserve s (negsuc n) = none
reserve s (pos steps) = elim (stop_reason s (pos steps)) [
  | none ↦ none
  | some reason ↦ reserve_after s steps reason
]

-- The state is one that the class admits.
abbrev pub IsWithin : CoreBudgetState → Type 0
IsWithin s =
    (s.limits.max_stage_dispatches ≤ 1024)
    × (s.limits.max_reserved_steps ≤ 32768)
    × (s.stage_dispatches ≤ s.limits.max_stage_dispatches)
    × (s.reserved_steps ≤ s.limits.max_reserved_steps)
    × (s.stage_dispatches ≤ s.reserved_steps)
    × (s.reserved_steps ≤ s.stage_dispatches * 32)

pub validated-IsWithin : (s t : CoreBudgetState) → validated s ≡ some t → (t ≡ s) × IsWithin s
unfolding validated fields_bounded usage_within_limits
validated-IsWithin s t e = elim (Bool-cases (fields_bounded s && usage_within_limits s)) [
  | inl ok ↦ (
    sym (of_some (rw (validated, ok) at e)),
    (ground arith, ground arith, ground arith, ground arith, ground arith, ground arith),
  )
  | inr bad ↦ absurd (cc (rw (validated, bad) at e))
]

-- On a state within its limits and a stage of 1 to 32 steps a reservation succeeds exactly where no stop
-- reason is given.
pub reserve-stop_reason :
    (s : CoreBudgetState) (steps : ℕ)
    → IsWithin s
    → 1 ≤ steps
    → steps ≤ 32
    → (stop_reason s (pos steps) ≡ some "") ↔ (reserve s (pos steps) ≡ some (spent s steps))
unfolding reserve stop_reason validated fields_bounded usage_within_limits
reserve-stop_reason s steps w l u =
    elim (Bool-cases (leb s.limits.max_stage_dispatches s.stage_dispatches)) [
      | inl a ↦
          let stopped = spent_dispatches a in
          (λ e. cc (rw stopped at e), λ e. cc (rw (reserve, stopped) at e))
      | inr a ↦ elim (Bool-cases (ltb s.limits.max_reserved_steps (s.reserved_steps + steps))) [
        | inl b ↦
            let stopped = spent_steps a b in
            (λ e. cc (rw stopped at e), λ e. cc (rw (reserve, stopped) at e))
        | inr b ↦
            let open_ = unspent a b in
            (λ e. rw (reserve, open_, validated, admitted a b) refl, λ e. open_)
      ]
    ]
  where
    bounded : (leb 1 steps && leb steps 32) ≡ true
    bounded = ground arith

    spent_dispatches :
        leb s.limits.max_stage_dispatches s.stage_dispatches ≡ true
        → stop_reason s (pos steps) ≡ some "mission stage-dispatch budget exhausted"
    spent_dispatches a = rw (stop_reason, bounded, a) refl

    spent_steps :
        leb s.limits.max_stage_dispatches s.stage_dispatches ≡ false
        → ltb s.limits.max_reserved_steps (s.reserved_steps + steps) ≡ true
        → stop_reason s (pos steps)
          ≡ some "mission step-reservation budget cannot cover the next stage"
    spent_steps a b = rw (stop_reason, bounded, a, b) refl

    unspent :
        leb s.limits.max_stage_dispatches s.stage_dispatches ≡ false
        → ltb s.limits.max_reserved_steps (s.reserved_steps + steps) ≡ false
        → stop_reason s (pos steps) ≡ some ""
    unspent a b = rw (stop_reason, bounded, a, b) refl

    admitted :
        leb s.limits.max_stage_dispatches s.stage_dispatches ≡ false
        → ltb s.limits.max_reserved_steps (s.reserved_steps + steps) ≡ false
        → (fields_bounded (spent s steps) && usage_within_limits (spent s steps)) ≡ true
    admitted a b = ground arith

-- A number of successive reservations, each for a stage.
pub data Reservations (s : CoreBudgetState) : ℕ → CoreBudgetState → Type 0 where
  here : Reservations s 0 s
  then_ :
      {n : ℕ} {t u : CoreBudgetState} (steps : ℤ)
      → Reservations s n t
      → reserve t steps ≡ some u
      → Reservations s (n + 1) u

reserve_lem :
    (s t : CoreBudgetState) (steps : ℤ)
    → reserve s steps ≡ some t
    → IsWithin t × (t.limits ≡ s.limits) × (t.stage_dispatches ≡ s.stage_dispatches + 1)
unfolding reserve
reserve_lem s t (negsuc n) e = cc
reserve_lem s t (pos steps) e =
    let (reason, _, f) = bind-eq-some (reserve_after s steps) (stop_reason s (pos steps)) t e in
    elim (Bool-cases (is_empty reason)) [
      | inr full ↦ absurd (cc (rw (reserve_after, full) at f))
      | inl empty ↦
          let (same, within) =
            validated-IsWithin (spent s steps) t (rw (reserve_after, empty) at f) in
          rw same (within, refl, refl)
    ]

-- However many reservations succeed, one after another, the budget stays within its limits, which stay as
-- they are, and each reservation counts one dispatch: there are at most `max_stage_dispatches`.
pub Reservations-IsWithin :
    (s t : CoreBudgetState) (n : ℕ)
    → IsWithin s
    → Reservations s n t
    → IsWithin t
      × (t.limits ≡ s.limits)
      × (t.stage_dispatches ≡ s.stage_dispatches + n)
      × (n ≤ s.limits.max_stage_dispatches)
Reservations-IsWithin s t _ w here = (w, refl, omega arith, omega arith)
Reservations-IsWithin s t _ w (then_ {n = n} {t = m} steps before e) =
    let (wm, lm, dm, _) = Reservations-IsWithin s m n w before in
    let (wt, lt, dt) = reserve_lem m t steps e in
    let counted : t.stage_dispatches ≡ s.stage_dispatches + (n + 1) = omega (arith, dm, dt) in
    let limits : t.limits ≡ s.limits = lt ∙ lm in
    (wt, limits, counted, rw (← limits) (omega (arith, wt.2, counted)))
