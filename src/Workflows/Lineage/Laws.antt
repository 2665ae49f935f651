-- ===== src/Workflows/Lineage/Laws.antt =====
-- What the check of a lineage in workflows/runner.py guarantees.
use decode.Prelude.{
  ℕ, zero, suc, ◌+◌, ◌≤◌, ◌≡◌, refl, sym, ◌∙◌, subst, String, Bool, true, false, not, ◌&&◌, ◌||◌,
  Option, none, some, List, [], ◌∷◌, mem, eq_iff, arith, if_cases, inl, inr, bind-eq-some, of_some,
}
use decode.Prelude.Text.{texts_eq→eq}
use decode.Values.{Value}
use decode.Workflows.Budget.{CoreBudgetState}
use decode.Workflows.Decisions.{CoreStageDecision}
use decode.Workflows.Selection.{CoreWorkflowSelection}
use decode.Workflows.Equality.{scope_eq→eq, limits_eq→eq, mode_eq→eq}
use decode.Workflows.Lineage.{
  Entry, absent, refused, held, CoreReplanOrigin, CoreReplanTransition, MissionRecord, inherits,
  one_sided, lineage_changed, authority_changed, follows, admitted, parent_of, walk,
  validate_core_lineage,
}

-- The budget that goes on has the limits of the one before, and has spent no less.
abbrev pub IsInherited : Entry CoreBudgetState → Entry CoreBudgetState → Type 0
IsInherited (held a) (held b) =
    (b.limits ≡ a.limits)
    × (a.stage_dispatches ≤ b.stage_dispatches)
    × (a.reserved_steps ≤ b.reserved_steps)
IsInherited absent absent = Unit
IsInherited refused refused = Unit
IsInherited _ _ = ⊥

-- What a mission keeps of one that it replaces.
abbrev pub Keeps : MissionRecord → MissionRecord → Type 0
Keeps parent state =
    (state.objective ≡ parent.objective)
    × (state.mode ≡ parent.mode)
    × (state.scope ≡ parent.scope)
    × (state.constraints ≡ parent.constraints)
    × IsInherited parent.budget state.budget

IsInherited-refl : (b : Entry CoreBudgetState) → IsInherited b b
IsInherited-refl absent = tt
IsInherited-refl refused = tt
IsInherited-refl (held b) = (refl, omega arith, omega arith)

IsInherited-trans :
    (a b c : Entry CoreBudgetState) → IsInherited a b → IsInherited b c → IsInherited a c
IsInherited-trans absent absent absent p q = tt
IsInherited-trans refused refused refused p q = tt
IsInherited-trans (held a) (held b) (held c) (l, m, n) (u, v, w) =
    (u ∙ l, omega (arith, m, v), omega (arith, n, w))
IsInherited-trans (held a) (held b) absent p q = absurd q
IsInherited-trans (held a) (held b) refused p q = absurd q
IsInherited-trans (held a) absent c p q = absurd p
IsInherited-trans (held a) refused c p q = absurd p
IsInherited-trans absent absent refused p q = absurd q
IsInherited-trans absent absent (held c) p q = absurd q
IsInherited-trans absent refused c p q = absurd p
IsInherited-trans absent (held b) c p q = absurd p
IsInherited-trans refused refused absent p q = absurd q
IsInherited-trans refused refused (held c) p q = absurd q
IsInherited-trans refused absent c p q = absurd p
IsInherited-trans refused (held b) c p q = absurd p

Keeps-refl : (s : MissionRecord) → Keeps s s
Keeps-refl s = (refl, refl, refl, refl, IsInherited-refl s.budget)

Keeps-trans : (r s t : MissionRecord) → Keeps r s → Keeps s t → Keeps r t
Keeps-trans r s t (a, b, c, d, e) (f, g, h, i, j) =
    (f ∙ a, g ∙ b, h ∙ c, i ∙ d, IsInherited-trans r.budget s.budget t.budget e j)

inherits-IsInherited :
    (a b : Entry CoreBudgetState) → one_sided a b ≡ false → inherits a b ≡ true → IsInherited a b
unfolding inherits
inherits-IsInherited absent absent o h = tt
inherits-IsInherited absent refused o h = cc
inherits-IsInherited absent (held b) o h = cc
inherits-IsInherited refused absent o h = cc
inherits-IsInherited refused refused o h = tt
inherits-IsInherited refused (held b) o h = cc
inherits-IsInherited (held a) absent o h = cc
inherits-IsInherited (held a) refused o h = cc
inherits-IsInherited (held a) (held b) o h =
    (limits_eq→eq b.limits a.limits (ground arith), ground arith, ground arith)

unchanged-Keeps :
    (state parent : MissionRecord)
    → authority_changed state parent ≡ false
    → inherits parent.budget state.budget ≡ true
    → Keeps parent state
unfolding authority_changed
unchanged-Keeps state parent h i = (
  (eq_iff state.objective parent.objective).0 (ground arith),
  mode_eq→eq state.mode parent.mode (ground arith),
  scope_eq→eq state.scope parent.scope (ground arith),
  texts_eq→eq state.constraints parent.constraints (ground arith),
  inherits-IsInherited parent.budget state.budget (ground arith) i,
)

parts : (a b c : Bool) → (not (a || b) && c) ≡ true → (b ≡ false) × (c ≡ true)
parts a b c h = ground arith

-- no id is in the list or comes a second time
abbrev pub AreFresh : List String → List String → Type 0
AreFresh seen [] = Unit
AreFresh seen (i ∷ ids) = (mem i seen ≡ false) × AreFresh (i ∷ seen) ids

module _ (fingerprint : CoreStageDecision → String) (dump : CoreWorkflowSelection → Value)
    (load : String → Option MissionRecord) where
  -- A number of replacements, with the missions that they replaced, up to a first mission.
  pub data Replacements : MissionRecord → ℕ → List String → MissionRecord → Type 0 where
    here : {root : MissionRecord} → root.origin ≡ absent → Replacements root 0 [] root
    above :
        {state parent root : MissionRecord} {n : ℕ} {ids : List String} (origin : CoreReplanOrigin)
        → state.origin ≡ held origin
        → load origin.parent_session_id ≡ some parent
        → follows fingerprint dump load state origin parent parent.transition parent.stop ≡ true
        → Replacements parent n ids root
        → Replacements state (n + 1) (origin.parent_session_id ∷ ids) root

  follows-Keeps :
      (state parent : MissionRecord) (origin : CoreReplanOrigin) (t : Option CoreReplanTransition)
      (u : Option CoreStageDecision)
      → follows fingerprint dump load state origin parent t u ≡ true
      → Keeps parent state
  unfolding follows
  follows-Keeps state parent origin none u h = cc
  follows-Keeps state parent origin (some t) none h = cc
  follows-Keeps state parent origin (some t) (some u) h =
      let (unchanged, inherited) =
        parts (lineage_changed fingerprint dump load state origin parent t u)
          (authority_changed state parent) (inherits parent.budget state.budget) h in
      unchanged-Keeps state parent unchanged inherited

  -- what the loop gives from a state on
  abbrev Ends : MissionRecord → ℕ → List String → ℕ → ℕ → Type 0
  Ends state room visited depth n =
      (root : MissionRecord) × (ids : List String) × (m : ℕ) × (n ≡ depth + m)
      × (m ≤ room)
      × Replacements state m ids root
      × AreFresh visited ids
      × Keeps root state

  admitted_lem :
      (state parent : MissionRecord) (origin : CoreReplanOrigin) (o : Option MissionRecord)
      → admitted fingerprint dump load state origin o ≡ some parent
      → (o ≡ some parent)
        × (follows fingerprint dump load state origin parent parent.transition parent.stop ≡ true)
  admitted_lem state parent origin none e = cc
  admitted_lem state parent origin (some p) e = elim (if_cases _ (some p) none (some parent) e) [
    | inl (ok, same) ↦ (same, rw (← of_some same) ok)
    | inr (bad, clash) ↦ absurd (cc clash)
  ]

  parent_of_lem :
      (visited : List String) (state parent : MissionRecord) (origin : CoreReplanOrigin)
      → parent_of fingerprint dump load visited state origin ≡ some parent
      → (mem origin.parent_session_id visited ≡ false)
        × (load origin.parent_session_id ≡ some parent)
        × (follows fingerprint dump load state origin parent parent.transition parent.stop ≡ true)
  unfolding parent_of
  parent_of_lem visited state parent origin e =
      elim (if_cases _ none (admitted fingerprint dump load state origin _) (some parent) e) [
        | inl (seen, clash) ↦ absurd (cc clash)
        | inr (fresh, f) ↦
            let (loaded, ok) = admitted_lem state parent origin _ f in (fresh, loaded, ok)
      ]

  walk_lem :
      (room : ℕ) (visited : List String) (depth : ℕ) (state : MissionRecord)
      (o : Entry CoreReplanOrigin) (n : ℕ)
      → state.origin ≡ o
      → walk fingerprint dump load room visited depth state o ≡ some n
      → Ends state room visited depth n
  unfolding walk
  walk_lem room visited depth state absent n at_ e =
      (state, [], 0, omega (arith, of_some e), omega arith, here at_, tt, Keeps-refl state)
  walk_lem room visited depth state refused n at_ e = cc
  walk_lem zero visited depth state (held origin) n at_ e = cc
  walk_lem (suc room) visited depth state (held origin) n at_ e =
      let (parent, f, g) =
        bind-eq-some
          (λ (p : MissionRecord).
            walk fingerprint dump load room (origin.parent_session_id ∷ visited) (depth + 1) p
              p.origin)
          (parent_of fingerprint dump load visited state origin) n e in
      let (fresh, loaded, ok) = parent_of_lem visited state parent origin f in
      let (root, ids, m, sum, within, chain, distinct, kept) =
        walk_lem room (origin.parent_session_id ∷ visited) (depth + 1) parent parent.origin n refl
          g in
      (
        root,
        origin.parent_session_id ∷ ids,
        m + 1,
        omega (arith, sum),
        omega (arith, within),
        above origin at_ loaded ok chain,
        (fresh, distinct),
        Keeps-trans root parent state kept
            (follows-Keeps state parent origin parent.transition parent.stop ok),
      )

  -- A mission whose lineage is admitted goes back, by that many replacements and at most 32, to a mission that
  -- replaced none. Each replacement was checked against the stored parent, no mission comes twice, and the mission
  -- has the objective, mode, scope, constraints and budget limits of the first one and has spent no less of its
  -- budget.
  pub validate_core_lineage-IsRooted :
      (state : MissionRecord) (n : ℕ)
      → validate_core_lineage fingerprint dump load state ≡ some n
      → (root : MissionRecord) × (ids : List String) × (n ≤ 32)
        × Replacements state n ids root
        × AreFresh (state.session_id ∷ []) ids
        × Keeps root state
  unfolding validate_core_lineage
  validate_core_lineage-IsRooted state n e =
      let (root, ids, m, sum, within, chain, distinct, kept) =
        walk_lem 32 (state.session_id ∷ []) 0 state state.origin n refl e in
      let same : n ≡ m = omega (arith, sum) in
      (
        root,
        ids,
        omega (arith, sum, within),
        subst (λ k. Replacements state k ids root) (sym same) chain,
        distinct,
        kept,
      )
