-- ===== src/Schema/TaskState/Laws.antt =====
-- What the methods of schema/task_state.py keep true of a task's state.
use decode.Prelude.{
  ℕ, ◌+◌, ◌≡◌, refl, String, true, false, List, [], ◌∷◌, ◌++◌, length, mem, mem-append,
  remove_first, is_empty, All, All-append, Exists, Exists-snoc, ◌⊎◌, inl, inr, Bool-cases, arith,
  eq_iff, str_eq,
}
use decode.Values.{Fields}
use decode.Schema.TaskState.{
  TaskState, TaskStatus, ActionRecord, Observation, Artifact, Hypothesis, Finding, Report, touch,
  record_action, add_artifact, observed, linked, record_observation, add_hypothesis, add_finding,
  add_question, resolve_question, mark,
}

-- One call of a method of `TaskState`.
pub data Step (s : TaskState) : TaskState → Type 0 where
  acted :
      (tool : String) (params : Fields) (thought : String)
      → Step s (record_action tool params thought s)
  saw : (tool : String) (report : Report) → Step s (record_observation tool report s)
  kept : (a : Artifact) → Step s (add_artifact a s)
  supposed : (h : Hypothesis) → Step s (add_hypothesis h s)
  found : (f : Finding) → Step s (add_finding f s)
  asked : (q : String) → Step s (add_question q s)
  resolved : (q : String) → Step s (resolve_question q s)
  marked : (status : TaskStatus) → Step s (mark status s)

pub data Steps (s : TaskState) : TaskState → Type 0 where
  here : Steps s s
  then_ : {t u : TaskState} → Steps s t → Step t u → Steps s u

-- The numbers count up from `n`.
abbrev pub Counts : ℕ → List ℕ → Type 0
Counts n [] = Unit
Counts n (x ∷ xs) = (x ≡ n) × Counts (n + 1) xs

abbrev pub action_steps : List ActionRecord → List ℕ
action_steps [] = []
action_steps (a ∷ rs) = a.step ∷ action_steps rs

abbrev pub observation_steps : List Observation → List ℕ
observation_steps [] = []
observation_steps (o ∷ os) = o.step ∷ observation_steps os

-- The observation has no evidence, or an artifact holds its evidence and its step.
abbrev pub IsLinked : List Artifact → Observation → Type 0
IsLinked artifacts o =
    (is_empty o.evidence_ref ≡ true)
    ⊎ Exists
        (λ (a : Artifact).
          (a.evidence_id ≡ o.evidence_ref)
          × (a.evidence_hash ≡ o.evidence_hash)
          × (a.related_step ≡ o.step))
        artifacts

abbrev pub Distinct : List String → Type 0
Distinct [] = Unit
Distinct (q ∷ qs) = (mem q qs ≡ false) × (is_empty q ≡ false) × Distinct qs

-- Actions and observations are numbered from 1 in their order, the evidence of each observation is held by
-- an artifact, and the open questions are nonempty and distinct.
pub record IsSound (s : TaskState) : Type 0 where
  pub actions_count : Counts 1 (action_steps s.actions)
  pub observations_count : Counts 1 (observation_steps s.observations)
  pub linked_all : All (IsLinked s.artifacts) s.observations
  pub questions_distinct : Distinct s.unresolved_questions

Counts-actions :
    (n : ℕ) (rs : List ActionRecord) (a : ActionRecord)
    → Counts n (action_steps rs)
    → a.step ≡ length rs + n
    → Counts n (action_steps (rs ++ a ∷ []))
Counts-actions n [] a h e = (omega arith, tt)
Counts-actions n (b ∷ rs) a h e = (h.0, Counts-actions (n + 1) rs a h.1 (omega arith))

Counts-observations :
    (n : ℕ) (os : List Observation) (o : Observation)
    → Counts n (observation_steps os)
    → o.step ≡ length os + n
    → Counts n (observation_steps (os ++ o ∷ []))
Counts-observations n [] o h e = (omega arith, tt)
Counts-observations n (p ∷ os) o h e = (h.0, Counts-observations (n + 1) os o h.1 (omega arith))

Exists-append : {A : Type 0} (P : A → Type 0) (xs ys : List A) → Exists P xs → Exists P (xs ++ ys)
Exists-append P [] ys h = absurd h
Exists-append P (x ∷ xs) ys (inl p) = inl p
Exists-append P (x ∷ xs) ys (inr p) = inr (Exists-append P xs ys p)

IsLinked-append : (xs ys : List Artifact) (o : Observation) → IsLinked xs o → IsLinked (xs ++ ys) o
IsLinked-append xs ys o (inl e) = inl e
IsLinked-append xs ys o (inr p) = inr (Exists-append _ xs ys p)

All-IsLinked :
    (xs ys : List Artifact) (os : List Observation)
    → All (IsLinked xs) os
    → All (IsLinked (xs ++ ys)) os
All-IsLinked xs ys [] h = tt
All-IsLinked xs ys (o ∷ os) h = (IsLinked-append xs ys o h.0, All-IsLinked xs ys os h.1)

mem-remove_first :
    (q p : String) (qs : List String) → mem q qs ≡ false → mem q (remove_first p qs) ≡ false
mem-remove_first q p [] h = refl
mem-remove_first q p (r ∷ qs) h = ground (arith, mem-remove_first q p qs)

Distinct-remove_first : (p : String) (qs : List String) → Distinct qs → Distinct (remove_first p qs)
Distinct-remove_first p [] h = tt
Distinct-remove_first p (q ∷ qs) h = elim (Bool-cases (str_eq p q)) [
  | inl e ↦ rw (remove_first, e) h.2
  | inr e ↦ rw (remove_first, e) (mem-remove_first q p qs h.0, h.1, Distinct-remove_first p qs h.2)
]

Distinct-snoc :
    (q : String) (qs : List String)
    → mem q qs ≡ false
    → is_empty q ≡ false
    → Distinct qs
    → Distinct (qs ++ q ∷ [])
Distinct-snoc q [] new full h = (refl, full, tt)
Distinct-snoc q (r ∷ qs) new full h = (
  ground (arith, mem-append r qs (q ∷ []), eq_iff r q, eq_iff q r),
  h.1,
  Distinct-snoc q qs (ground arith) full h.2,
)

-- The observation is added, and its evidence kept.
IsSound-observe :
    (tool : String) (report : Report) (s : TaskState)
    → IsSound s
    → IsSound (record_observation tool report s)
unfolding record_observation touch add_artifact
IsSound-observe tool report s h =
    let o = observed (length s.observations + 1) tool report in
    elim (Bool-cases (is_empty o.evidence_ref)) [
      | inl e ↦ rw e (record {
        actions_count = h.actions_count;
        observations_count = Counts-observations 1 s.observations o h.observations_count refl;
        linked_all =
            All-append (IsLinked s.artifacts) s.observations (o ∷ []) h.linked_all (inl e, tt);
        questions_distinct = h.questions_distinct;
      })
      | inr e ↦ rw e (record {
        actions_count = h.actions_count;
        observations_count = Counts-observations 1 s.observations o h.observations_count refl;
        linked_all =
            All-append (IsLinked (s.artifacts ++ linked o ∷ [])) s.observations (o ∷ [])
              (All-IsLinked s.artifacts (linked o ∷ []) s.observations h.linked_all)
              (inr (Exists-snoc _ s.artifacts (linked o) (refl, refl, refl)), tt);
        questions_distinct = h.questions_distinct;
      })
    ]

IsSound-ask : (q : String) (s : TaskState) → IsSound s → IsSound (add_question q s)
unfolding add_question touch
IsSound-ask q s h = elim (Bool-cases (is_empty q)) [
  | inl e ↦ rw e h
  | inr full ↦ elim (Bool-cases (mem q s.unresolved_questions)) [
    | inl e ↦ rw (full, e) h
    | inr new ↦
        rw (full, new)
          (record {
            actions_count = h.actions_count;
            observations_count = h.observations_count;
            linked_all = h.linked_all;
            questions_distinct =
                Distinct-snoc q s.unresolved_questions new full h.questions_distinct;
          })
  ]
]

IsSound-resolve : (q : String) (s : TaskState) → IsSound s → IsSound (resolve_question q s)
unfolding resolve_question touch
IsSound-resolve q s h = elim (Bool-cases (mem q s.unresolved_questions)) [
  | inr e ↦ rw e h
  | inl e ↦ rw e (record {
    actions_count = h.actions_count;
    observations_count = h.observations_count;
    linked_all = h.linked_all;
    questions_distinct = Distinct-remove_first q s.unresolved_questions h.questions_distinct;
  })
]

copy :
    {s t : TaskState}
    → IsSound s
    → t.actions ≡ s.actions
    → t.observations ≡ s.observations
    → t.artifacts ≡ s.artifacts
    → t.unresolved_questions ≡ s.unresolved_questions
    → IsSound t
copy {s} {t} h a o r q = record {
  actions_count = rw a h.actions_count;
  observations_count = rw o h.observations_count;
  linked_all = rw (r, o) h.linked_all;
  questions_distinct = rw q h.questions_distinct;
}

-- Each method keeps the state sound: actions and observations stay numbered, the evidence of each
-- observation stays held by an artifact, and the open questions stay nonempty and distinct.
pub Step-IsSound : (s t : TaskState) → Step s t → IsSound s → IsSound t
unfolding record_action add_artifact add_hypothesis add_finding mark touch
Step-IsSound s t (acted tool params thought) h = record {
  actions_count =
      Counts-actions 1 s.actions
        (record { step = length s.actions + 1; tool = tool; params = params; thought = thought })
        h.actions_count refl;
  observations_count = h.observations_count;
  linked_all = h.linked_all;
  questions_distinct = h.questions_distinct;
}
Step-IsSound s t (saw tool report) h = IsSound-observe tool report s h
Step-IsSound s t (kept a) h = record {
  actions_count = h.actions_count;
  observations_count = h.observations_count;
  linked_all = All-IsLinked s.artifacts (a ∷ []) s.observations h.linked_all;
  questions_distinct = h.questions_distinct;
}
Step-IsSound s t (supposed x) h = copy h refl refl refl refl
Step-IsSound s t (found x) h = copy h refl refl refl refl
Step-IsSound s t (marked x) h = copy h refl refl refl refl
Step-IsSound s t (asked q) h = IsSound-ask q s h
Step-IsSound s t (resolved q) h = IsSound-resolve q s h

-- Whatever methods are called on a sound state, in whatever order, the state stays sound.
pub Steps-IsSound : (s t : TaskState) → Steps s t → IsSound s → IsSound t
Steps-IsSound s t here h = h
Steps-IsSound s t (then_ {t = m} before step) h = Step-IsSound m t step (Steps-IsSound s m before h)
