-- ===== src/Runtime/AgentLoop/Round.antt =====
-- What one round of the loop of runtime/agent_loop.py does to its state.
use decode.Prelude.{
  ℕ, ◌+◌, ◌≤◌, ◌<◌, ◌≡◌, refl, sym, ap, of_some, if_ind, ◌∙◌, String, true, not, ◌&&◌, Option, none,
  some, List, [], ◌∷◌, ◌++◌, length, length-append, get_last?, get_last?-snoc, mem, is_empty, ltb,
  ltb→lt, ◌⊎◌, inl, inr, Bool-cases, arith,
}
use decode.Values.{Value, Fields}
use decode.Values.Equality.{get_field}
use decode.Values.Truth.{or_empty}
use decode.Schema.TaskState.{
  TaskState, investigating, blocked, complete, Report, record_action, record_observation, mark,
}
use decode.Schema.TaskState.Laws.{Step, Steps, here, then_, acted, saw, marked}
use decode.Verification.Verifier.{VerificationResult}
use decode.Runtime.AgentLoop.{
  ToolUseLoop, Surroundings, Decision, LoopState, LoopResult, StepRecord, final,
  verification_failed, action_failed, Turn, go, returns, raises, tool_names, save_checkpoint,
  update, reject, accept, finish, report_of, validation_error, observe, settle, call_tool, turn,
  save_of, update_of, after_verdict, check_completion, CompletionVerifier, settle_report, step_of,
  turn_of, succeeded, mapping_of, recorded, recorded_as,
}

-- The task state changes by its methods alone.
pub data Moves : Option TaskState → Option TaskState → Type 0 where
  absent : Moves none none
  moved : {t u : TaskState} → Steps t u → Moves (some t) (some u)

Steps-append : {s t u : TaskState} → Steps s t → Steps t u → Steps s u
Steps-append a here = a
Steps-append a (then_ b step) = then_ (Steps-append a b) step

pub Moves-trans : {a b c : Option TaskState} → Moves a b → Moves b c → Moves a c
Moves-trans absent m = m
Moves-trans (moved p) (moved q) = moved (Steps-append p q)

pub Moves-refl : (o : Option TaskState) → Moves o o
Moves-refl none = absent
Moves-refl (some t) = moved here

-- The tool is offered, and its parameters pass.
abbrev pub IsAdmitted : ToolUseLoop → String × Value → Type 0
IsAdmitted loop call =
    (mem call.0 (tool_names loop.tools) ≡ true)
    × (is_empty (validation_error loop call.0 call.1) ≡ true)

-- At most one call is made, and that is admitted.
pub data Calls (loop : ToolUseLoop) (cs : List (String × Value))
    : List (String × Value) → Type 0 where
  same : Calls loop cs cs
  one : (call : String × Value) → IsAdmitted loop call → Calls loop cs (cs ++ call ∷ [])

-- the observation of the last step
abbrev pub observed_last : List StepRecord → Option Fields
observed_last steps = elim (get_last? steps) [ none ↦ none | some step ↦ some step.observation ]

-- The observation that the loop shows to the verifier is that of its last step.
abbrev pub IsCurrent : LoopState → Type 0
IsCurrent s = s.last_observation ≡ observed_last s.steps

-- The steps and replans have grown by so many.
pub record Change (loop : ToolUseLoop) (k j : ℕ) (s s' : LoopState) : Type 0 where
  pub steps_grow : length s'.steps ≡ length s.steps + k
  pub replans_grow : s'.replans ≡ s.replans + j
  pub calls : Calls loop s.calls s'.calls
  pub task : Moves s.task s'.task
  pub current : IsCurrent s → IsCurrent s'

-- Only the task and the checkpoints may have changed.
pub record Quiet (s s' : LoopState) : Type 0 where
  pub steps_same : s'.steps ≡ s.steps
  pub replans_same : s'.replans ≡ s.replans
  pub calls_same : s'.calls ≡ s.calls
  pub last_same : s'.last_observation ≡ s.last_observation
  pub task_moves : Moves s.task s'.task

-- How a loop comes to accept the completion of its task.
pub data Accepted (around : Surroundings) (n : ℕ) (s s' : LoopState) : Type 0 where
  no_task : s.task ≡ none → Accepted around n s s'
  no_verifier : around.verifier ≡ none → Accepted around n s s'
  verified :
      (t : TaskState) (verify : CompletionVerifier) (verdict : VerificationResult)
      → s.task ≡ some t
      → around.verifier ≡ some verify
      → verify n t s'.last_observation ≡ some verdict
      → verdict.valid ≡ true
      → s'.task ≡ some (mark complete t)
      → Accepted around n s s'

pub data Round (loop : ToolUseLoop) (around : Surroundings) (n : ℕ) (s : LoopState)
    : Turn → Type 0 where
  raised : (s' : LoopState) → Change loop 0 0 s s' → Round loop around n s (raises s')
  replanned :
      (s' : LoopState)
      → s.replans < loop.max_replans
      → Change loop 0 1 s s'
      → Round loop around n s (go s')
  went : (s' : LoopState) → Change loop 1 0 s s' → Round loop around n s (go s')
  gave_up :
      (r : LoopResult) (s' : LoopState) (k : ℕ)
      → k ≤ 1
      → Change loop k 0 s s'
      → (r.stopped ≡ verification_failed) ⊎ (r.stopped ≡ action_failed)
      → Round loop around n s (returns r s')
  done :
      (r : LoopResult) (s' : LoopState)
      → Change loop 0 0 s s'
      → r.stopped ≡ final
      → Accepted around n s s'
      → Round loop around n s (returns r s')

Quiet-trans : {a b c : LoopState} → Quiet a b → Quiet b c → Quiet a c
Quiet-trans p q = record {
  steps_same = q.steps_same ∙ p.steps_same;
  replans_same = q.replans_same ∙ p.replans_same;
  calls_same = q.calls_same ∙ p.calls_same;
  last_same = q.last_same ∙ p.last_same;
  task_moves = Moves-trans p.task_moves q.task_moves;
}

pub Quiet-refl : (s : LoopState) → Quiet s s
Quiet-refl s = record {
  steps_same = refl;
  replans_same = refl;
  calls_same = refl;
  last_same = refl;
  task_moves = Moves-refl s.task;
}

Quiet-save_of :
    (loop : ToolUseLoop) (s : LoopState) (o : Option TaskState) → Quiet s (save_of loop s o)
Quiet-save_of loop s none = Quiet-refl s
Quiet-save_of loop s (some t) =
    if_ind (Quiet s) loop.saves _ _
      (λ _. record {
        steps_same = refl;
        replans_same = refl;
        calls_same = refl;
        last_same = refl;
        task_moves = Moves-refl s.task;
      })
      (λ _. Quiet-refl s)

pub Quiet-save : (loop : ToolUseLoop) (s : LoopState) → Quiet s (save_checkpoint loop s)
unfolding save_checkpoint
Quiet-save loop s = Quiet-save_of loop s s.task

Quiet-update_of :
    (f : TaskState → TaskState) (s : LoopState)
    → ((t : TaskState) → Step t (f t))
    → (o : Option TaskState) → s.task ≡ o
    → Quiet s (update_of f s o)
Quiet-update_of f s step none e = Quiet-refl s
Quiet-update_of f s step (some t) e = record {
  steps_same = refl;
  replans_same = refl;
  calls_same = refl;
  last_same = refl;
  task_moves = rw e (moved (then_ here (step t)));
}

Quiet-update :
    (f : TaskState → TaskState) (s : LoopState)
    → ((t : TaskState) → Step t (f t))
    → Quiet s (update f s)
unfolding update
Quiet-update f s step = Quiet-update_of f s step s.task refl

-- A call of a method with the checkpoint behind it.
pub Quiet-both :
    (loop : ToolUseLoop) (f : TaskState → TaskState) (s : LoopState)
    → ((t : TaskState) → Step t (f t))
    → Quiet s (save_checkpoint loop (update f s))
Quiet-both loop f s step = Quiet-trans (Quiet-update f s step) (Quiet-save loop (update f s))

pub IsCurrent-Quiet : {s s' : LoopState} → Quiet s s' → IsCurrent s → IsCurrent s'
IsCurrent-Quiet q c = q.last_same ∙ c ∙ ap observed_last (sym q.steps_same)

Change-Quiet : {loop : ToolUseLoop} {s s' : LoopState} → Quiet s s' → Change loop 0 0 s s'
Change-Quiet {loop} {s} {s'} q = record {
  steps_grow = rw q.steps_same (omega arith);
  replans_grow = rw q.replans_same (omega arith);
  calls = rw q.calls_same same;
  task = q.task_moves;
  current = IsCurrent-Quiet q;
}

Change-then :
    {loop : ToolUseLoop} {k j : ℕ} {a b c : LoopState}
    → Change loop k j a b
    → Quiet b c
    → Change loop k j a c
Change-then p q = record {
  steps_grow = rw q.steps_same p.steps_grow;
  replans_grow = rw q.replans_same p.replans_grow;
  calls = rw q.calls_same p.calls;
  task = Moves-trans p.task q.task_moves;
  current = λ c. IsCurrent-Quiet q (p.current c);
}

then-Change :
    {loop : ToolUseLoop} {k j : ℕ} {a b c : LoopState}
    → Quiet a b
    → Change loop k j b c
    → Change loop k j a c
then-Change q p = record {
  steps_grow = rw (← q.steps_same) p.steps_grow;
  replans_grow = rw (← q.replans_same) p.replans_grow;
  calls = rw (← q.calls_same) p.calls;
  task = Moves-trans q.task_moves p.task;
  current = λ c. p.current (IsCurrent-Quiet q c);
}

module _ (loop : ToolUseLoop) (around : Surroundings) (n : ℕ) where
  reject-Round :
      (decision : Decision) (verdict : VerificationResult) (s : LoopState)
      → Round loop around n s (reject loop decision verdict s)
  unfolding reject
  reject-Round decision verdict s = elim (Bool-cases (ltb s.replans loop.max_replans)) [
    | inl e ↦
        let s1 : LoopState = record s { replans = s.replans + 1 } in
        let q = Quiet-both loop (mark investigating) s1 (λ t. marked investigating) in
        rw e (
          replanned _ (ltb→lt s.replans loop.max_replans e) (record {
            steps_grow = rw q.steps_same (omega arith);
            replans_grow = rw q.replans_same refl;
            calls = rw q.calls_same same;
            task = q.task_moves;
            current = λ c. IsCurrent-Quiet q c;
          }))
    | inr e ↦ rw e (
        gave_up _ _ 0 (omega arith)
          (Change-Quiet (Quiet-both loop (mark blocked) s (λ t. marked blocked))) (inl refl))
  ]

  accept-Round :
      (decision : Decision) (s : LoopState)
      → Accepted around n s (save_checkpoint loop (update (mark complete) s))
      → Round loop around n s (accept loop decision s)
  unfolding accept
  accept-Round decision s accepted =
      done _ _ (Change-Quiet (Quiet-both loop (mark complete) s (λ t. marked complete))) refl
        accepted

  task-save : (s : LoopState) → (save_checkpoint loop s).task ≡ s.task
  unfolding save_checkpoint
  task-save s = task-save_of s.task
    where
      task-save_of : (o : Option TaskState) → (save_of loop s o).task ≡ s.task
      task-save_of none = refl
      task-save_of (some t) =
          if_ind (λ (x : LoopState). x.task ≡ s.task) loop.saves _ _ (λ _. refl) (λ _. refl)

  task-update :
      (f : TaskState → TaskState) (s : LoopState) (t : TaskState)
      → s.task ≡ some t
      → (update f s).task ≡ some (f t)
  unfolding update
  task-update f s t e = task-update_of s.task e
    where
      task-update_of : (o : Option TaskState) → o ≡ some t → (update_of f s o).task ≡ some (f t)
      task-update_of none d = cc
      task-update_of (some u) d = ap some (ap f (of_some d))

  after_verdict-Round :
      (decision : Decision) (s : LoopState) (t : TaskState) (verify : CompletionVerifier)
      (o : Option VerificationResult)
      → s.task ≡ some t
      → around.verifier ≡ some verify
      → verify n t s.last_observation ≡ o
      → Round loop around n s (after_verdict loop decision s o)
  unfolding after_verdict
  after_verdict-Round decision s t verify none e v x = raised s (Change-Quiet (Quiet-refl s))
  after_verdict-Round decision s t verify (some verdict) e v x =
      if_ind (Round loop around n s) (not verdict.valid) _ _ (λ _. reject-Round decision verdict s)
        (λ ok. accept-Round decision s (
          verified t verify verdict e v
            (ap (verify n t) (Quiet-both loop (mark complete) s (λ t. marked complete)).last_same
              ∙ x)
            (ground arith)
            (task-save (update (mark complete) s) ∙ task-update (mark complete) s t e)))

  check_completion-Round :
      (decision : Decision) (s : LoopState) (o : Option TaskState) (v : Option CompletionVerifier)
      → s.task ≡ o
      → around.verifier ≡ v
      → Round loop around n s (check_completion loop n decision s o v)
  unfolding check_completion
  check_completion-Round decision s none v e d = accept-Round decision s (no_task e)
  check_completion-Round decision s (some t) none e d = accept-Round decision s (no_verifier d)
  check_completion-Round decision s (some t) (some verify) e d =
      after_verdict-Round decision s t verify (verify n t s.last_observation) e d refl

  observe-Change :
      (tool : String) (params : Value) (s : LoopState)
      → Change loop 0 0 s (observe loop around n tool params s).1
  unfolding observe
  observe-Change tool params s =
      if_ind (λ (r : Option Fields × LoopState). Change loop 0 0 s r.1)
        (not (mem tool (tool_names loop.tools))) _ _ (λ _. Change-Quiet (Quiet-refl s))
        (λ known.
          if_ind (λ (r : Option Fields × LoopState). Change loop 0 0 s r.1)
            (not (is_empty (validation_error loop tool params))) _ _
            (λ _. Change-Quiet (Quiet-refl s))
            (λ passes. record {
              steps_grow = omega arith;
              replans_grow = omega arith;
              calls = one (tool, params) (ground arith, ground arith);
              task = Moves-refl s.task;
              current = λ c. c;
            }))

  -- the step behind the recording of its observation
  seen-Change :
      {a b c : LoopState} (observation : Fields) (step : StepRecord)
      → step.observation ≡ observation
      → Change loop 0 0 a b
      → Quiet (record b { last_observation = some observation }) c
      → Change loop 1 0 a (record c { steps = c.steps ++ step ∷ [] })
  seen-Change {a} {b} {c} observation step same_observation h q = record {
    steps_grow = rw q.steps_same (omega (arith, h.steps_grow, length-append b.steps (step ∷ [])));
    replans_grow = rw q.replans_same h.replans_grow;
    calls = rw q.calls_same h.calls;
    task = Moves-trans h.task q.task_moves;
    current = λ _.
        q.last_same
        ∙ ap some (sym same_observation)
        ∙ ap last_of (sym (get_last?-snoc c.steps step));
  }
    where
      last_of : Option StepRecord → Option Fields
      last_of o = elim o [ none ↦ none | some step ↦ some step.observation ]

  recorded-Quiet :
      (tool : String) (observation : Fields) (s s0 : LoopState) (o : Option TaskState)
      → recorded around.str tool observation s o ≡ some s0
      → Quiet s s0
  unfolding recorded
  recorded-Quiet tool observation s s0 none e = rw (← of_some e) (Quiet-refl s)
  recorded-Quiet tool observation s s0 (some t) e = of_report (report_of around.str observation) e
    where
      of_report : (o : Option Report) → recorded_as tool s o ≡ some s0 → Quiet s s0
      of_report none f = cc
      of_report (some report) f =
          rw (← of_some f) (Quiet-update (record_observation tool report) s (λ t. saw tool report))

  settle_report-Round :
      (decision : Decision) (params : Value) (observation : Fields) (s s1 : LoopState)
      (o : Option LoopState)
      → Change loop 0 0 s s1
      → ((s0 : LoopState)
          → o ≡ some s0
          → Quiet (record s1 { last_observation = some observation }) s0)
      → Round loop around n s (settle_report loop decision params observation s1 o)
  unfolding settle_report
  settle_report-Round decision params observation s s1 none c kept = raised s1 c
  settle_report-Round decision params observation s s1 (some s0) c kept =
      let step = step_of decision params observation in
      let d =
        seen-Change observation step refl c (Quiet-trans (kept s0 refl) (Quiet-save loop s0)) in
      if_ind (Round loop around n s)
        (loop.stop_on_failure && not (succeeded (get_field "success" observation))) _ _
        (λ _.
          gave_up _ _ 1 (omega arith)
            (Change-then d (Quiet-both loop (mark blocked) _ (λ t. marked blocked))) (inr refl))
        (λ _. went _ d)

  settle-Round :
      (decision : Decision) (params : Value) (s s1 : LoopState) (o : Option Fields)
      → Change loop 0 0 s s1
      → Round loop around n s (settle loop around decision params s1 o)
  unfolding settle
  settle-Round decision params s s1 none c = raised s1 c
  settle-Round decision params s s1 (some observation) c =
      settle_report-Round decision params observation s s1 _ c
        (λ s0 e. recorded-Quiet decision.tool observation _ s0 _ e)

  call_tool-Round :
      (decision : Decision) (s : LoopState)
      → Round loop around n s (call_tool loop around n decision s)
  unfolding call_tool
  call_tool-Round decision s =
      let params = or_empty decision.params in
      let q =
        Quiet-both loop (record_action decision.tool (mapping_of params) decision.thought) s
          (λ t. acted decision.tool (mapping_of params) decision.thought) in
      let s1 =
        save_checkpoint loop
          (update (record_action decision.tool (mapping_of params) decision.thought) s) in
      settle-Round decision params s (observe loop around n decision.tool params s1).1
        (observe loop around n decision.tool params s1).0
        (then-Change q (observe-Change decision.tool params s1))

  turn_of-Round :
      (s : LoopState) (o : Option Decision) → Round loop around n s (turn_of loop around n s o)
  unfolding turn_of finish
  turn_of-Round s none = raised s (Change-Quiet (Quiet-refl s))
  turn_of-Round s (some decision) =
      if_ind (Round loop around n s) (is_empty decision.tool) _ _
        (λ _. check_completion-Round decision s s.task around.verifier refl refl)
        (λ _. call_tool-Round decision s)

  -- Each round of the loop is one of those.
  pub turn-Round : (s : LoopState) → Round loop around n s (turn loop around n s)
  unfolding turn
  turn-Round s = turn_of-Round s (around.decide n)
