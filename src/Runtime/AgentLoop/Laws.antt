-- ===== src/Runtime/AgentLoop/Laws.antt =====
-- What a run of the loop of runtime/agent_loop.py promises.
use decode.Prelude.{
  ℕ, zero, suc, ◌+◌, ◌≤◌, ◌≡◌, ◌≢◌, refl, sym, ◌∙◌, String, true, Option, none, some, List, [], ◌∷◌,
  length, length-append, All, All-append, ◌⊎◌, inl, inr, arith, of_some, if_ind,
}
use decode.Values.{Value}
use decode.Schema.TaskState.{TaskState, blocked, complete, mark}
use decode.Schema.TaskState.Laws.{IsSound, Steps-IsSound, marked}
use decode.Verification.Verifier.{VerificationResult}
use decode.Runtime.AgentLoop.{
  ToolUseLoop, Surroundings, LoopState, LoopResult, final, verification_failed, action_failed, Turn,
  go, returns, raises, turn, rounds, exhausted, run, start, Ended, save_checkpoint,
  CompletionVerifier,
}
use decode.Runtime.AgentLoop.Round.{
  Moves, absent, moved, Moves-trans, Moves-refl, IsAdmitted, Calls, same, one, Change, Accepted,
  no_task, no_verifier, verified, Round, raised, replanned, went, gave_up, done, turn-Round, Quiet,
  Quiet-save, Quiet-both, IsCurrent, IsCurrent-Quiet, observed_last,
}

module _ (loop : ToolUseLoop) (around : Surroundings) where
  -- What is true of the state when `n` rounds have begun.
  record IsKept (task : Option TaskState) (n : ℕ) (s : LoopState) : Type 0 where
    pub rounds_bound : length s.steps + s.replans ≤ n
    pub calls_bound : length s.calls ≤ n
    pub replans_bound : s.replans ≤ loop.max_replans
    pub admitted : All (IsAdmitted loop) s.calls
    pub moves : Moves task s.task
    pub current : IsCurrent s

  IsKept-Quiet :
      {task : Option TaskState} {n : ℕ} {s s' : LoopState}
      → IsKept task n s
      → Quiet s s'
      → IsKept task n s'
  IsKept-Quiet h q = record {
    rounds_bound = rw (q.steps_same, q.replans_same) h.rounds_bound;
    calls_bound = rw q.calls_same h.calls_bound;
    replans_bound = rw q.replans_same h.replans_bound;
    admitted = rw q.calls_same h.admitted;
    moves = Moves-trans h.moves q.task_moves;
    current = IsCurrent-Quiet q h.current;
  }

  IsKept-later :
      {task : Option TaskState} {m n : ℕ} {s : LoopState}
      → m ≤ n
      → IsKept task m s
      → IsKept task n s
  IsKept-later l h = record {
    rounds_bound = omega (arith, h.rounds_bound);
    calls_bound = omega (arith, h.calls_bound);
    replans_bound = h.replans_bound;
    admitted = h.admitted;
    moves = h.moves;
    current = h.current;
  }

  Calls-All :
      {cs ds : List (String × Value)}
      → Calls loop cs ds
      → All (IsAdmitted loop) cs
      → All (IsAdmitted loop) ds × (length ds ≤ length cs + 1)
  Calls-All same h = (h, omega arith)
  Calls-All {cs} (one call ok) h = (
    All-append (IsAdmitted loop) cs (call ∷ []) h (ok, tt),
    omega (arith, length-append cs (call ∷ [])),
  )

  IsKept-Change :
      {task : Option TaskState} {n k j : ℕ} {s s' : LoopState}
      → k + j ≤ 1
      → s.replans + j ≤ loop.max_replans
      → Change loop k j s s'
      → IsKept task n s
      → IsKept task (n + 1) s'
  IsKept-Change l m c h =
      let (ok, count) = Calls-All c.calls h.admitted in
      record {
        rounds_bound = omega (arith, c.steps_grow, c.replans_grow, h.rounds_bound);
        calls_bound = omega (arith, count, h.calls_bound);
        replans_bound = omega (arith, c.replans_grow);
        admitted = ok;
        moves = Moves-trans h.moves c.task;
        current = c.current h.current;
      }

  -- How the loop ended: what is final was accepted, in a round from the task's state.
  data EndsWell (task : Option TaskState) (s : LoopState) : Option LoopResult → Type 0 where
    without : EndsWell task s none
    unaccepted : (r : LoopResult) → r.stopped ≢ final → EndsWell task s (some r)
    accepted :
        (r : LoopResult) (n : ℕ) (before : LoopState)
        → Moves task before.task
        → Accepted around n before s
        → EndsWell task s (some r)

  abbrev IsEnd : Option TaskState → ℕ → Ended → Type 0
  IsEnd task n end_ = IsKept task n end_.1 × EndsWell task end_.1 end_.0

  exhausted-IsKept :
      {task : Option TaskState} {n : ℕ} (s : LoopState)
      → IsKept task n s
      → IsKept task n (exhausted loop s)
  unfolding exhausted
  exhausted-IsKept {task} {n} s h =
      if_ind (IsKept task n) loop.stop_on_failure _ _
        (λ _. IsKept-Quiet h (Quiet-both loop (mark blocked) s (λ t. marked blocked))) (λ _. h)

  unaccepted-of :
      (r : LoopResult)
      → (r.stopped ≡ verification_failed) ⊎ (r.stopped ≡ action_failed)
      → r.stopped ≢ final
  unaccepted-of r (inl e) = λ f. cc
  unaccepted-of r (inr e) = λ f. cc

  rounds-IsEnd :
      (task : Option TaskState) (left n : ℕ) (s : LoopState)
      → IsKept task n s
      → IsEnd task (n + left) (rounds loop around left n s)
  unfolding rounds
  rounds-IsEnd task zero n s h =
      (IsKept-later (omega arith) (exhausted-IsKept s h), unaccepted _ (λ f. cc))
  rounds-IsEnd task (suc left) n s h =
      after (turn loop around n s) (turn-Round loop around n s)
        (λ s' k. rounds-IsEnd task left (n + 1) s' k)
    where
      after :
          (t : Turn)
          → Round loop around n s t
          → ((s' : LoopState)
              → IsKept task (n + 1) s'
              → IsEnd task (n + 1 + left) (rounds loop around left (n + 1) s'))
          → IsEnd task (n + suc left) (elim t [
            | go s' ↦ rounds loop around left (n + 1) s'
            | returns result s' ↦ (some result, s')
            | raises s' ↦ (none, s')
          ])
      after _ (raised s' c) ih = (
        IsKept-later (omega arith)
            (IsKept-Change (omega arith) (omega (arith, h.replans_bound)) c h),
        without,
      )
      after _ (replanned s' lt c) ih =
          let (kept, well) = ih s' (IsKept-Change (omega arith) (omega arith) c h) in
          (IsKept-later (omega arith) kept, well)
      after _ (went s' c) ih =
          let (kept, well) =
            ih s' (IsKept-Change (omega arith) (omega (arith, h.replans_bound)) c h) in
          (IsKept-later (omega arith) kept, well)
      after _ (gave_up r s' k le c stop) ih = (
        IsKept-later (omega arith)
            (IsKept-Change (omega arith) (omega (arith, h.replans_bound)) c h),
        unaccepted r (unaccepted-of r stop),
      )
      after _ (done r s' c f ok) ih = (
        IsKept-later (omega arith)
            (IsKept-Change (omega arith) (omega (arith, h.replans_bound)) c h),
        accepted r n s h.moves ok,
      )

  run-IsEnd : (task : Option TaskState) → IsEnd task loop.max_steps (run loop around task)
  unfolding run
  run-IsEnd task =
      let (kept, well) =
        rounds-IsEnd task loop.max_steps 0 (save_checkpoint loop (start task 0))
          (IsKept-Quiet first (Quiet-save loop (start task 0))) in
      (IsKept-later (omega arith) kept, well)
    where
      first : IsKept task 0 (start task 0)
      first = record {
        rounds_bound = omega arith;
        calls_bound = omega arith;
        replans_bound = omega arith;
        admitted = tt;
        moves = Moves-refl task;
        current = refl;
      }

  -- A run makes no more steps and replans together, and no more calls of operations, than it has steps in
  -- its budget, and no more replans than it may, however it ends.
  pub run-Bounded :
      (task : Option TaskState)
      → let s = (run loop around task).1 in
        (length s.steps + s.replans ≤ loop.max_steps)
        × (length s.calls ≤ loop.max_steps)
        × (s.replans ≤ loop.max_replans)
  run-Bounded task =
      let kept = (run-IsEnd task).0 in (kept.rounds_bound, kept.calls_bound, kept.replans_bound)

  -- Each call of an operation that a run makes is of a tool that is offered, with parameters that its
  -- schema admits.
  pub run-Admitted :
      (task : Option TaskState) → All (IsAdmitted loop) (run loop around task).1.calls
  run-Admitted task = (run-IsEnd task).0.admitted

  task-IsSound :
      {t u : Option TaskState} (s s' : TaskState)
      → Moves t u
      → t ≡ some s
      → u ≡ some s'
      → IsSound s
      → IsSound s'
  task-IsSound s s' absent d e h = cc
  task-IsSound s s' (moved p) d e h = rw (← of_some e) (Steps-IsSound _ _ p (rw (of_some d) h))

  -- A run keeps its task state sound, however it ends.
  pub run-IsSound :
      (t u : TaskState) → IsSound t → (run loop around (some t)).1.task ≡ some u → IsSound u
  run-IsSound t u h e = task-IsSound t u (run-IsEnd (some t)).0.moves refl e h

  -- The verifier accepted a state of the task with the observation of the last step, and the task was then marked
  -- complete.
  abbrev pub IsVerified : TaskState → CompletionVerifier → LoopState → Type 0
  IsVerified t verify s =
      (n : ℕ) × (u : TaskState) × (verdict : VerificationResult) × (verify n u
          (observed_last s.steps)
        ≡ some verdict)
      × (verdict.valid ≡ true)
      × Moves (some t) (some u)
      × (s.task ≡ some (mark complete u))

  no_move :
      {A : Type 0} {a b : Option TaskState} {t : TaskState} → Moves a b → a ≡ some t → b ≡ none → A
  no_move absent e f = cc
  no_move (moved p) e f = cc

  IsVerified_of_Accepted :
      (t : TaskState) (verify : CompletionVerifier) (n : ℕ) (before s : LoopState)
      → around.verifier ≡ some verify
      → IsCurrent s
      → Moves (some t) before.task
      → Accepted around n before s
      → IsVerified t verify s
  IsVerified_of_Accepted t verify n before s v now m (no_task e) = no_move m refl e
  IsVerified_of_Accepted t verify n before s v now m (no_verifier e) = absurd (cc (rw e at v))
  IsVerified_of_Accepted t verify n before s v now m (verified u check verdict e d x ok k) =
      (n, u, verdict, rw (← now, of_some (sym v ∙ d)) x, ok, rw (← e) m, k)

  IsVerified_of_EndsWell :
      (t : TaskState) (verify : CompletionVerifier) (result : LoopResult) (s : LoopState)
      (o : Option LoopResult)
      → IsCurrent s
      → EndsWell (some t) s o
      → around.verifier ≡ some verify
      → o ≡ some result
      → result.stopped ≡ final
      → IsVerified t verify s
  IsVerified_of_EndsWell t verify result s _ now without v e f = cc
  IsVerified_of_EndsWell t verify result s _ now (unaccepted r stop) v e f =
      absurd (stop (rw (of_some e) f))
  IsVerified_of_EndsWell t verify result s _ now (accepted r n before m ok) v e f =
      IsVerified_of_Accepted t verify n before s v now m ok

  -- A run with a verifier reports its task as done only where the verifier accepted the task's state, which
  -- the methods of the state have led to, with the observation of the run's last step; the task is marked complete then.
  pub run-IsVerified :
      (t : TaskState) (verify : CompletionVerifier) (result : LoopResult)
      → around.verifier ≡ some verify
      → (run loop around (some t)).0 ≡ some result
      → result.stopped ≡ final
      → IsVerified t verify (run loop around (some t)).1
  run-IsVerified t verify result v e f =
      IsVerified_of_EndsWell t verify result (run loop around (some t)).1
        (run loop around (some t)).0 (run-IsEnd (some t)).0.current (run-IsEnd (some t)).1 v e f
