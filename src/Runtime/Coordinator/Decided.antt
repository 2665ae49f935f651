-- ===== src/Runtime/Coordinator/Decided.antt =====
-- What holds behind the checks of the request, the hooks and the gate in runtime/coordinator.py.
use decode.Prelude.{◌≡◌, ◌≢◌, refl, ap, String, Option, none, some, List}
use decode.Governance.{AuditLog, Decision, allow, needs_approval, deny, risk_value}
use decode.Governance.Gate.{evaluate, Evaluation}
use decode.Governance.Gate.Laws.{
  decision_of, Accounted, denied, silent, raised as raised_by_gate, evaluate-Accounted,
}
use decode.HostControl.Hooks.{PreHook}
use decode.Runtime.Coordinator.Effects.{Env, Call, State, Step}
use decode.Runtime.Coordinator.Guards.{
  check_request, run_hooks, check_gate, refuse_denied, refuse_or_pass, handle_decision,
}
use decode.Runtime.Coordinator.Quiet.{
  Post, Post-gets, Post-pure, Post-guard, Post-when, Untouched, Untouched-refl, Refused,
  finish-Refused, telemetry_unavailable-Refused,
}

-- An evaluation that denies nothing leaves the trail alone.
abbrev pub Silent : AuditLog → Evaluation → Type 0
Silent log (none, after) = Unit
Silent log (some d, after) = d.decision ≢ deny → after ≡ log

Accounted-Silent :
    {redact : String → String} {capability : String} (log : AuditLog) (r : Evaluation)
    → Accounted redact capability log r
    → Silent log r
Accounted-Silent log r (denied e why h a b c d) = λ other. absurd (other refl)
Accounted-Silent log r (silent d h) = λ other. refl
Accounted-Silent log r (raised_by_gate h) = tt

-- the evaluation that `ask_gate` makes in a state
abbrev pub evaluation : Env → State → Evaluation
evaluation env s =
    let r = s.shared.request in
    evaluate env.gate_env s.shared.gate r.action r.target (risk_value r.risk) r.target_required
      s.audit

pub evaluation-Silent : (env : Env) (s : State) → Silent s.audit (evaluation env s)
evaluation-Silent env s = Accounted-Silent s.audit _ (
    evaluate-Accounted env.gate_env s.shared.gate s.shared.request.action s.shared.request.target
      (risk_value s.shared.request.risk) s.shared.request.target_required s.audit)

module _ (env : Env) (call : Call) (digest : String) where
  -- The phase goes on in the state in which it began, or refuses.
  abbrev pub Passes : {A : Type 0} → Step A → State → Type 0
  Passes m s = Post (λ _ t. t ≡ s) (Refused s) m s

  pub check_request-Passes : (s : State) → Passes (check_request env call digest) s
  unfolding check_request
  check_request-Passes s = Post-gets _ _ (
      Post-guard _ (finish-Refused env call digest _ _ _ _ (Untouched-refl s)) λ _.
        Post-guard _ (finish-Refused env call digest _ _ _ _ (Untouched-refl s))
          λ _. Post-when _ (finish-Refused env call digest _ _ _ _ (Untouched-refl s)) (λ _. refl))

  pub run_hooks-Passes :
      (hooks : Option (List PreHook)) (s : State) → Passes (run_hooks env call digest hooks) s
  unfolding run_hooks
  run_hooks-Passes none s = Post-pure _ refl
  run_hooks-Passes (some hooks) s =
      Post-gets _ _
        (Post-when _ (finish-Refused env call digest _ _ _ _ (Untouched-refl s)) (λ _. refl))

  -- The gate's decision, which is no denial, in the state in which it was asked.
  pub record Decided (s : State) (d : Decision) (t : State) : Type 0 where
    pub same : t ≡ s
    pub by_gate : decision_of (evaluation env s) ≡ d
    pub not_denied : d ≢ deny

  refuse_or_pass-Decided :
      (s t : State) (d : Decision) (reason : String)
      → decision_of (evaluation env s) ≡ d
      → (d ≢ deny → t ≡ s)
      → Untouched s t
      → Post (Decided s) (Refused s) (refuse_or_pass env call digest d reason) t
  unfolding refuse_or_pass
  refuse_or_pass-Decided s t deny reason e same h = finish-Refused env call digest _ _ _ _ h
  refuse_or_pass-Decided s t allow reason e same h =
      Post-pure _ (record { same = same (λ x. cc); by_gate = e; not_denied = λ x. cc })
  refuse_or_pass-Decided s t needs_approval reason e same h =
      Post-pure _ (record { same = same (λ x. cc); by_gate = e; not_denied = λ x. cc })

  handle-Decided :
      (s : State) (r : Evaluation)
      → evaluation env s ≡ r
      → Silent s.audit r
      → Post
          (Decided s)
          (Refused s)
          (handle_decision env call digest r.0)
          (record s { audit = r.1 })
  unfolding handle_decision refuse_denied
  handle-Decided s (none, log) e h =
      telemetry_unavailable-Refused env call digest
        (record { same_launches = refl; same_preparations = refl })
  handle-Decided s (some d, log) e h =
      refuse_or_pass-Decided s _ d.decision d.reason (ap decision_of e)
        (λ other. ap (λ (l : AuditLog). record s { audit = l }) (h other))
        (record { same_launches = refl; same_preparations = refl })

  pub check_gate-Decided : (s : State) → Post (Decided s) (Refused s) (check_gate env call digest) s
  unfolding check_gate
  check_gate-Decided s = record {
    ends = (handle-Decided s (evaluation env s) refl (evaluation-Silent env s)).ends;
  }
