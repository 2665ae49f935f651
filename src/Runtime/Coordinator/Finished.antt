-- ===== src/Runtime/Coordinator/Finished.antt =====
-- What a reply becomes in runtime/coordinator.py: the result, and what is kept of it.
use decode.Prelude.{
  ◌≡◌, refl, ap, ◌∙◌, String, true, false, Option, none, some, arith, Bool-cases, inl, inr, ◌⊎◌,
  get_last?, get_last?-snoc,
}
use decode.Governance.{AuditEvent, redacted}
use decode.Runtime.Request.{ExecutionStatus, ErrorCategory, cancelled}
use decode.Runtime.Coordinator.Effects.{
  safe_text, Env, Call, State, Exit, stop, cancel, Reply, returned, interrupted, overdue, failed,
  CoordinatedResult, Produced,
}
use decode.Runtime.Coordinator.Recorders.{
  terminal_event, record_terminal, record_audit, record_non_audit_telemetry, record_log,
  record_feedback, degrade, capture_evidence, terminal_result,
}
use decode.Runtime.Coordinator.Launch.{finish_reply, conclude, keep_evidence, result_of_value}
use decode.Runtime.Coordinator.Quiet.{Untouched, record_terminal-Untouched}

module _ (env : Env) where
  -- the line of the trail about a result of an execution
  abbrev pub terminal_line : CoordinatedResult → State → AuditEvent
  terminal_line r t = redacted env.gate_env.redact (terminal_event env t r true)

  -- The log and the feedback store end with the result, the trail with its redacted line.
  pub record Recorded (r : CoordinatedResult) (t : State) : Type 0 where
    pub in_trail : get_last? t.audit.events ≡ some (terminal_line r t)
    pub in_log : get_last? t.logs ≡ some r
    pub in_feedback : get_last? t.feedback ≡ some r

  record_terminal-Recorded :
      (r : CoordinatedResult) (s : State)
      → (record_terminal env true true r s).0 ≡ true
      → Recorded r (record_terminal env true true r s).1
  unfolding record_terminal record_audit record_non_audit_telemetry record_log record_feedback
  record_terminal-Recorded r s h = record {
    in_trail = ground (arith, get_last?-snoc s.audit.events (terminal_line r s));
    in_log = ground (arith, get_last?-snoc s.logs r);
    in_feedback = ground (arith, get_last?-snoc s.feedback r);
  }

  -- The evidence store ends with the result's id if the result has a value.
  abbrev pub Evidenced : CoordinatedResult → State → Type 0
  Evidenced r t = (r.value ≡ none) ⊎ (get_last? t.evidence ≡ some r.request_id)

  keep_evidence-Evidenced :
      (r : CoordinatedResult) (s : State) (value : Option Produced)
      → r.value ≡ value
      → (keep_evidence env r s).0.success ≡ true
      → Evidenced (keep_evidence env r s).0 (keep_evidence env r s).1
  unfolding keep_evidence capture_evidence
  keep_evidence-Evidenced r s none e h = ground arith
  keep_evidence-Evidenced r s (some w) e h = ground (arith, get_last?-snoc s.evidence r.request_id)

  keep_evidence-Untouched :
      (r : CoordinatedResult) (s : State) → Untouched s (keep_evidence env r s).1
  unfolding keep_evidence capture_evidence
  keep_evidence-Untouched r s = record {
    same_launches = ground arith;
    same_preparations = ground arith;
  }

  evidence-record_terminal :
      (r : CoordinatedResult) (s : State)
      → (record_terminal env true true r s).1.evidence ≡ s.evidence
  unfolding record_terminal record_audit record_non_audit_telemetry record_log record_feedback
  evidence-record_terminal r s = ground arith

still_there :
    (env : Env) (r : CoordinatedResult) (s : State)
    → Evidenced env (keep_evidence env r s).0 (keep_evidence env r s).1
    → Evidenced env
        (keep_evidence env r s).0
        (record_terminal env true true (keep_evidence env r s).0 (keep_evidence env r s).1).1
still_there env r s (inl e) = inl e
still_there env r s (inr e) = inr (
    ap get_last? (evidence-record_terminal env (keep_evidence env r s).0 (keep_evidence env r s).1)
    ∙ e)

-- The end of a call whose launch went on from `s`: a result, or a cancellation, and no further launch.
pub data Finished (env : Env) (s : State) : Exit CoordinatedResult × State → Type 0 where
  concluded :
      {r : CoordinatedResult} {t : State}
      → t.launches ≡ s.launches
      → (r.success ≡ true → Recorded env r t × Evidenced env r t)
      → Finished env s (stop r, t)
  abandoned :
      {r : CoordinatedResult} {t : State}
      → t.launches ≡ s.launches
      → r.success ≡ false
      → Finished env s (cancel r, t)

module _ (env : Env) where
  conclude-Finished : (r : CoordinatedResult) (s : State) → Finished env s (conclude env r s)
  unfolding conclude degrade
  conclude-Finished r s =
      let kept = keep_evidence env r s in
      let k = keep_evidence-Untouched env r s in
      let m = record_terminal-Untouched env kept.0 true true kept.1 in
      elim (Bool-cases (record_terminal env true true kept.0 kept.1).0) [
        | inl all ↦ rw all (
            concluded (m.same_launches ∙ k.same_launches) λ ok. (
              record_terminal-Recorded env kept.0 kept.1 all,
              still_there env r s (keep_evidence-Evidenced env r s r.value refl ok),
            ))
        | inr lost ↦ rw lost (concluded (m.same_launches ∙ k.same_launches) λ ok. cc)
      ]

module _ (env : Env) (call : Call) (digest : String) where
  pub finish_reply-Finished :
      (reply : Reply) (s : State) → Finished env s (finish_reply env call digest reply s)
  unfolding finish_reply terminal_result
  finish_reply-Finished (returned v) s =
      conclude-Finished env (result_of_value env call digest s v) s
  finish_reply-Finished overdue s =
      conclude-Finished env
        (terminal_result env call digest s ExecutionStatus.timeout false
          (some ErrorCategory.timeout) "execution timed out" none)
        s
  finish_reply-Finished (failed m) s =
      conclude-Finished env
        (terminal_result env call digest s ExecutionStatus.error false
          (some ErrorCategory.execution_failure) (safe_text env m) none)
        s
  finish_reply-Finished interrupted s =
      let r =
        terminal_result env call digest s cancelled false (some ErrorCategory.cancellation)
          "execution cancelled" none in
      abandoned (record_terminal-Untouched env r true true s).same_launches refl
