-- ===== src/Runtime/Coordinator/Ready.antt =====
-- What holds behind each phase of runtime/coordinator.py in front of the launch.
use decode.Prelude.{
  ℕ, ◌+◌, ◌≡◌, ◌≢◌, refl, String, true, Option, [], ◌∷◌, ◌++◌, arith, Bool-cases, inl, inr, Exists,
  Exists-snoc,
}
use decode.Governance.{AuditEvent, redacted, Decision, needs_approval, deny}
use decode.Governance.Gate.Laws.{decision_of}
use decode.Runtime.Coordinator.Effects.{Env, Call, State, ◌>>◌, pure}
use decode.Runtime.Coordinator.Recorders.{authorization_event, record_authorization}
use decode.Runtime.Coordinator.Guards.{
  approval_digest, check_hooks, check_unchanged, is_unchanged, check_restriction, authorize, guards,
}
use decode.Runtime.Coordinator.Quiet.{
  Post, going, Post-bind, Post-then, Post-gets, Post-pure, Post-when, Untouched, Refused,
  finish-Refused, telemetry_unavailable-Refused,
}
use decode.Runtime.Coordinator.Decided.{
  evaluation, Decided, check_request-Passes, run_hooks-Passes, check_gate-Decided,
}
use decode.Runtime.Coordinator.Approved.{Limits, Approved, Consents, check_approval-Approved}

module _ (env : Env) (call : Call) (digest : String) where
  -- Behind the last test the request is the one that was decided on, and is consistent.
  check_unchanged-Passes :
      (s0 s : State)
      → Untouched s0 s
      → Post
          (λ _ t. (t ≡ s) × (is_unchanged env call digest s ≡ true))
          (Refused s0)
          (check_unchanged env call digest)
          s
  unfolding check_unchanged
  check_unchanged-Passes s0 s h =
      Post-gets _ _
        (Post-when _ (finish-Refused env call digest _ _ _ _ h) (λ e. (refl, ground arith)))

  check_restriction-Passes :
      (s0 s : State)
      → Untouched s0 s
      → Post (λ _ t. t ≡ s) (Refused s0) (check_restriction env call digest) s
  unfolding check_restriction
  check_restriction-Passes s0 s h =
      Post-gets _ _ (Post-when _ (finish-Refused env call digest _ _ _ _ h) (λ e. refl))

  -- A line of the trail, as `record` redacts it, that authorizes this call under this digest.
  abbrev pub Authorizes : AuditEvent → Type 0
  Authorizes e =
      (e.event ≡ env.gate_env.redact "approval")
      × (e.approved ≡ true)
      × (e.request_id ≡ env.gate_env.redact call.request_id)
      × (e.approval_digest ≡ env.gate_env.redact digest)

  -- What the guards hand to the launch: nothing started, the request as decided on, the trail written.
  pub record Ready (s0 s : State) : Type 0 where
    pub untouched : Untouched s0 s
    pub unchanged : is_unchanged env call digest s ≡ true
    pub authorized : Exists Authorizes s.audit.events
    pub trail_works : (n : ℕ) × (env.gate_env.writable n ≡ true)

  abbrev authorization_line : State → AuditEvent
  authorization_line s = redacted env.gate_env.redact (authorization_event env call digest s)

  -- the state behind the line that authorizes
  abbrev trail_extended : State → State
  trail_extended s = record s {
    audit = record (s.audit) {
      events = s.audit.events ++ authorization_line s ∷ [];
      calls = s.audit.calls + 1;
    };
  }

  written-Ready :
      (s0 s : State)
      → Untouched s0 s
      → is_unchanged env call digest s ≡ true
      → env.gate_env.writable s.audit.calls ≡ true
      → Ready s0 (trail_extended s)
  unfolding is_unchanged approval_digest
  written-Ready s0 s h u up = record {
    untouched = record { same_launches = h.same_launches; same_preparations = h.same_preparations };
    unchanged = u;
    authorized =
        Exists-snoc Authorizes s.audit.events (authorization_line s) (refl, refl, refl, refl);
    trail_works = (s.audit.calls, up);
  }

  authorize-Ready :
      (s0 s : State)
      → Untouched s0 s
      → is_unchanged env call digest s ≡ true
      → Post (λ _ t. Ready s0 t × (t.shared ≡ s.shared)) (Refused s0) (authorize env call digest) s
  unfolding authorize record_authorization is_unchanged
  authorize-Ready s0 s h u = elim (Bool-cases (env.gate_env.writable s.audit.calls)) [
    | inl up ↦ record { ends = rw up (unfold pure in going (written-Ready s0 s h u up, refl)) }
    | inr down ↦ record {
      ends =
          rw down
            (telemetry_unavailable-Refused env call digest (record {
              same_launches = h.same_launches;
              same_preparations = h.same_preparations;
            })).ends;
    }
  ]

  abbrev pub GuardsHold : State → Decision × Option ℕ → State → Type 0
  GuardsHold s x t =
      Ready s t
      × (decision_of (evaluation env s) ≡ x.0)
      × (x.0 ≢ deny)
      × Limits s.shared.request.approval_expires_at x.1
      × (x.0 ≡ needs_approval → Consents env call digest call.approval)

  pub guards-GuardsHold : (s : State) → Post (GuardsHold s) (Refused s) (guards env call digest) s
  unfolding guards check_hooks
  guards-GuardsHold s =
      Post-then (λ _ t. t ≡ s) (check_request-Passes env call digest s)
        λ _ s1 e1. rw e1 (
          Post-then (λ _ t. t ≡ s) (run_hooks-Passes env call digest env.hooks s)
            λ _ s2 e2. rw e2 (
              Post-bind (Decided env call digest s) (check_gate-Decided env call digest s)
                λ d s3 dec. rw dec.same (
                  Post-bind (Approved env call digest s d)
                    (check_approval-Approved env call digest s d)
                    λ x s4 appr. after_approval s s4 d x dec appr)))
    where
      after_approval :
          (s s4 : State) (d : Decision) (x : Option ℕ) {s3 : State}
          → Decided env call digest s d s3
          → Approved env call digest s d x s4
          → Post
              (GuardsHold s)
              (Refused s)
              (check_unchanged env call digest
                >> (check_restriction env call digest
                    >> (authorize env call digest >> pure (d, x))))
              s4
      after_approval s s4 d x dec appr =
          Post-then (λ _ t. (t ≡ s4) × (is_unchanged env call digest s4 ≡ true))
            (check_unchanged-Passes s s4 appr.0.untouched)
            λ _ s5 (e5, u). rw e5 (
              Post-then (λ _ t. t ≡ s4) (check_restriction-Passes s s4 appr.0.untouched)
                λ _ s6 e6. rw e6 (
                  Post-then (λ _ t. Ready s t × (t.shared ≡ s4.shared))
                    (authorize-Ready s s4 appr.0.untouched u)
                    λ _ s7 (r, _). Post-pure _ (r, dec.by_gate, dec.not_denied, appr.1, appr.2)))
