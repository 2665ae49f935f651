-- ===== src/Runtime/Coordinator/Laws.antt =====
-- What a call of `ExecutionCoordinator.execute` promises.
use decode.Prelude.{
  ◌≡◌, refl, sym, ap, ◌∙◌, String, Bool, true, false, Option, some, List, [], ◌∷◌, ◌++◌, subst,
  of_some, is_empty, length, length-append, get_last?, get_last?-snoc, ◌⊎◌, inl, inr, arith, ℕ,
}
use decode.Governance.{Decision, allow, needs_approval, deny}
use decode.Governance.Gate.Laws.{decision_of}
use decode.Runtime.Request.{ResolvedAction, resolved_action_error}
use decode.Runtime.Request.Laws.{IsConsistent, resolved_action_error-IsConsistent}
use decode.Runtime.Coordinator.Effects.{
  Env, Call, State, Exit, go, stop, cancel, CoordinatedResult, LaunchEvent,
}
use decode.Runtime.Coordinator.Guards.{set_expiry}
use decode.Runtime.Coordinator.Launch.{execute}
use decode.Runtime.Coordinator.Quiet.{Untouched, Untouched-trans, Refused}
use decode.Runtime.Coordinator.Decided.{evaluation}
use decode.Runtime.Coordinator.Approved.{Consents}
use decode.Runtime.Coordinator.Ready.{GuardsHold}
use decode.Runtime.Coordinator.Started.{Runs, nothing, once}
use decode.Runtime.Coordinator.Finished.{Finished, concluded, abandoned, Recorded, Evidenced}
use decode.Runtime.Coordinator.Course.{
  begun, call_digest, Course, refusal, held_back, passed, execute-Course,
}

abbrev final : Env → Call → State → State
final env call s = (execute env call s).1

abbrev pub succeeded : Exit CoordinatedResult → Bool
succeeded (go r) = r.success
succeeded (stop r) = r.success
succeeded (cancel r) = r.success

-- Neither the preparation nor the operation was started, and the call ended without success.
pub record NothingStarted (s : State) (e : Exit CoordinatedResult × State) : Type 0 where
  pub untouched : Untouched s e.1
  pub unsuccessful : succeeded e.0 ≡ false

begun-Untouched : (env : Env) (s : State) → Untouched s (begun env s)
unfolding set_expiry
begun-Untouched env s = record { same_launches = ground arith; same_preparations = ground arith }

NothingStarted-Refused :
    (env : Env) (s t : State) (r : CoordinatedResult)
    → Refused (begun env s) r t
    → NothingStarted s (stop r, t)
NothingStarted-Refused env s t r h = record {
  untouched = Untouched-trans (begun-Untouched env s) h.untouched;
  unsuccessful = h.unsuccessful;
}

-- The gate allows the begun request, or asks for an approval that the callback gives to its digest.
pub data Permitted (env : Env) (call : Call) (s : State) : Type 0 where
  by_policy : decision_of (evaluation env (begun env s)) ≡ allow → Permitted env call s
  by_consent :
      decision_of (evaluation env (begun env s)) ≡ needs_approval
      → Consents env call (call_digest env s) call.approval
      → Permitted env call s

not_both : {b : Bool} → b ≡ false → b ≡ true → ⊥
not_both down up = cc

-- A result that all stores have kept.
pub data KeptInFull (env : Env) : Exit CoordinatedResult × State → Type 0 where
  full :
      {r : CoordinatedResult} {t : State}
      → Recorded env r t
      → Evidenced env r t
      → KeptInFull env (stop r, t)

Finished-launches :
    (env : Env) {s : State} {e : Exit CoordinatedResult × State}
    → Finished env s e
    → e.1.launches ≡ s.launches
Finished-launches env (concluded same kept) = same
Finished-launches env (abandoned same bad) = same

Runs-from :
    (env : Env) (call : Call) (digest : String) {x : Option ℕ} {a b c d : List LaunchEvent}
    → b ≡ a
    → d ≡ c
    → Runs env call digest x b c
    → Runs env call digest x a d
Runs-from env call digest {x} {a} {b} {c} {d} e f h =
    subst (λ (xs : List LaunchEvent). Runs env call digest x xs d) e
      (subst (λ (ys : List LaunchEvent). Runs env call digest x b ys) (sym f) h)

module _ (env : Env) (call : Call) (s : State) where
  abbrev Held : Decision × Option ℕ → State → Type 0
  Held = GuardsHold env call (call_digest env s) (begun env s)

  Held-Permitted : (d : Decision) (x : Option ℕ) (t : State) → Held (d, x) t → Permitted env call s
  Held-Permitted allow x t h = by_policy h.1
  Held-Permitted needs_approval x t h = by_consent h.1 (h.4 refl)
  Held-Permitted deny x t h = absurd (h.2 refl)

  -- Nothing was started, or the guards held at some point.
  started_only_when :
      (P : Type 0)
      → ((x : Decision × Option ℕ) (t : State) → Held x t → P)
      → (e : Exit CoordinatedResult × State) → Course env call (call_digest env s) (begun env s) e
      → NothingStarted s e ⊎ P
  started_only_when P f e (refusal h) = inl (NothingStarted-Refused env s _ _ h)
  started_only_when P f e (held_back x t h w) = inr (f x t h)
  started_only_when P f e (passed x t t1 h runs fin) = inr (f x t h)

  -- Either nothing is started and the call ends without success, or the gate allows the request, or it
  -- asks for approval and the callback consented to an approval request with the request's digest.
  pub execute-Permitted : NothingStarted s (execute env call s) ⊎ Permitted env call s
  execute-Permitted =
      started_only_when (Permitted env call s) (λ (d, x) t h. Held-Permitted d x t h)
        (execute env call s) (execute-Course env call s)

  -- Where no write to the audit trail succeeds, nothing is started and the call ends without success.
  pub execute_unaudited :
      ((n : ℕ) → env.gate_env.writable n ≡ false) → NothingStarted s (execute env call s)
  execute_unaudited broken =
      elim (started_only_when ⊥ (λ x t h. not_both (broken h.0.trail_works.0) h.0.trail_works.1)
        (execute env call s) (execute-Course env call s)) [
          | inl held ↦ held
          | inr impossible ↦ absurd impossible
        ]

  base : (begun env s).launches ≡ s.launches
  base = (begun-Untouched env s).same_launches

  abbrev Outcome : List LaunchEvent → Type 0
  Outcome after =
      Runs env call (call_digest env s) (begun env s).shared.request.approval_expires_at s.launches
        after

  Course-Runs :
      (e : Exit CoordinatedResult × State)
      → Course env call (call_digest env s) (begun env s) e
      → Outcome e.1.launches
  Course-Runs e (refusal h) = nothing (h.untouched.same_launches ∙ base)
  Course-Runs e (held_back x t h w) = nothing (w.no_launch ∙ h.0.untouched.same_launches ∙ base)
  Course-Runs e (passed x t t1 h runs fin) =
      Runs-from env call (call_digest env s) (h.0.untouched.same_launches ∙ base)
        (Finished-launches env fin) runs

  -- A call starts the operation at most once, with the material request that its digest stands for and
  -- whose resolved action is consistent, behind a line of the trail, redacted as all are, that authorizes this call and
  -- this digest, and at a clock reading before the expiry of the request, if it has one.
  pub execute-Runs : Outcome (execute env call s).1.launches
  execute-Runs = Course-Runs (execute env call s) (execute-Course env call s)

  same_launch :
      (e f : LaunchEvent) (xs ys : List LaunchEvent) → ys ≡ xs ++ e ∷ [] → ys ≡ xs ++ f ∷ [] → e ≡ f
  same_launch e f xs ys p q =
      of_some (sym (get_last?-snoc xs e) ∙ ap get_last? (sym p ∙ q) ∙ get_last?-snoc xs f)

  launch_of :
      (e : LaunchEvent) (after : List LaunchEvent)
      → Outcome after
      → after ≡ s.launches ++ e ∷ []
      → is_empty (resolved_action_error e.request) ≡ true
  launch_of e after (nothing same) h =
      absurd (omega (arith, ap length (sym same ∙ h), length-append s.launches (e ∷ [])))
  launch_of e after (once f sound p) h =
      subst (λ (x : LaunchEvent). is_empty (resolved_action_error x.request) ≡ true)
        (same_launch f e s.launches after p h) sound.consistent

  -- If a call starts the operation of a request with a resolved action, the request that is started has the action's
  -- capability, provider, target, argument vector, tool and version, and path and digest of its first executable if it
  -- names any; if it is a read then the action has read-only effects alone.
  pub execute-IsConsistent :
      (e : LaunchEvent) (a : ResolvedAction)
      → (execute env call s).1.launches ≡ s.launches ++ e ∷ []
      → e.request.resolved_action ≡ some a
      → IsConsistent a e.request
  execute-IsConsistent e a h r =
      resolved_action_error-IsConsistent e.request a r
        (launch_of e (execute env call s).1.launches execute-Runs h)

  Course-Recorded :
      (e : Exit CoordinatedResult × State)
      → Course env call (call_digest env s) (begun env s) e
      → succeeded e.0 ≡ true
      → KeptInFull env e
  Course-Recorded e (refusal h) ok = absurd (not_both h.unsuccessful ok)
  Course-Recorded e (held_back x t h w) ok = absurd (not_both w.unsuccessful ok)
  Course-Recorded e (passed x t t1 h runs (concluded same kept)) ok = full (kept ok).0 (kept ok).1
  Course-Recorded e (passed x t t1 h runs (abandoned same bad)) ok = absurd (not_both bad ok)

  -- A call that succeeds ends with a result with which the log and the feedback store end, and the trail by its redacted line, and,
  -- if the result has a value, the evidence store with its id.
  pub execute-Recorded :
      succeeded (execute env call s).0 ≡ true → KeptInFull env (execute env call s)
  execute-Recorded = Course-Recorded (execute env call s) (execute-Course env call s)
