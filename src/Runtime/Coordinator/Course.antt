-- ===== src/Runtime/Coordinator/Course.antt =====
-- The courses that a call of `ExecutionCoordinator.execute` may take.
use decode.Prelude.{ℕ, String, Option}
use decode.Governance.{Decision}
use decode.Runtime.Coordinator.Effects.{
  Env, Call, State, Step, Exit, stop, and_then, ◌>>=◌, CoordinatedResult, Reply,
}
use decode.Runtime.Coordinator.Guards.{set_expiry, approval_digest, guards}
use decode.Runtime.Coordinator.Launch.{execute, launch, finish_reply}
use decode.Runtime.Coordinator.Quiet.{Ends, going, ended, Refused}
use decode.Runtime.Coordinator.Ready.{GuardsHold, guards-GuardsHold}
use decode.Runtime.Coordinator.Started.{Runs, Withheld, Launchable}
use decode.Runtime.Coordinator.Launched.{launch-Runs}
use decode.Runtime.Coordinator.Finished.{Finished, finish_reply-Finished}

-- the request's state and digest when the phases begin
abbrev pub begun : Env → State → State
begun env s = set_expiry env s

abbrev pub call_digest : Env → State → String
call_digest env s = approval_digest env (set_expiry env s)

module _ (env : Env) (call : Call) (digest : String) where
  -- A guard refuses, the launch is withheld, or the launch goes on and its reply is kept.
  pub data Course (s : State) : Exit CoordinatedResult × State → Type 0 where
    refusal : {r : CoordinatedResult} {t : State} → Refused s r t → Course s (stop r, t)
    held_back :
        {r : CoordinatedResult} {t : State}
        → (x : Decision × Option ℕ) (t0 : State) → GuardsHold env call digest s x t0
        → Withheld env call digest t0 r t
        → Course s (stop r, t)
    passed :
        {e : Exit CoordinatedResult × State}
        → (x : Decision × Option ℕ) (t0 t1 : State) → GuardsHold env call digest s x t0
        → Runs env call digest s.shared.request.approval_expires_at t0.launches t1.launches
        → Finished env t1 e
        → Course s e

  launch-Course :
      (s t0 : State) (x : Decision × Option ℕ)
      → GuardsHold env call digest s x t0
      → (e : Exit Reply × State)
      → Ends
          (λ _ t. Runs env call digest s.shared.request.approval_expires_at t0.launches t.launches)
          (Withheld env call digest t0)
          e
      → Course s (and_then e.0 (finish_reply env call digest) e.1)
  launch-Course s t0 x h e (going runs) =
      passed x t0 _ h runs (finish_reply-Finished env call digest _ _)
  launch-Course s t0 x h e (ended w) = held_back x t0 h w

  abbrev after_guards : Decision × Option ℕ → Step CoordinatedResult
  after_guards (d, x) = launch env call digest d x >>= finish_reply env call digest

  launchable :
      (s t : State) (x : Decision × Option ℕ)
      → GuardsHold env call digest s x t
      → Launchable env call digest t
  launchable s t x h = record { unchanged = h.0.unchanged; authorized = h.0.authorized }

  guards-Course :
      (s : State) (e : Exit (Decision × Option ℕ) × State)
      → Ends (GuardsHold env call digest s) (Refused s) e
      → Course s (and_then e.0 after_guards e.1)
  unfolding ◌>>=◌
  guards-Course s e (ended r) = refusal r
  guards-Course s e (going {a} {s = t} h) =
      launch-Course s t a h (launch env call digest a.0 a.1 t)
        (launch-Runs env call digest s.shared.request.approval_expires_at a.1 h.3 t
          (launchable s t a h) a.0).ends

pub execute-Course :
    (env : Env) (call : Call) (s : State)
    → Course env call (call_digest env s) (begun env s) (execute env call s)
unfolding execute ◌>>=◌
execute-Course env call s =
    guards-Course env call (call_digest env s) (begun env s)
      (guards env call (call_digest env s) (begun env s))
      (guards-GuardsHold env call (call_digest env s) (begun env s)).ends
