-- ===== src/Runtime/Coordinator/Launched.antt =====
-- The launch of runtime/coordinator.py, with and without a preparation.
use decode.Prelude.{ℕ, ◌≡◌, refl, sym, String, true, Option, none, some, List, subst, Exists}
use decode.Governance.{Decision, PermissionMode, AuditLog}
use decode.Runtime.Coordinator.Effects.{
  Env, Call, State, Activity, Reply, returned, interrupted, overdue, failed, LaunchEvent,
}
use decode.Runtime.Coordinator.Guards.{is_unchanged}
use decode.Runtime.Coordinator.Launch.{launch, launch_by, prepared, run_preparation}
use decode.Runtime.Coordinator.Quiet.{
  Post, going, Post-bind, Post-then, Post-gets, Post-pure, Post-weaken, Post-ended, Refused,
}
use decode.Runtime.Coordinator.Approved.{Limits}
use decode.Runtime.Coordinator.Ready.{Authorizes}
use decode.Runtime.Coordinator.Started.{
  Runs, nothing, Withheld, Refused-Withheld, Launchable, start-Runs, check_again-Launchable,
}

module _ (env : Env) (call : Call) (digest : String) where
  prepared-Runs :
      (e0 x : Option ℕ)
      → Limits e0 x
      → (s : State) → Exists (Authorizes env call digest) s.audit.events
      → (before : Decision) (check : Option ℕ) (mode : PermissionMode) (reply : Reply)
      → Post
          (λ _ t. Runs env call digest e0 s.launches t.launches)
          (Refused s)
          (prepared env call digest before x check mode reply)
          s
  unfolding prepared
  prepared-Runs e0 x lim s authorized before check mode (returned none) =
      Post-then (λ _ t. (t ≡ s) × (is_unchanged env call digest s ≡ true))
        (check_again-Launchable env call digest s before check mode)
        λ _ t (e, u). rw e (
          start-Runs env call digest e0 x lim s (record { unchanged = u; authorized = authorized }))
  prepared-Runs e0 x lim s authorized before check mode (returned (some v)) =
      Post-pure _ (nothing refl)
  prepared-Runs e0 x lim s authorized before check mode interrupted = Post-pure _ (nothing refl)
  prepared-Runs e0 x lim s authorized before check mode overdue = Post-pure _ (nothing refl)
  prepared-Runs e0 x lim s authorized before check mode (failed m) = Post-pure _ (nothing refl)

  -- A preparation leaves the trail and the launches alone.
  record Prepares (s t : State) : Type 0 where
    pub same_trail : t.audit ≡ s.audit
    pub same_launches : t.launches ≡ s.launches

  run_preparation-Prepares :
      (prepare : Activity) (s : State)
      → Post
          (λ _ t. Prepares s t)
          (Withheld env call digest s)
          (run_preparation env call digest prepare)
          s
  unfolding run_preparation
  run_preparation-Prepares prepare s = record {
    ends = going (record { same_trail = refl; same_launches = refl });
  }

  behind_preparation :
      (e0 x : Option ℕ)
      → Limits e0 x
      → (s t : State) → Exists (Authorizes env call digest) s.audit.events
      → Prepares s t
      → (before : Decision) (check : Option ℕ) (mode : PermissionMode) (reply : Reply)
      → Post
          (λ _ u. Runs env call digest e0 s.launches u.launches)
          (Withheld env call digest s)
          (prepared env call digest before x check mode reply)
          t
  behind_preparation e0 x lim s t authorized p before check mode reply =
      Post-ended (Refused-Withheld env call digest s t p.same_launches) (
        Post-weaken
          (λ _ u h.
            subst (λ (xs : List LaunchEvent). Runs env call digest e0 xs u.launches) p.same_launches
              h)
          (prepared-Runs e0 x lim t
            (subst (λ (log : AuditLog). Exists (Authorizes env call digest) log.events)
              (sym p.same_trail) authorized)
            before check mode reply))

  launch_by-Runs :
      (e0 x : Option ℕ)
      → Limits e0 x
      → (s : State) → Launchable env call digest s
      → (before : Decision) (preparation : Option Activity)
      → Post
          (λ _ t. Runs env call digest e0 s.launches t.launches)
          (Withheld env call digest s)
          (launch_by env call digest preparation before x)
          s
  unfolding launch_by
  launch_by-Runs e0 x lim s h before none =
      Post-ended (Refused-Withheld env call digest s s refl)
        (start-Runs env call digest e0 x lim s h)
  launch_by-Runs e0 x lim s h before (some prepare) = Post-gets _ _ (
      Post-gets _ _ (
        Post-bind (λ _ t. Prepares s t) (run_preparation-Prepares prepare s)
          λ reply t p. behind_preparation e0 x lim s t h.authorized p before _ _ reply))

  -- A launch starts the operation at most once, soundly.
  pub launch-Runs :
      (e0 x : Option ℕ)
      → Limits e0 x
      → (s : State) → Launchable env call digest s
      → (before : Decision)
      → Post
          (λ _ t. Runs env call digest e0 s.launches t.launches)
          (Withheld env call digest s)
          (launch env call digest before x)
          s
  unfolding launch
  launch-Runs e0 x lim s h before = launch_by-Runs e0 x lim s h before call.preparation
