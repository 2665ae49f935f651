-- ===== src/Runtime/Coordinator/Started.antt =====
-- What a launch in runtime/coordinator.py starts, and in which state.
use decode.Prelude.{
  ℕ, ◌+◌, ◌<◌, ◌≡◌, ◌≢◌, refl, ap, ◌∙◌, String, Bool, true, false, not, Option, none, some, List,
  [], ◌∷◌, ◌++◌, arith, Exists, is_empty, eq_iff, if◌then◌else◌,
}
use decode.Governance.{Decision, allow, needs_approval, deny, PermissionMode, AuditLog}
use decode.Governance.Gate.{Evaluation}
use decode.Runtime.Request.{material, resolved_action_error}
use decode.Runtime.Coordinator.Effects.{Env, Call, State, LaunchEvent, CoordinatedResult}
use decode.Runtime.Coordinator.Guards.{is_unchanged, approval_digest, restriction}
use decode.Runtime.Coordinator.Launch.{
  start, check_expiry, run_operation, check_again, decide_again, handle_again, compare_decision,
  preparation_error, block,
}
use decode.Runtime.Coordinator.Quiet.{
  Post, going, Post-then, Post-gets, Post-clock, Post-pure, Post-when, Post-weaken, Untouched,
  Untouched-refl, Refused, finish-Refused, telemetry_unavailable-Refused,
}
use decode.Runtime.Coordinator.Decided.{Silent, evaluation, evaluation-Silent}
use decode.Runtime.Coordinator.Approved.{Limits}
use decode.Runtime.Coordinator.Ready.{Authorizes}

-- The last reading of the clock lies before the expiry.
abbrev pub InTime : Env → Option ℕ → ℕ → Type 0
InTime env none reads = Unit
InTime env (some expiry) reads = (n : ℕ) × (reads ≡ n + 1) × (env.now n < expiry)

-- A reason that is there only if the test holds.
test_failed :
    (b : Bool) (t e : String)
    → is_empty t ≡ false
    → is_empty (if b then t else e) ≡ true
    → b ≡ false
test_failed true t e full h = cc
test_failed false t e full h = refl

not-false : (b : Bool) → not b ≡ false → b ≡ true
not-false true h = refl
not-false false h = cc

module _ (env : Env) (call : Call) (digest : String) where
  -- A launch of the request that was decided on, behind its line in the trail, before its expiry.
  pub record Sound (expiry : Option ℕ) (e : LaunchEvent) : Type 0 where
    pub decided_on : env.hash (material e.request) ≡ digest
    pub consistent : is_empty (resolved_action_error e.request) ≡ true
    pub authorized : Exists (Authorizes env call digest) e.trail
    pub in_time : InTime env expiry e.reads

  -- No launch, or one sound launch.
  pub data Runs (expiry : Option ℕ) (before after : List LaunchEvent) : Type 0 where
    nothing : after ≡ before → Runs expiry before after
    once : (e : LaunchEvent) → Sound expiry e → after ≡ before ++ e ∷ [] → Runs expiry before after

  -- The call ends without success, a value, or a launch.
  pub record Withheld (s0 : State) (r : CoordinatedResult) (s : State) : Type 0 where
    pub unsuccessful : r.success ≡ false
    pub valueless : r.value ≡ none
    pub no_launch : s.launches ≡ s0.launches

  pub Refused-Withheld :
      (s0 s : State)
      → s.launches ≡ s0.launches
      → (r : CoordinatedResult) (t : State) → Refused s r t
      → Withheld s0 r t
  Refused-Withheld s0 s e r t h = record {
    unsuccessful = h.unsuccessful;
    valueless = h.valueless;
    no_launch = h.untouched.same_launches ∙ e;
  }

  -- What a launch needs of the state in which it starts.
  pub record Launchable (s : State) : Type 0 where
    pub unchanged : is_unchanged env call digest s ≡ true
    pub authorized : Exists (Authorizes env call digest) s.audit.events

  is_unchanged-same :
      (s : State)
      → is_unchanged env call digest s ≡ true
      → (env.hash (material s.shared.request) ≡ digest)
        × (is_empty (resolved_action_error s.shared.request) ≡ true)
  unfolding is_unchanged approval_digest
  is_unchanged-same s h = (
    ground (arith, eq_iff (env.hash (material s.shared.request)) digest),
    ground (arith, eq_iff (env.hash (material s.shared.request)) digest),
  )

  abbrev event_of : State → LaunchEvent
  event_of s = record { request = s.shared.request; trail = s.audit.events; reads = s.clock_reads }

  launched :
      (s : State)
      → Launchable s
      → (e0 : Option ℕ) → InTime env e0 s.clock_reads
      → Sound e0 (event_of s)
  launched s h e0 early =
      let same = is_unchanged-same s h.unchanged in
      record {
        decided_on = same.0;
        consistent = same.1;
        authorized = h.authorized;
        in_time = early;
      }

  run_operation-Runs :
      (s : State)
      → Launchable s
      → (e0 : Option ℕ) → InTime env e0 s.clock_reads
      → (s0 : State) → s.launches ≡ s0.launches
      → Post (λ _ t. Runs e0 s0.launches t.launches) (Refused s0) (run_operation env call digest) s
  unfolding run_operation
  run_operation-Runs s h e0 early s0 same = record {
    ends = going (
        once _ (launched s h e0 early)
          (ap (λ (xs : List LaunchEvent). xs ++ event_of s ∷ []) same));
  }

  start_untimed :
      (s : State)
      → Launchable s
      → Post (λ _ t. Runs none s.launches t.launches) (Refused s) (start env call digest none) s
  unfolding start check_expiry
  start_untimed s h =
      Post-then (λ _ t. t ≡ s) (Post-pure _ refl)
        λ _ t e. rw e (run_operation-Runs s h none tt s refl)

  Launchable-clock :
      (s : State) → Launchable s → Launchable (record s { clock_reads = s.clock_reads + 1 })
  unfolding is_unchanged approval_digest
  Launchable-clock s h = record { unchanged = h.unchanged; authorized = h.authorized }

  start_timed :
      (e0 : Option ℕ) (x : ℕ) (s : State)
      → (env.now s.clock_reads < x → InTime env e0 (s.clock_reads + 1))
      → Launchable s
      → Post (λ _ t. Runs e0 s.launches t.launches) (Refused s) (start env call digest (some x)) s
  unfolding start check_expiry
  start_timed e0 x s early h =
      Post-then
        (λ _ t. (t ≡ record s { clock_reads = s.clock_reads + 1 }) × (env.now s.clock_reads < x))
        (Post-clock env _ (
          Post-when _
            (finish-Refused env call digest _ _ _ _
              (record { same_launches = refl; same_preparations = refl }))
            λ e. (refl, ground arith)))
        λ _ t (e, now). rw e (run_operation-Runs _ (Launchable-clock s h) e0 (early now) s refl)

  -- The start meets the expiry that it was given, and so every later one.
  pub start-Runs :
      (e0 x : Option ℕ)
      → Limits e0 x
      → (s : State) → Launchable s
      → Post (λ _ t. Runs e0 s.launches t.launches) (Refused s) (start env call digest x) s
  start-Runs none none lim s h = start_untimed s h
  start-Runs (some e) none lim s h = absurd lim
  start-Runs none (some x) lim s h = start_timed none x s (λ _. tt) h
  start-Runs (some e) (some x) lim s h =
      start_timed (some e) x s (λ now. (s.clock_reads, refl, omega arith)) h

  -- A block ends the call unless it has no reason.
  block-Passes :
      (reason : String) (s : State)
      → Post
          (λ _ t. (t ≡ s) × (is_empty reason ≡ true))
          (Refused s)
          (block env call digest reason)
          s
  block-Passes reason s =
      Post-when _ (finish-Refused env call digest _ _ _ _ (Untouched-refl s))
        (λ e. (refl, ground arith))

  -- The second decision goes on in the state in which it was made, or ends the call.
  compare-Passes :
      (s t : State) (before d : Decision) (reason : String)
      → (d ≢ deny → t ≡ s)
      → Untouched s t
      → Post (λ _ u. u ≡ s) (Refused s) (compare_decision env call digest before d reason) t
  unfolding compare_decision
  compare-Passes s t before deny reason same h = finish-Refused env call digest _ _ _ _ h
  compare-Passes s t before allow reason same h = Post-pure _ (same (λ x. cc))
  compare-Passes s t needs_approval needs_approval reason same h = Post-pure _ (same (λ x. cc))
  compare-Passes s t allow needs_approval reason same h =
      rw (same (λ x. cc)) (Post-weaken (λ _ u e. e.0) (block-Passes _ s))
  compare-Passes s t deny needs_approval reason same h =
      rw (same (λ x. cc)) (Post-weaken (λ _ u e. e.0) (block-Passes _ s))

  handle_again-Passes :
      (s : State) (before : Decision) (r : Evaluation)
      → Silent s.audit r
      → Post
          (λ _ u. u ≡ s)
          (Refused s)
          (handle_again env call digest before r.0)
          (record s { audit = r.1 })
  unfolding handle_again
  handle_again-Passes s before (none, log) h =
      telemetry_unavailable-Refused env call digest
        (record { same_launches = refl; same_preparations = refl })
  handle_again-Passes s before (some d, log) h =
      compare-Passes s _ before d.decision d.reason
        (λ other. ap (λ (l : AuditLog). record s { audit = l }) (h other))
        (record { same_launches = refl; same_preparations = refl })

  decide_again-Passes :
      (s : State) (before : Decision)
      → Post (λ _ u. u ≡ s) (Refused s) (decide_again env call digest before) s
  unfolding decide_again decode.Runtime.Coordinator.Guards.ask_gate
  decide_again-Passes s before = record {
    ends = (handle_again-Passes s before (evaluation env s) (evaluation-Silent env s)).ends;
  }

  is_unchanged-error :
      (check : Option ℕ) (mode : PermissionMode) (s : State)
      → is_empty (preparation_error env call digest check mode s) ≡ true
      → is_unchanged env call digest s ≡ true
  unfolding preparation_error
  is_unchanged-error check mode s h =
      not-false _ (test_failed (not (is_unchanged env call digest s)) _ _ refl h)

  pub check_again-Launchable :
      (s : State) (before : Decision) (check : Option ℕ) (mode : PermissionMode)
      → Post
          (λ _ u. (u ≡ s) × (is_unchanged env call digest s ≡ true))
          (Refused s)
          (check_again env call digest before check mode)
          s
  unfolding check_again preparation_error
  check_again-Launchable s before check mode = Post-gets _ _ (
      Post-then (λ _ t. (t ≡ s) × (is_unchanged env call digest s ≡ true))
        (Post-weaken (λ _ t e. (e.0, is_unchanged-error check mode s e.1))
          (block-Passes (preparation_error env call digest check mode s) s))
        λ _ t (e, u). rw e (Post-weaken (λ _ v e'. (e', u)) (decide_again-Passes s before)))
