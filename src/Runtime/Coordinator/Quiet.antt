-- ===== src/Runtime/Coordinator/Quiet.antt =====
-- Postconditions of the steps of runtime/coordinator.py, and the steps that start nothing.
use decode.Prelude.{
  ℕ, ◌≡◌, refl, ◌+◌, ◌∙◌, String, Bool, true, false, none, some, arith, Bool-cases, inl, inr,
}
use decode.Runtime.Request.{ExecutionStatus, ErrorCategory}
use decode.Runtime.Coordinator.Effects.{
  safe_text, Env, Call, State, Exit, go, stop, Step, and_then, ◌>>=◌, ◌>>◌, pure, gets, when,
  read_clock, CoordinatedResult,
}
use decode.Runtime.Coordinator.Recorders.{
  finish, telemetry_unavailable, terminal_result, record_terminal, record_audit,
  record_non_audit_telemetry, degrade,
}

-- How a step has ended: `Q` where it goes on, `E` where it ends the call; no step in front of the
-- launch cancels.
pub data Ends {A : Type 0} (Q : A → State → Type 0) (E : CoordinatedResult → State → Type 0)
    : Exit A × State → Type 0 where
  going : {a : A} {s : State} → Q a s → Ends Q E (go a, s)
  ended : {r : CoordinatedResult} {s : State} → E r s → Ends Q E (stop r, s)

pub record Post {A : Type 0} (Q : A → State → Type 0) (E : CoordinatedResult → State → Type 0)
    (m : Step A) (s : State) : Type 0 where
  pub ends : Ends Q E (m s)

pub Post-weaken :
    {A : Type 0} {P Q : A → State → Type 0} {E : CoordinatedResult → State → Type 0} {m : Step A}
    {s : State}
    → ((a : A) (t : State) → P a t → Q a t)
    → Post P E m s
    → Post Q E m s
Post-weaken {A} {P} {Q} {E} {m} {s} f h = record { ends = weaken (m s) h.ends }
  where
    weaken : (r : Exit A × State) → Ends P E r → Ends Q E r
    weaken r (going q) = going (f _ _ q)
    weaken r (ended e) = ended e

pub Post-ended :
    {A : Type 0} {Q : A → State → Type 0} {D E : CoordinatedResult → State → Type 0} {m : Step A}
    {s : State}
    → ((r : CoordinatedResult) (t : State) → D r t → E r t)
    → Post Q D m s
    → Post Q E m s
Post-ended {A} {Q} {D} {E} {m} {s} f h = record { ends = weaken (m s) h.ends }
  where
    weaken : (r : Exit A × State) → Ends Q D r → Ends Q E r
    weaken r (going q) = going q
    weaken r (ended e) = ended (f _ _ e)

pub Post-bind :
    {A B : Type 0} (P : A → State → Type 0) {Q : B → State → Type 0}
    {E : CoordinatedResult → State → Type 0} {m : Step A} {f : A → Step B} {s : State}
    → Post P E m s
    → ((a : A) (t : State) → P a t → Post Q E (f a) t)
    → Post Q E (m >>= f) s
unfolding ◌>>=◌
Post-bind {A} {B} P {Q} {E} {m} {f} {s} h k = record { ends = go_on (m s) h.ends }
  where
    go_on : (r : Exit A × State) → Ends P E r → Ends Q E (and_then r.0 f r.1)
    go_on r (going q) = (k _ _ q).ends
    go_on r (ended e) = ended e

pub Post-then :
    {A B : Type 0} (P : A → State → Type 0) {Q : B → State → Type 0}
    {E : CoordinatedResult → State → Type 0} {m : Step A} {n : Step B} {s : State}
    → Post P E m s
    → ((a : A) (t : State) → P a t → Post Q E n t)
    → Post Q E (m >> n) s
unfolding ◌>>◌
Post-then P h k = Post-bind P h k

pub Post-gets :
    {A B : Type 0} {Q : B → State → Type 0} {E : CoordinatedResult → State → Type 0} (f : State → A)
    (k : A → Step B) {s : State}
    → Post Q E (k (f s)) s
    → Post Q E (gets f >>= k) s
unfolding ◌>>=◌ gets
Post-gets f k h = record { ends = h.ends }

pub Post-clock :
    {B : Type 0} {Q : B → State → Type 0} {E : CoordinatedResult → State → Type 0} (env : Env)
    (k : ℕ → Step B) {s : State}
    → Post Q E (k (env.now s.clock_reads)) (record s { clock_reads = s.clock_reads + 1 })
    → Post Q E (read_clock env >>= k) s
unfolding ◌>>=◌ read_clock
Post-clock env k h = record { ends = h.ends }

pub Post-pure :
    {A : Type 0} {Q : A → State → Type 0} {E : CoordinatedResult → State → Type 0} (a : A)
    {s : State}
    → Q a s
    → Post Q E (pure a) s
unfolding pure
Post-pure a q = record { ends = going q }

-- A guard: where it does not end the call, its test has failed and nothing has changed.
pub Post-when :
    {Q : Unit {0} → State → Type 0} {E : CoordinatedResult → State → Type 0} (b : Bool)
    {m : Step (Unit {0})} {s : State}
    → Post Q E m s
    → (b ≡ false → Q tt s)
    → Post Q E (when b m) s
unfolding when
Post-when true h k = h
Post-when false h k = record { ends = going (k refl) }

pub Post-guard :
    {B : Type 0} {Q : B → State → Type 0} {E : CoordinatedResult → State → Type 0} (b : Bool)
    {m : Step (Unit {0})} {n : Step B} {s : State}
    → Post (λ _ _. ⊥) E m s
    → (b ≡ false → Post Q E n s)
    → Post Q E (when b m >> n) s
Post-guard b {m} {n} {s} h k =
    Post-then (λ _ t. (b ≡ false) × (t ≡ s))
      (Post-when b (Post-weaken (λ a t impossible. absurd impossible) h) (λ e. (e, refl)))
      (λ a t (e, same). rw same (k e))

-- Nothing has been prepared or launched since `s0`.
pub record Untouched (s0 s : State) : Type 0 where
  pub same_launches : s.launches ≡ s0.launches
  pub same_preparations : s.preparations ≡ s0.preparations

pub Untouched-refl : (s : State) → Untouched s s
Untouched-refl s = record { same_launches = refl; same_preparations = refl }

pub Untouched-trans : {s t u : State} → Untouched s t → Untouched t u → Untouched s u
Untouched-trans h k = record {
  same_launches = k.same_launches ∙ h.same_launches;
  same_preparations = k.same_preparations ∙ h.same_preparations;
}

-- The call has ended without success and without a value, and nothing was started.
pub record Refused (s0 : State) (r : CoordinatedResult) (s : State) : Type 0 where
  pub unsuccessful : r.success ≡ false
  pub valueless : r.value ≡ none
  pub untouched : Untouched s0 s

-- The recorders write to the trail, the log and the feedback store alone.
module _ (env : Env) (result : CoordinatedResult) where
  pub telemetry-Untouched : (s : State) → Untouched s (record_non_audit_telemetry env result s).1
  unfolding record_non_audit_telemetry
  telemetry-Untouched s = record { same_launches = ground arith; same_preparations = ground arith }

  pub record_terminal-Untouched :
      (audited executed : Bool) (s : State)
      → Untouched s (record_terminal env audited executed result s).1
  unfolding record_terminal record_audit
  record_terminal-Untouched audited executed s = record {
    same_launches = ground arith;
    same_preparations = ground arith;
  }

refused :
    {s0 s t : State} (r : CoordinatedResult)
    → r.success ≡ false
    → r.value ≡ none
    → Untouched s0 s
    → Untouched s t
    → Refused s0 r t
refused r bad empty h k = record {
  unsuccessful = bad;
  valueless = empty;
  untouched = Untouched-trans h k;
}

module _ (env : Env) (call : Call) (digest : String) {A : Type 0} {Q : A → State → Type 0} where
  pub finish-Refused :
      (status : ExecutionStatus) (category : ErrorCategory) (message : String) (audited : Bool)
      {s0 s : State}
      → Untouched s0 s
      → Post Q (Refused s0) (finish env call digest {A = A} status category message audited) s
  unfolding finish
  finish-Refused status category message audited {s0} {s} h =
      let refusal =
        terminal_result env call digest s status false (some category) (safe_text env message)
          none in
      let moved = record_terminal-Untouched env refusal audited false s in
      record {
        ends = elim (Bool-cases (record_terminal env audited false refusal s).0) [
          | inl kept ↦ rw kept (ended (refused refusal refl refl h moved))
          | inr lost ↦ rw lost (ended (refused (degrade refusal) refl refl h moved))
        ];
      }

  pub telemetry_unavailable-Refused :
      {s0 s : State}
      → Untouched s0 s
      → Post Q (Refused s0) (telemetry_unavailable env call digest {A = A}) s
  unfolding telemetry_unavailable
  telemetry_unavailable-Refused {s0} {s} h =
      let result =
        terminal_result env call digest s ExecutionStatus.error false
          (some ErrorCategory.telemetry_failure)
          "mandatory audit service is unavailable; execution was not started" none in
      record { ends = ended (refused result refl refl h (telemetry-Untouched env result s)) }
