-- ===== src/Runtime/Coordinator/Approved.antt =====
-- What holds behind the approval phase of runtime/coordinator.py.
use decode.Prelude.{
  ℕ, ◌+◌, ◌≤◌, ◌≡◌, refl, sym, ◌∙◌, String, true, Option, none, some, arith, subst, Bool-cases, inl,
  inr, str_eq,
}
use decode.Governance.{Decision, allow, needs_approval, deny}
use decode.Runtime.Coordinator.Effects.{
  Env, Call, State, ApprovalRequest, ApprovalGrant, Answer, raised, accepted, rejected, other,
  grant, Shared, gets,
}
use decode.Runtime.Coordinator.Guards.{
  approval_digest, check_approval, approve, approve_by, request_approval, check_grant, read_answer,
  run_callback, approval_request,
}
use decode.Runtime.Coordinator.Quiet.{
  Post, going, Post-bind, Post-gets, Post-clock, Post-pure, Post-guard, Post-weaken, Untouched,
  Untouched-refl, Untouched-trans, Refused, finish-Refused,
}

-- Nothing is started and nothing is written; what the callback shares may have changed.
pub record Kept (s t : State) : Type 0 where
  pub untouched : Untouched s t
  pub same_trail : t.audit ≡ s.audit

pub Kept-refl : (s : State) → Kept s s
Kept-refl s = record { untouched = Untouched-refl s; same_trail = refl }

pub Kept-trans : {s t u : State} → Kept s t → Kept t u → Kept s u
Kept-trans h k = record {
  untouched = Untouched-trans h.untouched k.untouched;
  same_trail = k.same_trail ∙ h.same_trail;
}

pub Kept-clock : (s : State) → Kept s (record s { clock_reads = s.clock_reads + 1 })
Kept-clock s = record {
  untouched = record { same_launches = refl; same_preparations = refl };
  same_trail = refl;
}

-- An approval's expiry is at most the request's.
abbrev pub Within : ℕ → Option ℕ → Type 0
Within expires none = ⊥
Within expires (some t) = t ≤ expires

-- The expiry that the launch has to meet is no later than the request's, if it has one.
abbrev pub Limits : Option ℕ → Option ℕ → Type 0
Limits none x = Unit
Limits (some e) x = Within e x

module _ (env : Env) (call : Call) (digest : String) where
  abbrev pub Granted : State → ℕ → Option ℕ → State → Type 0
  Granted s0 expires x t =
      Kept s0 t × Within expires x × ((str_eq (approval_digest env t) digest) ≡ true)

  -- The answer is a consent to this digest.
  abbrev pub Agrees : Answer → Type 0
  Agrees accepted = Unit
  Agrees (grant g) = str_eq g.digest digest ≡ true
  Agrees _ = ⊥

  -- The callback is there and has consented to a request with this digest.
  abbrev pub Consents : Option (ApprovalRequest → Shared → Answer × Shared) → Type 0
  Consents none = ⊥
  Consents (some ask) =
      (r : ApprovalRequest) × (shared : Shared) × (r.digest ≡ digest) × Agrees (ask r shared).0

  check_grant-Granted :
      (s0 s : State) (expires : ℕ) (g : ApprovalGrant)
      → Kept s0 s
      → Post (Granted s0 expires) (Refused s0) (check_grant env call digest expires g) s
  unfolding check_grant
  check_grant-Granted s0 s expires g h =
      let k = Kept-trans h (Kept-clock s) in
      Post-clock env _ (
        Post-guard _ (finish-Refused env call digest _ _ _ _ k.untouched) λ _. Post-gets _ _ (
          Post-guard _ (finish-Refused env call digest _ _ _ _ k.untouched)
            λ e. Post-pure _ (k, omega arith, ground arith)))

  read_answer_grant :
      (s0 s : State) (expires : ℕ) (g : ApprovalGrant)
      → Kept s0 s
      → str_eq g.digest digest ≡ true
      → Post
          (λ _ t. Kept s0 t × Agrees (grant g))
          (Refused s0)
          (read_answer env call digest expires (grant g))
          s
  unfolding read_answer
  read_answer_grant s0 s expires g h e = rw e (Post-pure _ (h, refl))

  read_answer-Kept :
      (s0 s : State) (expires : ℕ) (answer : Answer)
      → Kept s0 s
      → Post
          (λ g t. Kept s0 t × Agrees answer)
          (Refused s0)
          (read_answer env call digest expires answer)
          s
  unfolding read_answer
  read_answer-Kept s0 s expires raised h = finish-Refused env call digest _ _ _ _ h.untouched
  read_answer-Kept s0 s expires rejected h = finish-Refused env call digest _ _ _ _ h.untouched
  read_answer-Kept s0 s expires other h = finish-Refused env call digest _ _ _ _ h.untouched
  read_answer-Kept s0 s expires accepted h =
      Post-clock env _ (Post-pure _ (Kept-trans h (Kept-clock s), tt))
  read_answer-Kept s0 s expires (grant g) h = elim (Bool-cases (str_eq g.digest digest)) [
    | inl e ↦ read_answer_grant s0 s expires g h e
    | inr e ↦ rw e (finish-Refused env call digest _ _ _ _ h.untouched)
  ]

  run_callback-Kept :
      (s0 s : State) (ask : ApprovalRequest → Shared → Answer × Shared) (r : ApprovalRequest)
      → Kept s0 s
      → Post
          (λ answer t. Kept s0 t × ((ask r s.shared).0 ≡ answer))
          (Refused s0)
          (run_callback env call digest ask r)
          s
  unfolding run_callback
  run_callback-Kept s0 s ask r h = record {
    ends = going (
      record {
        untouched = record {
          same_launches = h.untouched.same_launches;
          same_preparations = h.untouched.same_preparations;
        };
        same_trail = h.same_trail;
      },
      refl,
    );
  }

  pub request_approval-Granted :
      (s : State) (ask : ApprovalRequest → Shared → Answer × Shared) (expires : ℕ)
      → Post
          (λ x t. Granted s expires x t × Consents (some ask))
          (Refused s)
          (request_approval env call digest ask expires)
          s
  unfolding request_approval
  request_approval-Granted s ask expires =
      let k = Kept-clock s in
      let r = approval_request env call digest s.shared.request expires in
      Post-clock env _ (
        Post-guard _ (finish-Refused env call digest _ _ _ _ k.untouched) λ _. Post-gets _ _ (
          Post-bind (λ answer t. Kept s t × ((ask r s.shared).0 ≡ answer))
            (run_callback-Kept s _ ask r k)
            λ answer t (h, e).
              Post-bind (λ _ u. Kept s u × Agrees answer) (read_answer-Kept s t expires answer h)
                λ g u (h', agrees).
                  Post-weaken
                    (λ x v granted. (granted, (r, s.shared, refl, subst Agrees (sym e) agrees)))
                    (check_grant-Granted s u expires g h')))

  abbrev pub Approved : State → Decision → Option ℕ → State → Type 0
  Approved s d x t =
      Kept s t
      × Limits s.shared.request.approval_expires_at x
      × (d ≡ needs_approval → Consents call.approval)

  approve_by-Approved :
      (s : State) (ask : Option (ApprovalRequest → Shared → Answer × Shared)) (e : Option ℕ)
      → Post
          (λ x t. Kept s t × Limits e x × Consents ask)
          (Refused s)
          (approve_by env call digest ask e)
          s
  unfolding approve_by
  approve_by-Approved s none e = finish-Refused env call digest _ _ _ _ (Untouched-refl s)
  approve_by-Approved s (some ask) none = finish-Refused env call digest _ _ _ _ (Untouched-refl s)
  approve_by-Approved s (some ask) (some e) =
      Post-weaken (λ x t h. (h.0.0, h.0.1, h.1)) (request_approval-Granted s ask e)

  Limits-self : (e : Option ℕ) → Limits e e
  Limits-self none = tt
  Limits-self (some e) = omega arith

  pub check_approval-Approved :
      (s : State) (d : Decision)
      → Post (Approved s d) (Refused s) (check_approval env call digest d) s
  unfolding check_approval approve gets
  check_approval-Approved s needs_approval = Post-gets _ _ (
      Post-weaken (λ x t h. (h.0, h.1, λ _. h.2))
        (approve_by-Approved s call.approval s.shared.request.approval_expires_at))
  check_approval-Approved s allow = record {
    ends = going (Kept-refl s, Limits-self s.shared.request.approval_expires_at, λ e. cc);
  }
  check_approval-Approved s deny = record {
    ends = going (Kept-refl s, Limits-self s.shared.request.approval_expires_at, λ e. cc);
  }
