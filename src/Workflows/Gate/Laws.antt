-- ===== src/Workflows/Gate/Laws.antt =====
-- What a result that passes the gate of workflows/models.py has.
use decode.Prelude.{
  ℕ, ◌≤◌, ◌≡◌, refl, String, Bool, true, false, not, ◌&&◌, Option, List, [], ◌∷◌, any, keep,
  is_empty, is_nonempty, ltb, All, Exists, ◌⊎◌, inl, inr, Bool-cases, arith,
}
use decode.Prelude.Text.{strip}
use decode.Schema.ActiveNode.{ActiveObservation}
use decode.Workflows.Gate.{
  StageResult, WorkflowGate, has_path, has_digest, has_size_if, is_given, trusted, observations_of,
  has_protected, is_file_read, file_reads, messages, expected_path_hash, tests, check,
}

-- Where there is no message, no test held.
none_held :
    (rows : List (Bool × String))
    → is_nonempty (messages rows) ≡ false
    → All (λ row. row.0 ≡ false) rows
none_held [] h = tt
none_held ((true, m) ∷ rows) h = cc
none_held ((false, m) ∷ rows) h = (refl, none_held rows h)

Exists-file_reads :
    (test : ActiveObservation → Bool) (os : List ActiveObservation)
    → any test (file_reads os) ≡ true
    → Exists (λ o. (is_file_read o ≡ true) × (test o ≡ true)) os
Exists-file_reads test [] h = cc
Exists-file_reads test (o ∷ os) h = elim (Bool-cases (is_file_read o)) [
  | inr skipped ↦ inr (Exists-file_reads test os (rw (keep, skipped) at h))
  | inl kept ↦ elim (Bool-cases (test o)) [
    | inl ok ↦ inl (kept, ok)
    | inr bad ↦ inr (Exists-file_reads test os (rw (keep, kept, any, bad) at h))
  ]
]

unless : (a b : Bool) → (a && not b) ≡ false → (a ≡ false) ⊎ (b ≡ true)
unless a b h = ground arith

unless_empty : (a b : Bool) → (not a && not b) ≡ false → (a ≡ true) ⊎ (b ≡ true)
unless_empty a b h = ground arith

unless_both : (a b c : Bool) → (not a && b && not c) ≡ false → (a ≡ true) ⊎ (b ≡ false) ⊎ (c ≡ true)
unless_both a b c h = ground arith

empty_or : (a b : Bool) → (a && b) ≡ false → (a ≡ false) ⊎ (b ≡ false)
empty_or a b h = ground arith

negated : (b : Bool) → not b ≡ true → b ≡ false
negated true h = cc
negated false h = refl

negated_false : (b : Bool) → not b ≡ false → b ≡ true
negated_false true h = refl
negated_false false h = cc

not_below : (a b : ℕ) → ltb b a ≡ false → a ≤ b
not_below a b h = ground arith

module _ (file_path_fingerprint : String → String) where
  -- What the gate asks for. A file that is expected was read, in one protected observation, at the path
  -- that is expected, with the digest and the size that are.
  pub record IsPassed (gate : WorkflowGate) (result : StageResult)
      (given : Option (List ActiveObservation)) : Type 0 where
    pub succeeded : result.success ≡ true
    pub final_ : (gate.require_final ≡ false) ⊎ (is_empty (strip result.final) ≡ false)
    pub acted : gate.min_successful_actions ≤ result.successful_actions
    pub evidenced :
        (gate.require_evidence ≡ false) ⊎ (has_protected result (trusted result given) ≡ true)
    pub digested :
        (is_empty gate.expected_file_sha256 ≡ true)
        ⊎ Exists
            (λ o. (is_file_read o ≡ true) × (has_digest gate.expected_file_sha256 o ≡ true))
            (observations_of (trusted result given))
    pub sized :
        (is_given gate.expected_file_size_bytes ≡ false)
        ⊎ Exists
            (λ o. (is_file_read o ≡ true) × (has_size_if gate.expected_file_size_bytes o ≡ true))
            (observations_of (trusted result given))
    pub sized_together :
        (is_empty gate.expected_file_sha256 ≡ true)
        ⊎ (is_given gate.expected_file_size_bytes ≡ false)
        ⊎ Exists
            (λ o.
              (is_file_read o ≡ true)
              × ((has_digest gate.expected_file_sha256 o
                    && has_size_if gate.expected_file_size_bytes o)
                  ≡ true))
            (observations_of (trusted result given))
    pub together :
        (is_empty (expected_path_hash file_path_fingerprint gate) ≡ true)
        ⊎ Exists
            (λ o.
              (is_file_read o ≡ true)
              × ((has_path (expected_path_hash file_path_fingerprint gate) o
                    && has_digest gate.expected_file_sha256 o
                    && has_size_if gate.expected_file_size_bytes o)
                  ≡ true))
            (observations_of (trusted result given))

  -- A result that passes the gate succeeded, has a final text, enough actions and protected evidence where
  -- the gate requires them, and an expected file was read in one protected observation that has its path,
  -- digest and size together.
  pub check-IsPassed :
      (gate : WorkflowGate) (result : StageResult) (given : Option (List ActiveObservation))
      → (check file_path_fingerprint gate result given).0 ≡ true
      → IsPassed gate result given
  unfolding check tests
  check-IsPassed gate result given h =
      let os = observations_of (trusted result given) in
      let (
        success,
        (final_text, (actions, (evidence, (path, (digest, (size, (both, (all_three, _)))))))),
      ) =
        none_held (tests file_path_fingerprint gate result (trusted result given)) (negated _ h) in
      record {
        succeeded = negated_false result.success success;
        final_ = empty_or gate.require_final (is_empty (strip result.final)) final_text;
        acted = not_below gate.min_successful_actions result.successful_actions actions;
        evidenced =
            unless gate.require_evidence (has_protected result (trusted result given)) evidence;
        digested = elim (unless_empty (is_empty gate.expected_file_sha256) _ digest) [
          | inl e ↦ inl e
          | inr e ↦ inr (Exists-file_reads (has_digest gate.expected_file_sha256) os e)
        ];
        sized = elim (unless (is_given gate.expected_file_size_bytes) _ size) [
          | inl e ↦ inl e
          | inr e ↦ inr (Exists-file_reads (has_size_if gate.expected_file_size_bytes) os e)
        ];
        sized_together =
            elim (unless_both (is_empty gate.expected_file_sha256)
              (is_given gate.expected_file_size_bytes) _ both) [
                | inl e ↦ inl e
                | inr (inl e) ↦ inr (inl e)
                | inr (inr e) ↦ inr (inr (Exists-file_reads _ os e))
              ];
        together =
            elim (unless_empty (is_empty (expected_path_hash file_path_fingerprint gate)) _
              all_three) [ inl e ↦ inl e | inr e ↦ inr (Exists-file_reads _ os e) ];
      }
