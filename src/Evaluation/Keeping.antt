-- ===== src/Evaluation/Keeping.antt =====
-- What every method of the evaluation store keeps (src/commerce_agent/evaluation/_memory.py).
use mathlib.Core.Path.{subst}
use commerce_analyst_agent.Prelude.{
  ◌≡◌, refl, sym, ap, ◌∙◌, String, true, none, some, inl, inr, arith, Option, Option-cases,
  Bool-cases, nat_eq, string_eq, pair_eq, any, not, ◌||◌, ◌&&◌,
}
use commerce_analyst_agent.Prelude.Dict.{get, put, values, get-put_cases, get-put_self}
use commerce_analyst_agent.Operations.Contracts.{Instant, Uuid}
use commerce_analyst_agent.Evaluation.{
  AttemptRecord, EpisodeResult, EvalTaskStatus, EvaluationStore, finish_attempt, is_running,
  is_pending, is_some, same_sequence, is_succeeded, is_terminal, mark_running, mode_eq, put_result,
  record_result, register_attempt, register_experiment, merge_telemetry,
}

module _ {T : Type 0} where
  pub record IsSound (s : EvaluationStore T) : Type 0 where
    -- An attempt stands under its own identity.
    pub keyed : (k : Uuid) (r : AttemptRecord T) → get s.attempts k ≡ some r → r.attempt_id ≡ k
    -- Only an attempt that succeeded has a result.
    pub earned :
        (k : Uuid) (e : EpisodeResult)
        → get s.results k ≡ some e
        → (r : AttemptRecord T) × (get s.attempts k ≡ some r)
          × (r.status ≡ EvalTaskStatus.succeeded)

  -- What no operation undoes: an attempt that succeeded or failed, and a recorded result.
  pub record Keeps (s t : EvaluationStore T) : Type 0 where
    pub settled :
        (k : Uuid) (r : AttemptRecord T)
        → get s.attempts k ≡ some r
        → is_terminal r.status ≡ true
        → (q : AttemptRecord T) × (get t.attempts k ≡ some q) × (q.status ≡ r.status)
    pub results :
        (k : Uuid) (e : EpisodeResult) → get s.results k ≡ some e → get t.results k ≡ some e

  abbrev pub Good : EvaluationStore T → EvaluationStore T → Type 0
  Good s t = IsSound t × Keeps s t

  pub unchanged : (s : EvaluationStore T) → IsSound s → Good s s
  unchanged s sound = (sound, record { settled = λ k r h _. (r, h, refl); results = λ k e h. h })

  -- Writing an attempt under its identity is good where no settled attempt's status changes by it.
  module _ (s : EvaluationStore T) (sound : IsSound s) (new : AttemptRecord T)
      (kept : (old : AttemptRecord T)
        → get s.attempts new.attempt_id ≡ some old
        → is_terminal old.status ≡ true
        → new.status ≡ old.status) where
    abbrev written : EvaluationStore T
    written = record s { attempts = put s.attempts new.attempt_id new }

    write_keyed :
        (k : Uuid) (r : AttemptRecord T) → get written.attempts k ≡ some r → r.attempt_id ≡ k
    write_keyed k r h = elim (get-put_cases s.attempts new.attempt_id new k) [
      | inl (e, f) ↦ ground arith
      | inr (n, f) ↦ sound.keyed k r (sym f ∙ h)
    ]

    write_settled :
        (k : Uuid) (r : AttemptRecord T)
        → get s.attempts k ≡ some r
        → is_terminal r.status ≡ true
        → (q : AttemptRecord T) × (get written.attempts k ≡ some q) × (q.status ≡ r.status)
    write_settled k r h done = elim (get-put_cases s.attempts new.attempt_id new k) [
      | inl (e, f) ↦ (new, f, kept r (ap (get s.attempts) e ∙ h) done)
      | inr (n, f) ↦ (r, f ∙ h, refl)
    ]

    write_earned :
        (k : Uuid) (e : EpisodeResult)
        → get s.results k ≡ some e
        → (r : AttemptRecord T) × (get written.attempts k ≡ some r)
          × (r.status ≡ EvalTaskStatus.succeeded)
    write_earned k e h =
        let r = sound.earned k e h in
        let q = write_settled k r.0 r.1 (ap is_terminal r.2) in (q.0, q.1, q.2 ∙ r.2)

    write-Good : Good s written
    write-Good = (
      record { keyed = write_keyed; earned = write_earned },
      record { settled = write_settled; results = λ k e h. h },
    )

  -- Recording a first result for an attempt that succeeded is good.
  record-Good :
      (s : EvaluationStore T) (k : Uuid) (result : EpisodeResult) (r : AttemptRecord T)
      → IsSound s
      → get s.attempts k ≡ some r
      → r.status ≡ EvalTaskStatus.succeeded
      → get s.results k ≡ none
      → Good s (record s { results = put s.results k result })
  record-Good s k result r sound here won fresh = (
    record {
      keyed = sound.keyed;
      earned = λ j e h. elim (get-put_cases s.results k result j) [
        | inl (same, f) ↦ (r, ap (get s.attempts) (sym same) ∙ here, won)
        | inr (n, f) ↦ sound.earned j e (sym f ∙ h)
      ];
    },
    record {
      settled = λ j q h _. (q, h, refl);
      results = λ j e h. elim (get-put_cases s.results k result j) [
        | inl (same, f) ↦ absurd (cc (ap (get s.results) same, fresh, h))
        | inr (n, f) ↦ f ∙ h
      ];
    },
  )

  pub both : (s t u : EvaluationStore T) → Good s t → Good t u → Good s u
  both s t u (_, first) (sound, second) = (
    sound,
    record {
      settled = λ k r h done.
          let q = first.settled k r h done in
          let w = second.settled k q.0 q.1 (ap is_terminal q.2 ∙ done) in (w.0, w.1, w.2 ∙ q.2);
      results = λ k e h. second.results k e (first.results k e h);
    },
  )

  at : (s t u : EvaluationStore T) → t ≡ u → Good s u → Good s t
  at s t u e good = subst (λ v. Good s v) (sym e) good

  pub register_experiment-Good :
      (s : EvaluationStore T) (i p c : String) → IsSound s → Good s (register_experiment i p c s).1
  unfolding register_experiment
  register_experiment-Good s i p c sound = elim (Option-cases (get s.experiments i)) [
    | inl fresh ↦
        at s _ (record s { experiments = put s.experiments i (p, c) }) (ground arith)
          (
            record { keyed = sound.keyed; earned = sound.earned },
            record { settled = λ k r h _. (r, h, refl); results = λ k e h. h },
          )
    | inr (existing, there) ↦ at s _ s (ground arith) (unchanged s sound)
  ]

  pub register_attempt-Good :
      (s : EvaluationStore T) (new : AttemptRecord T)
      → IsSound s
      → Good s (register_attempt new s).1
  unfolding register_attempt
  register_attempt-Good s new sound = elim (Option-cases (get s.attempts new.attempt_id)) [
    | inr (old, e) ↦ at s _ s (ground arith) (unchanged s sound)
    | inl fresh ↦ elim (Bool-cases (any (same_sequence new) (values s.attempts))) [
      | inl taken ↦ at s _ s (ground arith) (unchanged s sound)
      | inr free ↦
          at s _ (written s sound new (λ old h _. cc (fresh, h))) (ground arith)
            (write-Good s sound new (λ old h _. cc (fresh, h)))
    ]
  ]

  pub mark_running-Good :
      (s : EvaluationStore T) (k : Uuid) (expected : EvalTaskStatus)
      → IsSound s
      → Good s (mark_running k expected s).1
  unfolding mark_running
  mark_running-Good s k expected sound = elim (Option-cases (get s.attempts k)) [
    | inl absent ↦ at s _ s (ground arith) (unchanged s sound)
    | inr (r, there) ↦ elim (Bool-cases (not (is_pending r.status) || not (is_pending expected))) [
      | inl refused ↦ at s _ s (ground arith) (unchanged s sound)
      | inr allowed ↦
          let kept : (old : AttemptRecord T)
              → get s.attempts r.attempt_id ≡ some old
              → is_terminal old.status ≡ true
              → EvalTaskStatus.running ≡ old.status =
            λ old h done. absurd (ground (arith, sound.keyed k r there)) in
          at s _ _ (ground arith)
            (write-Good s sound (record r { status = EvalTaskStatus.running }) kept)
    ]
  ]

  pub merge_telemetry-Good :
      {Patch : Type 0} (validate : T → Patch → Option T) (s : EvaluationStore T) (k : Uuid)
      (patch : Patch)
      → IsSound s
      → Good s (merge_telemetry validate k patch s).1
  unfolding merge_telemetry
  merge_telemetry-Good validate s k patch sound = elim (Option-cases (get s.attempts k)) [
    | inl absent ↦ at s _ s (ground arith) (unchanged s sound)
    | inr (r, there) ↦ elim (Option-cases (validate r.telemetry patch)) [
      | inl invalid ↦ at s _ s (ground arith) (unchanged s sound)
      | inr (merged, valid) ↦ at s _ _ (ground (arith, sound.keyed k r there)) (
          write-Good s sound (record r { telemetry = merged })
            (λ old h done. ground (arith, sound.keyed k r there)))
    ]
  ]

  pub record_result-Good :
      (s : EvaluationStore T) (k : Uuid) (result : EpisodeResult)
      → IsSound s
      → Good s (record_result k result s).1
  unfolding record_result
  record_result-Good s k result sound = elim (Option-cases (get s.attempts k)) [
    | inl absent ↦ at s _ s (ground arith) (unchanged s sound)
    | inr (r, there) ↦
        elim (Bool-cases (is_succeeded r.status && not (is_some (get s.results k)))) [
          | inr refused ↦ at s _ s (ground arith) (unchanged s sound)
          | inl allowed ↦
              at s _ _ (ground arith)
                (record-Good s k result r sound there (ground arith) (ground arith))
        ]
  ]

  -- The write of `finish_attempt`, without its result.
  abbrev pub finished :
      AttemptRecord T → EvalTaskStatus → Option String → Instant → T → AttemptRecord T
  finished r status error_class now telemetry = record r {
    status = status;
    error_class = error_class;
    finished_at = some now;
    telemetry = telemetry;
  }

  finish-Good :
      (s : EvaluationStore T) (k : Uuid) (r new : AttemptRecord T) (result : Option EpisodeResult)
      → IsSound s
      → get s.attempts k ≡ some r
      → r.status ≡ EvalTaskStatus.running
      → new.attempt_id ≡ k
      → (is_some result ≡ true → (new.status ≡ EvalTaskStatus.succeeded) × (get s.results k ≡ none))
      → Good s (put_result k result (record s { attempts = put s.attempts new.attempt_id new }))
  finish-Good s k r new none sound there busy same fits =
      write-Good s sound new (λ old h done. absurd (ground arith))
  finish-Good s k r new (some result) sound there busy same fits =
      let kept : (old : AttemptRecord T)
          → get s.attempts new.attempt_id ≡ some old
          → is_terminal old.status ≡ true
          → new.status ≡ old.status =
        λ old h done. absurd (ground arith) in
      let first = write-Good s sound new kept in
      let t = written s sound new kept in
      both s t _ first (
        record-Good t k result new first.0
          (ap (get t.attempts) (sym same) ∙ get-put_self s.attempts new.attempt_id new)
          (fits refl).0 (fits refl).1)

  pub finish_attempt-Good :
      (s : EvaluationStore T) (k : Uuid) (status : EvalTaskStatus) (error_class : Option String)
      (now : Instant) (telemetry : T) (result : Option EpisodeResult)
      → IsSound s
      → Good s (finish_attempt k status error_class now telemetry result s).1
  unfolding finish_attempt
  finish_attempt-Good s k status error_class now telemetry result sound =
      elim (Option-cases (get s.attempts k)) [
        | inl absent ↦ at s _ s (ground arith) (unchanged s sound)
        | inr (r, there) ↦
            elim (Bool-cases (
              is_running r.status
              && not (is_some error_class && is_succeeded status)
              && not (is_some result && not (is_succeeded status))
              && not (is_some result && is_some (get s.results k)))) [
                | inr refused ↦ at s _ s (ground arith) (unchanged s sound)
                | inl allowed ↦ at s _ _ (ground arith) (
                    finish-Good s k r (finished r status error_class now telemetry) result sound
                      there (ground arith) (sound.keyed k r there)
                      (λ h. (ground arith, ground arith)))
              ]
      ]
