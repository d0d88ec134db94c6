-- ===== src/Trace/Sequence.antt =====
-- The order of an attempt's trace (src/commerce_agent/trace).
use mathlib.Core.Path.{subst}
use commerce_analyst_agent.Prelude.{
  ℕ, suc, ◌+◌, ◌≡◌, ◌⊎◌, refl, sym, ap, ◌∙◌, String, List, [], ◌∷◌, ◌++◌, length, inl, inr, arith,
  nat_eq, pair_eq, Bool-cases, nat_beq,
}
use commerce_analyst_agent.Prelude.Dict.{put, get-put_cases}
use commerce_analyst_agent.Prelude.Outcome.{bind_pure, ok, Result-cases}
use commerce_analyst_agent.Operations.Contracts.{Uuid}
use commerce_analyst_agent.Trace.{
  ScopedTraceEvent, TraceStore, append, append_checked, events, or_empty, validate_trace_event,
}

-- An attempt's events from the position `n` on: each is the attempt's, has its position as its
-- sequence number, and has passed the check of its summary.
pub data IsTrace (casefold : String → String) (run_scope : ℕ) (attempt_id : Uuid)
    : ℕ → List ScopedTraceEvent → Type 0 where
  done : (n : ℕ) → IsTrace casefold run_scope attempt_id n []
  event :
      (n : ℕ) (e : ScopedTraceEvent) (rest : List ScopedTraceEvent)
      → e.run_scope ≡ run_scope
      → e.attempt_id ≡ attempt_id
      → e.sequence ≡ n
      → validate_trace_event casefold e ≡ ok tt
      → IsTrace casefold run_scope attempt_id (suc n) rest
      → IsTrace casefold run_scope attempt_id n (e ∷ rest)

snoc-IsTrace :
    (casefold : String → String) (run_scope : ℕ) (attempt_id : Uuid) (n : ℕ)
    (es : List ScopedTraceEvent) (e : ScopedTraceEvent)
    → IsTrace casefold run_scope attempt_id n es
    → e.run_scope ≡ run_scope
    → e.attempt_id ≡ attempt_id
    → e.sequence ≡ n + length es
    → validate_trace_event casefold e ≡ ok tt
    → IsTrace casefold run_scope attempt_id n (es ++ e ∷ [])
snoc-IsTrace casefold r a n [] e (done _) scope attempt place valid =
    IsTrace.event n e [] scope attempt (omega (arith, place)) valid (IsTrace.done (suc n))
snoc-IsTrace casefold r a n (x ∷ es) e (event _ _ _ s t q v rest) scope attempt place valid =
    IsTrace.event n x (es ++ e ∷ []) s t q v
      (snoc-IsTrace casefold r a (suc n) es e rest scope attempt (omega (arith, place)) valid)

abbrev pub IsExtended : List ScopedTraceEvent → List ScopedTraceEvent → Type 0
IsExtended old new = (rest : List ScopedTraceEvent) × (new ≡ old ++ rest)

append_empty : {A : Type 0} (xs : List A) → xs ≡ xs ++ []
append_empty [] = refl
append_empty (x ∷ xs) = ap (λ ys. x ∷ ys) (append_empty xs)

append_assoc : {A : Type 0} (xs ys zs : List A) → (xs ++ ys) ++ zs ≡ xs ++ (ys ++ zs)
append_assoc [] ys zs = refl
append_assoc (x ∷ xs) ys zs = ap (λ l. x ∷ l) (append_assoc xs ys zs)

-- Reading after a write of one attempt's list.
events-put :
    (s : TraceStore) (r₁ : ℕ) (a₁ : Uuid) (es : List ScopedTraceEvent) (r : ℕ) (a : Uuid)
    → ((r₁ ≡ r) × (a₁ ≡ a) × (events r a (put s (r₁, a₁) es) ≡ es))
      ⊎ (events r a (put s (r₁, a₁) es) ≡ events r a s)
unfolding events
events-put s r₁ a₁ es r a = elim (get-put_cases s (r₁, a₁) es (r, a)) [
  | inl (e, f) ↦ inl (ap (λ k. k.0) e, ap (λ k. k.1) e, ap or_empty f)
  | inr (n, f) ↦ inr (ap or_empty f)
]

-- What an append does to the events of any attempt: nothing, or it adds the event at their end,
-- where the event is the attempt's and comes next.
append_cases :
    (e : ScopedTraceEvent) (s : TraceStore) (r : ℕ) (a : Uuid)
    → (events r a (append e s).1 ≡ events r a s)
      ⊎ ((events r a (append e s).1 ≡ events r a s ++ e ∷ [])
          × (e.run_scope ≡ r)
          × (e.attempt_id ≡ a)
          × (e.sequence ≡ length (events r a s)))
unfolding append
append_cases e s r a =
    let held = events e.run_scope e.attempt_id s in
    elim (Bool-cases (nat_beq e.sequence (length held))) [
      | inr late ↦ elim (events-put s e.run_scope e.attempt_id held r a) [
        | inl (p, q, f) ↦
            inl (ground (arith, ap (λ x. events x e.attempt_id s) p, ap (λ y. events r y s) q))
        | inr f ↦ inl (ground arith)
      ]
      | inl next ↦ elim (events-put s e.run_scope e.attempt_id (held ++ e ∷ []) r a) [
        | inl (p, q, f) ↦
            let same : held ≡ events r a s =
              ap (λ x. events x e.attempt_id s) p ∙ ap (λ y. events r y s) q in
            inr (
              ground (arith, ap (λ l. l ++ e ∷ []) same),
              p,
              q,
              ground (arith, ap (λ (l : List ScopedTraceEvent). length l) same),
            )
        | inr f ↦ inl (ground arith)
      ]
    ]

-- `TraceModule.append` of one event after the other, whichever of them are refused.
abbrev pub append_all : (String → String) → List ScopedTraceEvent → TraceStore → TraceStore
append_all casefold [] s = s
append_all casefold (e ∷ rest) s = append_all casefold rest (append_checked casefold e s).1

append_checked_cases :
    (casefold : String → String) (e : ScopedTraceEvent) (s : TraceStore) (r : ℕ) (a : Uuid)
    → (events r a (append_checked casefold e s).1 ≡ events r a s)
      ⊎ ((events r a (append_checked casefold e s).1 ≡ events r a s ++ e ∷ [])
          × (e.run_scope ≡ r)
          × (e.attempt_id ≡ a)
          × (e.sequence ≡ length (events r a s))
          × (validate_trace_event casefold e ≡ ok tt))
unfolding append_checked
append_checked_cases casefold e s r a = elim (Result-cases (validate_trace_event casefold e)) [
  | inr (error, f) ↦ inl (ap (λ v. events r a (bind_pure v (λ _. append e) s).1) f)
  | inl (valid, f) ↦
      let step : events r a (append_checked casefold e s).1 ≡ events r a (append e s).1 =
        ap (λ v. events r a (bind_pure v (λ _. append e) s).1) f in
      elim (append_cases e s r a) [
        | inl same ↦ inl (step ∙ same)
        | inr (longer, scope, attempt, place) ↦ inr (step ∙ longer, scope, attempt, place, f)
      ]
]

-- Whatever events are appended, and whichever of them are refused, every attempt's events stay in
-- the order of their sequence numbers, without a gap, belong to it, and have summaries that pass
-- the check.
pub append_all-IsTrace :
    (casefold : String → String) (es : List ScopedTraceEvent) (s : TraceStore) (r : ℕ) (a : Uuid)
    → IsTrace casefold r a 0 (events r a s)
    → IsTrace casefold r a 0 (events r a (append_all casefold es s))
append_all-IsTrace casefold [] s r a h = h
append_all-IsTrace casefold (e ∷ es) s r a h =
    let t = (append_checked casefold e s).1 in
    append_all-IsTrace casefold es t r a (elim (append_checked_cases casefold e s r a) [
      | inl same ↦ subst (λ l. IsTrace casefold r a 0 l) (sym same) h
      | inr (longer, scope, attempt, place, valid) ↦
          subst (λ l. IsTrace casefold r a 0 l) (sym longer)
            (snoc-IsTrace casefold r a 0 (events r a s) e h scope attempt (omega (arith, place))
              valid)
    ])

-- Appending only adds events at the end: what was there is a first part of what is there then.
pub append_all-IsExtended :
    (casefold : String → String) (es : List ScopedTraceEvent) (s : TraceStore) (r : ℕ) (a : Uuid)
    → IsExtended (events r a s) (events r a (append_all casefold es s))
append_all-IsExtended casefold [] s r a = ([], append_empty (events r a s))
append_all-IsExtended casefold (e ∷ es) s r a =
    let t = (append_checked casefold e s).1 in
    let (rest, more) = append_all-IsExtended casefold es t r a in
    elim (append_checked_cases casefold e s r a) [
      | inl same ↦ (rest, more ∙ ap (λ l. l ++ rest) same)
      | inr added ↦
          (e ∷ rest, more ∙ ap (λ l. l ++ rest) added.0 ∙ append_assoc (events r a s) (e ∷ []) rest)
    ]
