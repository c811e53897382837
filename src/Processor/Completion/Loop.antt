-- ===== src/Processor/Completion/Loop.antt =====
-- The loop of `run` (components/processor-worker/apps/processor_worker/worker.py): it goes through a
-- prefix of the candidates, counts it, and leaves all of it derived.
use edge_evidence_showcase.Prelude.{
  ℕ, suc, ◌+◌, ◌≡◌, refl, ap, ◌∙◌, List, [], ◌∷◌, ◌++◌, Text, Each, length, arith,
}
use edge_evidence_showcase.Exec.{pure}
use edge_evidence_showcase.Exec.Triple.{
  Triple, Triple-and, Triple-pure, Triple-bind, Triple-weaken, Keeps, Keeps-pure, Keeps-bind,
}
use edge_evidence_showcase.Processor.Runtime.{Runtime}
use edge_evidence_showcase.Processor.Machine.{Machine}
use edge_evidence_showcase.Processor.Transactions.{Closed}
use edge_evidence_showcase.Processor.Catchup.{
  PriorState, missing_job, prepared_job, complete_job, Candidate, RunSummary, Outcome, done,
  deferred, counted, completed_count, run_loop,
}
use edge_evidence_showcase.Processor.Completion.{
  IsDerived, After, process_artifact-IsDerived, process_candidate-After, process_candidate-Keeps,
  request_of,
}

-- What is left of the candidates, and whether the loop has stopped there.
abbrev pub Stop : List Candidate → ℕ → Type 0
Stop [] n = n ≡ 0
Stop (c ∷ cs) n = n ≡ 1

counted_lem :
    (p : PriorState) (s : RunSummary)
    → (completed_count (counted p s) ≡ suc (completed_count s))
      × ((counted p s).deferred ≡ s.deferred)
unfolding counted completed_count
counted_lem missing_job s = (omega arith, refl)
counted_lem prepared_job s = (omega arith, refl)
counted_lem complete_job s = (omega arith, refl)

module _ (runtime : Runtime) where
  abbrev pub Finished : List Candidate → Machine → Type 0
  Finished cs m = Each (λ (c : Candidate). IsDerived runtime c.artifact_id m) cs

  -- The candidates split into what is finished and what is left.
  abbrev pub Progress : List Candidate → RunSummary → RunSummary → Machine → Type 0
  Progress cs counts s m =
      (finished : List Candidate) × (rest : List Candidate) × (cs ≡ finished ++ rest)
      × Finished finished m
      × (completed_count s ≡ completed_count counts + length finished)
      × Stop rest s.deferred

  abbrev Kept : Text → Machine → Type 0
  Kept id m = Closed m × IsDerived runtime id m

  run_loop-IsDerived :
      (id : Text) (cs : List Candidate) (counts : RunSummary)
      → Keeps (Kept id) (run_loop runtime cs counts)
  unfolding run_loop
  run_loop-IsDerived id [] counts = Keeps-pure counts
  run_loop-IsDerived id (c ∷ more) counts =
      Keeps-bind _ _
        (process_candidate-Keeps runtime (Kept id) c
          (process_artifact-IsDerived runtime id (request_of c.artifact_id)))
        (next (run_loop-IsDerived id more (counted c.prior_state counts)))
    where
      next :
          Keeps (Kept id) (run_loop runtime more (counted c.prior_state counts))
          → (o : Outcome)
          → Keeps (Kept id) (elim o [
            | deferred ↦ pure (record counts { deferred = 1 })
            | done ↦ run_loop runtime more (counted c.prior_state counts)
          ])
      next k deferred = Keeps-pure _
      next k done = k

  pub run_loop-Progress :
      (cs : List Candidate) (counts : RunSummary)
      → counts.deferred ≡ 0
      → Triple Closed
          (run_loop runtime cs counts)
          (λ s m. Closed m × Progress cs counts s m)
          (λ _. Closed)
  unfolding run_loop
  run_loop-Progress [] counts e =
      Triple-pure counts (λ m w. (w, ([], [], refl, tt, omega arith, e)))
  run_loop-Progress (c ∷ more) counts e =
      Triple-bind _ _ (After runtime c.artifact_id) (process_candidate-After runtime c) (
        next (
          run_loop-Progress more (counted c.prior_state counts)
            ((counted_lem c.prior_state counts).1 ∙ e)))
    where
      next :
          Triple Closed
            (run_loop runtime more (counted c.prior_state counts))
            (λ s m. Closed m × Progress more (counted c.prior_state counts) s m)
            (λ _. Closed)
          → (o : Outcome)
          → Triple
              (After runtime c.artifact_id o)
              (elim o [
                | deferred ↦ pure (record counts { deferred = 1 })
                | done ↦ run_loop runtime more (counted c.prior_state counts)
              ])
              (λ s m. Closed m × Progress (c ∷ more) counts s m)
              (λ _. Closed)
      next k deferred =
          Triple-pure _
            (λ m w. (w, ([], c ∷ more, refl, tt, unfold completed_count in omega arith, refl)))
      next k done =
          let (n, d) = counted_lem c.prior_state counts in
          Triple-weaken _ _ _ _
            (Triple-and k (run_loop-IsDerived c.artifact_id more (counted c.prior_state counts)))
            (λ m p. (p.0, p))
            (λ s m ((w, (finished, rest, split, each, count, stop)), (w', derived)). (
              w,
              (
                c ∷ finished,
                rest,
                ap (λ xs. c ∷ xs) split,
                (derived, each),
                omega (arith, n, count),
                stop,
              ),
            ))
            (λ x m p. p.0)
