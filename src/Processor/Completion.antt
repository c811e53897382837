-- ===== src/Processor/Completion.antt =====
-- What one candidate of the worker's run (components/processor-worker/apps/processor_worker/worker.py)
-- has left behind when it is done, and that later runs keep it.
pub mod Loop
pub mod Snapshot
pub mod Runs
use edge_evidence_showcase.Prelude.{
  ℕ, ◌≡◌, refl, Bool, false, Option, none, some, List, [], ◌∷◌, Text, text,
}
use edge_evidence_showcase.Exec.{Result, ok, err, Exec}
use edge_evidence_showcase.Exec.Triple.{Post, Triple, Triple-and, Keeps, Keeps-at}
use edge_evidence_showcase.Contracts.{starts_with}
use edge_evidence_showcase.Processor.Runtime.{
  SqliteError, Error, failure, lock_busy, processing, sqlite, os_error, overflow, collision, killed,
  Runtime,
}
use edge_evidence_showcase.Processor.Report.{integrity_profile, relation_type}
use edge_evidence_showcase.Processor.Ledger.{ArtifactFacts, Job, Ledger}
use edge_evidence_showcase.Processor.Machine.{regular, Machine}
use edge_evidence_showcase.Processor.Plan.{
  ProcessRequest, InputEvidence, DerivedPlan, plan_derivation, expected_facts, final_report,
  final_manifest, complete_relative_path, derived_manifest_path,
}
use edge_evidence_showcase.Processor.Jobs.{Disposition}
use edge_evidence_showcase.Processor.Process.{process_artifact}
use edge_evidence_showcase.Processor.Immutable.{process_artifact-item, process_artifact-rows}
use edge_evidence_showcase.Processor.Transactions.{Closed}
use edge_evidence_showcase.Processor.Outcome.{
  Settled, IsOf, Answers, Anything, opened, process_artifact-Closed,
}
use edge_evidence_showcase.Processor.Catchup.{
  WorkerError, Outcome, done, deferred, candidate_failed, outcome_of, Candidate, process_candidate,
}

abbrev pub request_of : Text → ProcessRequest
request_of id = record { input_artifact_id = id; profile = integrity_profile }

both : {S X A : Type 0} (P : S → Type 0) (r : Result X A × S) → P r.1 → Post (λ _. P) (λ _. P) r
both P (ok a, s) p = p
both P (err x, s) p = p

outcome_both :
    (P : Machine → Type 0) (r : Result Error (Disposition × DerivedPlan) × Machine)
    → Post (λ _. P) (λ _. P) r
    → Post (λ _. P) (λ _. P) (outcome_of r)
unfolding outcome_of
outcome_both P (ok a, m) p = p
outcome_both P (err lock_busy, m) p = p
outcome_both P (err (failure c), m) p = p
outcome_both P (err (processing c), m) p = p
outcome_both P (err (sqlite e), m) p = p
outcome_both P (err os_error, m) p = p
outcome_both P (err overflow, m) p = p
outcome_both P (err collision, m) p = p
outcome_both P (err killed, m) p = p

module _ (runtime : Runtime) where
  -- The files and the committed rows of the derivation of an artifact under the integrity profile.
  abbrev pub IsDerived : Text → Machine → Type 0
  IsDerived id m =
      (evidence : InputEvidence) × (plan : DerivedPlan) × IsOf (request_of id) evidence
      × (plan_derivation runtime evidence integrity_profile ≡ ok plan)
      × Settled runtime plan evidence m

  report_stays :
      (plan : DerivedPlan) → starts_with (final_report plan) (text "partial/processing/") ≡ false
  unfolding final_report complete_relative_path text starts_with
  report_stays plan = refl

  manifest_stays :
      (plan : DerivedPlan) → starts_with (final_manifest plan) (text "partial/processing/") ≡ false
  unfolding final_manifest derived_manifest_path text starts_with
  manifest_stays plan = refl

  process_artifact-keeps_Settled :
      (request : ProcessRequest) (plan : DerivedPlan) (evidence : InputEvidence) (m : Machine)
      → Closed m
      → Settled runtime plan evidence m
      → Settled runtime plan evidence (process_artifact runtime request m).1
  process_artifact-keeps_Settled request plan evidence m w ((r, s, d, e), ((j, f, c, o), a, l)) =
      let (x, y, z) =
        process_artifact-rows runtime request m plan.derived_artifact_id
          (expected_facts plan evidence) (evidence.artifact_id, relation_type) j w in
      let (x', y', z') =
        process_artifact-rows runtime request m plan.job_id (expected_facts plan evidence)
          (evidence.artifact_id, relation_type) j w in
      (
        (
          process_artifact-item runtime request m (final_report plan) (regular plan.report_bytes)
              (report_stays plan) r,
          process_artifact-item runtime request m (final_manifest plan)
              (regular plan.manifest_bytes) (manifest_stays plan) s,
          d,
          e,
        ),
        ((j, z' c f, c, o), x a, y l),
      )

  -- A run for any candidate keeps what is derived.
  pub process_artifact-IsDerived :
      (id : Text) (request : ProcessRequest)
      → Keeps (λ m. Closed m × IsDerived id m) (process_artifact runtime request)
  process_artifact-IsDerived id request = record {
    at = λ m (w, (evidence, plan, i, p, s)). both _ (process_artifact runtime request m) (
      Keeps-at (process_artifact-Closed runtime request) m w,
      (evidence, plan, i, p, process_artifact-keeps_Settled request plan evidence m w s),
    );
  }

  -- What is left where a candidate is done, or deferred.
  abbrev pub After : Text → Outcome → Machine → Type 0
  After id done m = Closed m × IsDerived id m
  After id deferred m = Closed m

  derived-After :
      (id : Text) (r : Result Error (Disposition × DerivedPlan) × Machine)
      → Post
          (λ a m. Answers runtime (request_of id) a m × Closed m)
          (λ x m. Anything runtime x m × Closed m)
          r
      → Post (After id) (λ _. Closed) (outcome_of r)
  unfolding outcome_of
  derived-After id (ok (d, plan), m) (((evidence, i, p, s)), w) = (w, (evidence, plan, i, p, s))
  derived-After id (err lock_busy, m) p = p.1
  derived-After id (err (failure c), m) p = p.1
  derived-After id (err (processing c), m) p = p.1
  derived-After id (err (sqlite e), m) p = p.1
  derived-After id (err os_error, m) p = p.1
  derived-After id (err overflow, m) p = p.1
  derived-After id (err collision, m) p = p.1
  derived-After id (err killed, m) p = p.1

  pub process_candidate-After :
      (c : Candidate)
      → Triple Closed (process_candidate runtime c) (After c.artifact_id) (λ _. Closed)
  unfolding process_candidate
  process_candidate-After c = record {
    at = λ m w. derived-After c.artifact_id _ (
        (Triple-and (opened runtime (request_of c.artifact_id))
            (process_artifact-Closed runtime (request_of c.artifact_id))).at
          m (w, w));
  }

  pub process_candidate-Keeps :
      (P : Machine → Type 0) (c : Candidate)
      → Keeps P (process_artifact runtime (request_of c.artifact_id))
      → Keeps P (process_candidate runtime c)
  unfolding process_candidate
  process_candidate-Keeps P c k = record { at = λ m p. outcome_both P _ (k.at m p) }
