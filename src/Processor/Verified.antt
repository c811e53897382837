-- ===== src/Processor/Verified.antt =====
-- What `_verify_authority` of components/processor-worker/apps/edge_agent/process.py has found when
-- it returns.
use edge_evidence_showcase.Prelude.{
  ℕ, ◌≡◌, refl, ap, subst, Bool, true, false, not, &&-true, Option, none, some, List, Text,
  text_eq→eq, arith,
}
use edge_evidence_showcase.Exec.{◌>>=◌, ◌>>◌}
use edge_evidence_showcase.Exec.Triple.{Triple, Triple-bind, Triple-weaken}
use edge_evidence_showcase.Processor.Runtime.{failure, Runtime}
use edge_evidence_showcase.Processor.Report.{relation_type}
use edge_evidence_showcase.Processor.Ledger.{
  ArtifactFacts, JobState, prepared, complete, Job, Ledger, find_artifact, find_job, find_lineage,
  facts_eq, is_prepared,
}
use edge_evidence_showcase.Processor.Machine.{
  regular, Machine, Call, ensure, current, item_at, query,
}
use edge_evidence_showcase.Processor.Plan.{
  InputEvidence, DerivedPlan, expected_facts, final_report, final_manifest,
}
use edge_evidence_showcase.Processor.Jobs.{read_job, is_relation, is_output}
use edge_evidence_showcase.Processor.Publishing.{pair_agrees, verify_final_pair}
use edge_evidence_showcase.Processor.Process.{
  job_agrees, artifact_agrees, lineage_agrees, verify_authority,
}
use edge_evidence_showcase.Processor.Stable.{Spends}
use edge_evidence_showcase.Processor.Stable.Publishing.{require_final-Keeps}
use edge_evidence_showcase.Processor.Reads.{
  loosen, query-Reads, ensure-Reads, read_bytes-Reads, on_os_error-Reads,
}

-- The published report and manifest are those of the plan, under the digests of the plan.
abbrev pub FinalPair : Runtime → DerivedPlan → Machine → Type 0
FinalPair runtime plan m =
    (item_at (final_report plan) m.files ≡ some (regular plan.report_bytes))
    × (item_at (final_manifest plan) m.files ≡ some (regular plan.manifest_bytes))
    × (runtime.sha256 plan.report_bytes ≡ plan.derived_digest_hex)
    × (runtime.sha256 plan.manifest_bytes ≡ plan.manifest_sha256)

-- The rows of the plan: its COMPLETE job, its artifact and the lineage of the artifact.
abbrev pub PlannedRows : DerivedPlan → InputEvidence → Ledger → Type 0
PlannedRows plan evidence db =
    ((j : Job) × (find_job plan.job_id db.processing_jobs ≡ some j)
      × (j.state ≡ complete)
      × (j.output_artifact_id ≡ some plan.derived_artifact_id))
    × (find_artifact plan.derived_artifact_id db.artifacts ≡ some (expected_facts plan evidence))
    × (find_lineage plan.derived_artifact_id db.artifact_lineage
        ≡ some (evidence.artifact_id, relation_type))

pub facts_eq→eq : (a b : ArtifactFacts) → facts_eq a b ≡ true → a ≡ b
unfolding facts_eq
facts_eq→eq a b h = ground (
  arith,
  text_eq→eq a.source_id b.source_id,
  text_eq→eq a.artifact_kind b.artifact_kind,
  text_eq→eq a.media_type b.media_type,
  text_eq→eq a.digest_algorithm b.digest_algorithm,
  text_eq→eq a.digest_value b.digest_value,
  text_eq→eq a.storage_uri b.storage_uri,
  text_eq→eq a.manifest_uri b.manifest_uri,
  text_eq→eq a.manifest_sha256 b.manifest_sha256,
  text_eq→eq a.finalized_at b.finalized_at,
)

pub complete_state : (s : JobState) → is_prepared s ≡ false → s ≡ complete
unfolding is_prepared
complete_state prepared h = cc
complete_state complete h = refl

pub is_output_lem :
    (plan : DerivedPlan) (o : Option Text)
    → is_output plan o ≡ true
    → o ≡ some plan.derived_artifact_id
unfolding is_output
is_output_lem plan none h = cc
is_output_lem plan (some id) h = ap some (text_eq→eq id plan.derived_artifact_id h)

pub is_relation_lem :
    (evidence : InputEvidence) (row : Text × Text)
    → is_relation evidence row ≡ true
    → row ≡ (evidence.artifact_id, relation_type)
unfolding is_relation
is_relation_lem evidence (parent, relation) h =
    ground (arith, text_eq→eq parent evidence.artifact_id, text_eq→eq relation relation_type)

job_agrees_lem :
    (plan : DerivedPlan) (o : Option Job)
    → job_agrees plan o ≡ true
    → (j : Job) × (o ≡ some j)
      × (j.state ≡ complete)
      × (j.output_artifact_id ≡ some plan.derived_artifact_id)
unfolding job_agrees
job_agrees_lem plan none h = cc
job_agrees_lem plan (some j) h =
    let (a, b) = &&-true (not (is_prepared j.state)) (is_output plan j.output_artifact_id) h in
    (j, refl, complete_state j.state (ground arith), is_output_lem plan j.output_artifact_id b)

artifact_agrees_lem :
    (plan : DerivedPlan) (evidence : InputEvidence) (o : Option ArtifactFacts)
    → artifact_agrees plan evidence o ≡ true
    → o ≡ some (expected_facts plan evidence)
unfolding artifact_agrees
artifact_agrees_lem plan evidence none h = cc
artifact_agrees_lem plan evidence (some facts) h =
    ap some (facts_eq→eq facts (expected_facts plan evidence) h)

lineage_agrees_lem :
    (evidence : InputEvidence) (o : Option (Text × Text))
    → lineage_agrees evidence o ≡ true
    → o ≡ some (evidence.artifact_id, relation_type)
unfolding lineage_agrees
lineage_agrees_lem evidence none h = cc
lineage_agrees_lem evidence (some row) h = ap some (is_relation_lem evidence row h)

pair_agrees_lem :
    (runtime : Runtime) (plan : DerivedPlan) (evidence : InputEvidence) (report manifest : List ℕ)
    → pair_agrees runtime plan evidence report manifest ≡ true
    → (report ≡ plan.report_bytes)
      × (manifest ≡ plan.manifest_bytes)
      × (runtime.sha256 report ≡ plan.derived_digest_hex)
      × (runtime.sha256 manifest ≡ plan.manifest_sha256)
unfolding pair_agrees
pair_agrees_lem runtime plan evidence report manifest h = (
  text_eq→eq report plan.report_bytes (ground arith),
  text_eq→eq manifest plan.manifest_bytes (ground arith),
  text_eq→eq (runtime.sha256 report) plan.derived_digest_hex (ground arith),
  text_eq→eq (runtime.sha256 manifest) plan.manifest_sha256 (ground arith),
)

module _ (P : Machine → Type 0) (sp : Spends P) (runtime : Runtime) (plan : DerivedPlan)
    (evidence : InputEvidence) where
  abbrev Read : Text → List ℕ → Machine → Type 0
  Read path bytes m = item_at path m.files ≡ some (regular bytes)

  -- The tests on the bytes that have been read.
  pair_checked :
      (report manifest : List ℕ)
      → Triple
          (λ m. (P m × Read (final_report plan) report m) × Read (final_manifest plan) manifest m)
          (ensure (pair_agrees runtime plan evidence report manifest) (failure 6))
          (λ _ m. P m × FinalPair runtime plan m)
          (λ _. P)
  unfolding final_report final_manifest
  pair_checked report manifest =
      Triple-weaken _ _ _ _
        (ensure-Reads
          (λ m. (P m × Read (final_report plan) report m) × Read (final_manifest plan) manifest m)
          (λ m p. ((sp m p.0.0, p.0.1), p.1)) _ _)
        (λ m p. p)
        (λ a m q.
          let (r, s, d, e) = pair_agrees_lem runtime plan evidence report manifest q.1 in
          (q.0.0.0, (rw⁻¹ r q.0.0.1, rw⁻¹ s q.0.1, rw⁻¹ r d, rw⁻¹ s e)))
        (λ x m p. p.0.0)

  pub verify_final_pair-Reads :
      Triple P
        (verify_final_pair runtime plan evidence)
        (λ _ m. P m × FinalPair runtime plan m)
        (λ _. P)
  unfolding verify_final_pair
  verify_final_pair-Reads =
      Triple-bind _ _ (λ _. P) (require_final-Keeps P sp runtime _)
        λ _.
          Triple-bind _ _ (λ _. P) (require_final-Keeps P sp runtime _)
            λ _.
              Triple-bind _ _ _
                (on_os_error-Reads P 6 _ (read_bytes-Reads P sp (final_report plan)))
                λ report.
                  Triple-bind _ _ _
                    (loosen (λ m p. p.0)
                      (on_os_error-Reads (λ m. P m × Read (final_report plan) report m) 6 _
                        (read_bytes-Reads (λ m. P m × Read (final_report plan) report m)
                          (λ m p. (sp m p.0, p.1)) (final_manifest plan))))
                    λ manifest. pair_checked report manifest

  abbrev Now : Machine → Ledger
  Now m = current m.working m.committed

  abbrev Paired : Machine → Type 0
  Paired m = P m × FinalPair runtime plan m

  abbrev WithJob : Machine → Type 0
  WithJob m =
      Paired m
      × ((j : Job) × (find_job plan.job_id (Now m).processing_jobs ≡ some j)
          × (j.state ≡ complete)
          × (j.output_artifact_id ≡ some plan.derived_artifact_id))

  abbrev WithArtifact : Machine → Type 0
  WithArtifact m =
      WithJob m
      × (find_artifact plan.derived_artifact_id (Now m).artifacts
          ≡ some (expected_facts plan evidence))

  -- What is read and then tested.
  tested :
      {A : Type 0} (R : Machine → Type 0)
      → Spends R
      → (f : Ledger → A) (test : A → Bool) (C : A → Type 0) → ((a : A) → test a ≡ true → C a)
      → (a : A)
      → Triple
          (λ m. R m × (a ≡ f (Now m)))
          (ensure (test a) (failure 6))
          (λ _ m. R m × C (f (Now m)))
          (λ _. R)
  tested R rs f test C k a =
      Triple-weaken _ _ _ _
        (ensure-Reads (λ m. R m × (a ≡ f (Now m))) (λ m p. (rs m p.0, p.1)) (test a) _) (λ m p. p)
        (λ u m q. (q.0.0, subst C q.0.1 (k a q.1))) (λ x m p. p.0)

  tested_then :
      {A : Type 0} {Q : Unit → Machine → Type 0} (R : Machine → Type 0)
      → Spends R
      → ((m : Machine) → R m → P m)
      → (f : Ledger → A) (test : A → Bool) (C : A → Type 0) → ((a : A) → test a ≡ true → C a)
      → (n : Call Unit) → Triple (λ m. R m × C (f (Now m))) n Q (λ _. P)
      → Triple R (query f >>= λ a. ensure (test a) (failure 6) >> n) Q (λ _. P)
  tested_then R rs g f test C k n l = Triple-bind _ _ _ (loosen g (query-Reads R rs f)) λ a.
      Triple-bind _ _ (λ _ m. R m × C (f (Now m)))
        (Triple-weaken _ _ _ _ (tested R rs f test C k a) (λ m p. p) (λ u m q. q) (λ x m p. g m p))
        (λ _. l)

  -- When _verify_authority returns, the files and the rows are those of the plan.
  pub verify_authority-Reads :
      Triple P
        (verify_authority runtime plan evidence)
        (λ _ m. Paired m × PlannedRows plan evidence (Now m))
        (λ _. P)
  unfolding verify_authority read_job
  verify_authority-Reads =
      Triple-bind _ _ (λ _. Paired) verify_final_pair-Reads
        λ _.
          tested_then Paired (λ m p. (sp m p.0, p.1)) (λ m p. p.0) _ (job_agrees plan) _
            (job_agrees_lem plan) _
            (tested_then WithJob (λ m p. ((sp m p.0.0, p.0.1), p.1)) (λ m p. p.0.0) _
              (artifact_agrees plan evidence) _ (artifact_agrees_lem plan evidence) _
              (Triple-bind _ _ _
                (loosen (λ m p. p.0.0.0)
                  (query-Reads WithArtifact (λ m p. (((sp m p.0.0.0, p.0.0.1), p.0.1), p.1))
                    (λ db. find_lineage plan.derived_artifact_id db.artifact_lineage)))
                λ lineage.
                  Triple-weaken _ _ _ _
                    (tested WithArtifact (λ m p. (((sp m p.0.0.0, p.0.0.1), p.0.1), p.1))
                      (λ db. find_lineage plan.derived_artifact_id db.artifact_lineage)
                      (lineage_agrees evidence) _ (lineage_agrees_lem evidence) lineage)
                    (λ m p. p) (λ u m q. (q.0.0.0, (q.0.0.1, q.0.1, q.1))) (λ x m p. p.0.0.0)))
