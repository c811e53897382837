-- ===== src/Tests/Derived.antt =====
-- The theorems of the processor worker on the sample spool.
use edge_evidence_showcase.Prelude.{
  ◌≡◌, refl, true, false, none, some, List, [], ◌∷◌, ◌++◌, text, text_eq, text_compare, length,
  Each,
}
use edge_evidence_showcase.Exec.{ok, err}
use edge_evidence_showcase.Exec.Triple.{Post}
use edge_evidence_showcase.Contracts.{starts_with, matches_sha256}
use edge_evidence_showcase.Processor.Json.{
  has_text, serialize, enclosed, entry_texts, key_compare, decimal,
}
use edge_evidence_showcase.Prelude.Sorting.{sorted}
use edge_evidence_showcase.Processor.Runtime.{Runtime, failure}
use edge_evidence_showcase.Processor.Identity.{matches_pattern, at_end}
use edge_evidence_showcase.Processor.Instants.{matches_artifact_id, matches_source_id}
use edge_evidence_showcase.Processor.Manifest.{is_instant, manifest_fields, media_relative_path}
use edge_evidence_showcase.Processor.Report.{relation_type, profiles, integrity_profile}
use edge_evidence_showcase.Processor.Ledger.{
  Artifact, complete, Job, find_artifact, find_job, find_lineage, insert_job,
}
use edge_evidence_showcase.Processor.Ledger.Sound.{IsSound}
use edge_evidence_showcase.Processor.Machine.{
  regular, item_at, Machine, begin, query, look_at, execute, commit,
}
use edge_evidence_showcase.Processor.Plan.{
  InputEvidence, DerivedPlan, plan_derivation, expected_facts,
}
use edge_evidence_showcase.Processor.Jobs.{
  Disposition, created, existing, read_job, adopt_or_insert, create_or_adopt_prepared,
  finalize_complete, count_assertions, derived_artifact, derived_lineage, prepared_job,
}
use edge_evidence_showcase.Processor.Process.{derive, process_artifact}
use edge_evidence_showcase.Processor.Catchup.{eligible, run}
use edge_evidence_showcase.Processor.Gate.{Verified}
use edge_evidence_showcase.Processor.Immutable.{
  process_artifact-item, process_artifact-rows, process_artifact-IsSound,
}
use edge_evidence_showcase.Processor.Verified.{PlannedRows}
use edge_evidence_showcase.Processor.Transactions.Completing.{finalize_complete-atomic}
use edge_evidence_showcase.Processor.Transactions.Preparing.{
  Prepared, create_or_adopt_prepared-atomic,
}
use edge_evidence_showcase.Processor.Transactions.Rerun.{
  calm, finalize_complete-again, derive-refuses, create_or_adopt_prepared-again,
}
use edge_evidence_showcase.Processor.Planning.{IsDigest, IsValid, Planned, plan_derivation-returns}
use edge_evidence_showcase.Processor.Outcome.{Settled, IsOf, process_artifact-Settled}
use edge_evidence_showcase.Processor.Completion.{IsDerived}
use edge_evidence_showcase.Processor.Completion.Runs.{Counts, run-Counts, run-derives}
use edge_evidence_showcase.Tests.Deriving.{
  digest_of, recording, recording_digest, sample_runtime, sample_ledger, sample_machine,
  sample_request, recording_evidence,
}

process_artifact-Settled_example :
    Post
      (λ (r : Disposition × DerivedPlan) m'.
        (evidence : InputEvidence) × IsOf sample_request evidence
        × (plan_derivation sample_runtime evidence sample_request.profile ≡ ok r.1)
        × Settled sample_runtime r.1 evidence m')
      (λ _ m'. m'.working ≡ none)
      (process_artifact sample_runtime sample_request sample_machine)
process_artifact-Settled_example =
    process_artifact-Settled sample_runtime sample_request sample_machine refl

run-derives_example :
    Post
      (λ s m'.
        (derived : List Artifact) × (rest : List Artifact) × (eligible sample_ledger
          ≡ derived ++ rest)
        × (length rest ≡ s.remaining)
        × Each (λ (a : Artifact). IsDerived sample_runtime a.artifact_id m') derived)
      (λ _ _. Unit)
      (run sample_runtime sample_machine)
run-derives_example = run-derives sample_runtime sample_machine refl

run-Counts_example :
    Post (λ s _. Counts sample_ledger s) (λ _ _. Unit) (run sample_runtime sample_machine)
run-Counts_example = run-Counts sample_runtime sample_machine refl

media_stays :
    starts_with (media_relative_path recording_digest) (text "partial/processing/") ≡ false
unfolding media_relative_path starts_with text text_eq
media_stays = refl

media_there :
    item_at (media_relative_path recording_digest) sample_machine.files ≡ some (regular recording)
unfolding item_at media_relative_path text text_eq
media_there = refl

nothing_complete : IsSound sample_ledger
unfolding IsSound
nothing_complete = tt

process_artifact-item_example :
    item_at
      (media_relative_path recording_digest)
      (process_artifact sample_runtime sample_request sample_machine).1.files
    ≡ some (regular recording)
process_artifact-item_example =
    process_artifact-item sample_runtime sample_request sample_machine
      (media_relative_path recording_digest) (regular recording) media_stays media_there

process_artifact-IsSound_example :
    IsSound (process_artifact sample_runtime sample_request sample_machine).1.committed
process_artifact-IsSound_example =
    process_artifact-IsSound sample_runtime sample_request sample_machine refl nothing_complete

-- A plan with short texts, the tables behind it, and a machine that has them.
abbrev short_plan : DerivedPlan
short_plan = record {
  job_id = text "job-2";
  parameters_json = text "p";
  parameters_sha256 = digest_of [];
  report_bytes = 7 ∷ [];
  derived_digest_hex = text "d";
  derived_artifact_id = text "sha256:d";
  manifest_bytes = 8 ∷ [];
  manifest_sha256 = text "m";
}

abbrev short_job : Job
short_job = record (prepared_job short_plan recording_evidence 5) {
  state = complete;
  output_artifact_id = some short_plan.derived_artifact_id;
  completed_at = some 6;
}

abbrev done_machine : Machine
done_machine = record sample_machine {
  committed = record sample_ledger {
    artifacts = sample_ledger.artifacts ++ derived_artifact short_plan recording_evidence ∷ [];
    processing_jobs = short_job ∷ [];
    artifact_lineage = derived_lineage short_plan recording_evidence ∷ [];
  };
}

done_rows : PlannedRows short_plan recording_evidence done_machine.committed
unfolding find_job find_artifact find_lineage prepared_job text text_eq
done_rows = ((short_job, refl, refl, refl), refl, refl)

process_artifact-rows_example :
    find_job short_plan.job_id
      (process_artifact sample_runtime sample_request done_machine).1.committed.processing_jobs
    ≡ some short_job
unfolding done_rows
process_artifact-rows_example =
    (process_artifact-rows sample_runtime sample_request done_machine short_plan.job_id
        (expected_facts short_plan recording_evidence)
        (recording_evidence.artifact_id, relation_type) short_job refl).2
      refl done_rows.0.1

create_or_adopt_prepared-atomic_example :
    Post
      (λ d m'. Prepared short_plan recording_evidence sample_ledger d m'.committed)
      (λ _ m'. m'.committed ≡ sample_ledger)
      (create_or_adopt_prepared short_plan recording_evidence sample_machine)
create_or_adopt_prepared-atomic_example =
    create_or_adopt_prepared-atomic short_plan recording_evidence sample_machine refl

finalize_complete-atomic_example :
    Post
      (λ _ m'. (m'.working ≡ none) × PlannedRows short_plan recording_evidence m'.committed)
      (λ _ m'. m'.committed ≡ sample_ledger)
      (finalize_complete short_plan recording_evidence sample_machine)
finalize_complete-atomic_example =
    finalize_complete-atomic short_plan recording_evidence sample_machine refl

finalize_complete-again_example :
    finalize_complete short_plan recording_evidence (calm done_machine)
    ≡ (ok (existing, existing, existing), calm done_machine)
finalize_complete-again_example =
    finalize_complete-again short_plan recording_evidence done_machine done_rows

abbrev unasserted : Machine
unasserted = record sample_machine {
  committed = record sample_ledger { capture_occurrence_assertions = [] };
}

no_assertion :
    count_assertions recording_evidence.artifact_id
      unasserted.committed.capture_occurrence_assertions
    ≡ 0
unfolding count_assertions
no_assertion = refl

derive-refuses_example :
    derive sample_runtime short_plan recording_evidence (calm unasserted)
    ≡ (err (failure 6), calm unasserted)
derive-refuses_example =
    derive-refuses short_plan recording_evidence unasserted sample_runtime 0 no_assertion (λ e. cc)

unfoldable prepared_machine : Machine
unfolding create_or_adopt_prepared
prepared_machine = (create_or_adopt_prepared short_plan recording_evidence sample_machine).1

prepared_once :
    create_or_adopt_prepared short_plan recording_evidence sample_machine
    ≡ (ok created, prepared_machine)
unfolding create_or_adopt_prepared prepared_machine text text_eq matches_sha256 begin read_job query
    adopt_or_insert find_job look_at execute insert_job prepared_job commit
prepared_once = refl

create_or_adopt_prepared-again_example :
    create_or_adopt_prepared short_plan recording_evidence (calm prepared_machine)
    ≡ (ok existing, calm prepared_machine)
create_or_adopt_prepared-again_example =
    create_or_adopt_prepared-again short_plan recording_evidence sample_machine prepared_machine
      created refl prepared_once

-- A runtime whose digests are all the same.
unfoldable steady : Runtime
unfolding sample_runtime
steady = record sample_runtime { sha256 = λ bytes. recording_digest }

steady_digests : IsDigest steady
unfolding steady matches_pattern matches_sha256 at_end
steady_digests bytes = refl

recording-IsValid : IsValid steady recording_evidence
unfolding matches_artifact_id matches_pattern matches_source_id is_instant steady starts_with text
    text_eq serialize manifest_fields matches_sha256 enclosed entry_texts sorted key_compare
    text_compare decimal
recording-IsValid = (refl, refl, refl, refl, refl, refl)

integrity_known : has_text integrity_profile profiles ≡ true
unfolding has_text text text_eq
integrity_known = refl

plan_derivation-returns_example : Planned steady recording_evidence integrity_profile
plan_derivation-returns_example =
    plan_derivation-returns steady recording_evidence integrity_profile steady_digests
      recording-IsValid integrity_known
