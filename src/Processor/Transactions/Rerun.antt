-- ===== src/Processor/Transactions/Rerun.antt =====
-- The transactions of components/processor-worker/apps/edge_agent/process.py once more, on a database
-- where no call fails: what is recorded is adopted, and an ambiguous input is refused.
use edge_evidence_showcase.Prelude.{
  ℕ, zero, suc, ◌≡◌, ◌≢◌, refl, subst, true, false, none, some, List, [], ◌∷◌, ◌++◌, Text,
  text_eq_refl, eq→==, arith, if◌then◌else◌, ◌==◌,
}
use edge_evidence_showcase.Exec.{ok, err}
use edge_evidence_showcase.Exec.Triple.{Post}
use edge_evidence_showcase.Processor.Runtime.{failure, Runtime}
use edge_evidence_showcase.Processor.Report.{relation_type}
use edge_evidence_showcase.Processor.Ledger.{
  ArtifactFacts, JobIdentity, Job, complete, find_artifact, find_job, find_lineage, facts_eq,
  identity_eq, is_prepared,
}
use edge_evidence_showcase.Processor.Machine.{
  Machine, query, begin, commit, current, with_sqlite, next_fault, later_faults, roll_back,
}
use edge_evidence_showcase.Processor.Plan.{InputEvidence, DerivedPlan, expected_facts, job_identity}
use edge_evidence_showcase.Processor.Jobs.{
  Disposition, created, existing, finalize_complete, create_or_adopt_prepared, count_assertions,
  is_output, is_relation, upsert_derived_artifact, artifact_found, upsert_lineage, lineage_found,
  transition_job_complete, transition_found, read_job, complete_rows, adopt_or_insert, prepared_job,
  require_unambiguous_input_assertion, unambiguous,
}
use edge_evidence_showcase.Processor.Process.{derive}
use edge_evidence_showcase.Processor.Verified.{PlannedRows}
use edge_evidence_showcase.Processor.Transactions.Preparing.{
  Prepared, create_or_adopt_prepared-atomic,
}

-- No transaction is open, and no call fails.
abbrev pub calm : Machine → Machine
calm m = record m { working = none; faults = [] }

-- The same with a transaction open that has written nothing.
abbrev reading : Machine → Machine
reading m = record m { working = some m.committed; faults = [] }

facts_eq_refl : (f : ArtifactFacts) → facts_eq f f ≡ true
unfolding facts_eq
facts_eq_refl f =
    rw
      (
        text_eq_refl f.source_id,
        text_eq_refl f.artifact_kind,
        text_eq_refl f.media_type,
        eq→== f.byte_size f.byte_size refl,
        text_eq_refl f.digest_algorithm,
        text_eq_refl f.digest_value,
        text_eq_refl f.storage_uri,
        text_eq_refl f.manifest_uri,
        text_eq_refl f.manifest_sha256,
        text_eq_refl f.finalized_at,
      )
      refl

identity_eq_refl : (i : JobIdentity) → identity_eq i i ≡ true
unfolding identity_eq
identity_eq_refl i =
    rw
      (
        text_eq_refl i.input_artifact_id,
        text_eq_refl i.processor_name,
        text_eq_refl i.processor_version,
        text_eq_refl i.output_contract,
        text_eq_refl i.parameters_json,
        text_eq_refl i.parameters_sha256,
      )
      refl

module _ (plan : DerivedPlan) (evidence : InputEvidence) (m : Machine) where
  artifact_again :
      find_artifact plan.derived_artifact_id m.committed.artifacts
        ≡ some (expected_facts plan evidence)
      → upsert_derived_artifact plan evidence (reading m) ≡ (ok existing, reading m)
  unfolding upsert_derived_artifact artifact_found query with_sqlite next_fault later_faults current
  artifact_again a = rw (a, artifact_found, facts_eq_refl (expected_facts plan evidence)) refl

  lineage_again :
      find_lineage plan.derived_artifact_id m.committed.artifact_lineage
        ≡ some (evidence.artifact_id, relation_type)
      → upsert_lineage plan evidence (reading m) ≡ (ok existing, reading m)
  unfolding upsert_lineage lineage_found is_relation query with_sqlite next_fault later_faults
      current
  lineage_again l =
      rw
        (
          l,
          lineage_found,
          is_relation,
          text_eq_refl evidence.artifact_id,
          text_eq_refl relation_type,
        )
        refl

  transition_again :
      (j : Job)
      → find_job plan.job_id m.committed.processing_jobs ≡ some j
      → j.state ≡ complete
      → j.output_artifact_id ≡ some plan.derived_artifact_id
      → transition_job_complete plan (reading m) ≡ (ok existing, reading m)
  unfolding transition_job_complete transition_found read_job is_prepared is_output query
      with_sqlite next_fault later_faults current
  transition_again j f c o =
      rw (f, transition_found, c, is_prepared, o, is_output, text_eq_refl plan.derived_artifact_id)
        refl

  -- The COMPLETE transaction over rows that are all recorded reports them as existing and leaves the
  -- database as it was.
  pub finalize_complete-again :
      PlannedRows plan evidence m.committed
      → finalize_complete plan evidence (calm m) ≡ (ok (existing, existing, existing), calm m)
  unfolding finalize_complete begin complete_rows with_sqlite next_fault later_faults commit current
  finalize_complete-again ((j, f, c, o), a, l) =
      rw (artifact_again a, lineage_again l, transition_again j f c o) refl

  adopted_job :
      (j : Job)
      → find_job plan.job_id m.committed.processing_jobs ≡ some j
      → j.identity ≡ job_identity plan evidence
      → create_or_adopt_prepared plan evidence (calm m) ≡ (ok existing, calm m)
  unfolding create_or_adopt_prepared read_job adopt_or_insert begin roll_back query with_sqlite
      next_fault later_faults current
  adopted_job j f e = rw (f, adopt_or_insert, e, identity_eq_refl (job_identity plan evidence)) refl

  -- Where the input has no assertion, or more than one, derive raises with the code 6 or 4 before it
  -- changes a file or a row.
  pub derive-refuses :
      (runtime : Runtime) (n : ℕ)
      → count_assertions evidence.artifact_id m.committed.capture_occurrence_assertions ≡ n
      → n ≢ 1
      → derive runtime plan evidence (calm m) ≡ (err (failure (if n == 0 then 6 else 4)), calm m)
  unfolding derive require_unambiguous_input_assertion unambiguous query with_sqlite next_fault
      later_faults current
  derive-refuses runtime zero e d = rw (e, unambiguous) refl
  derive-refuses runtime (suc zero) e d = absurd (d refl)
  derive-refuses runtime (suc (suc n)) e d =
      let two : (suc (suc n) == 0) ≡ false = ground arith in rw (e, unambiguous, two) refl

find_job-last :
    (id : Text) (jobs : List Job) (j : Job)
    → find_job id jobs ≡ none
    → j.job_id ≡ id
    → find_job id (jobs ++ j ∷ []) ≡ some j
unfolding find_job
find_job-last id [] j h e = rw (e, text_eq_refl id) refl
find_job-last id (k ∷ jobs) j h e = ground (arith, find_job-last id jobs j)

-- What _create_or_adopt_prepared has returned for, created or existing, a second call adopts and
-- changes nothing, where no call fails.
pub create_or_adopt_prepared-again :
    (plan : DerivedPlan) (evidence : InputEvidence) (m m' : Machine) (d : Disposition)
    → m.working ≡ none
    → create_or_adopt_prepared plan evidence m ≡ (ok d, m')
    → create_or_adopt_prepared plan evidence (calm m') ≡ (ok existing, calm m')
unfolding prepared_job
create_or_adopt_prepared-again plan evidence m m' d w e = adopt d (
    subst
      (Post (λ d m'. Prepared plan evidence m.committed d m'.committed)
        (λ _ m'. m'.committed ≡ m.committed))
      e (create_or_adopt_prepared-atomic plan evidence m w))
  where
    adopt :
        (d : Disposition)
        → Prepared plan evidence m.committed d m'.committed
        → create_or_adopt_prepared plan evidence (calm m') ≡ (ok existing, calm m')
    adopt created (now, n, q) =
        adopted_job plan evidence m' (prepared_job plan evidence now)
          (rw q (
            find_job-last plan.job_id m.committed.processing_jobs (prepared_job plan evidence now) n
              refl))
          refl
    adopt existing (j, f, i, q) = adopted_job plan evidence m' j (rw q f) i
