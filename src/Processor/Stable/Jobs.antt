-- ===== src/Processor/Stable/Jobs.antt =====
-- The job authority and the evidence gate of components/processor-worker/apps/edge_agent/process.py
-- keep what single effects keep.
use edge_evidence_showcase.Prelude.{ℕ, zero, suc, refl, Option, none, some, List, Text}
use edge_evidence_showcase.Exec.{raise, ◌>>◌}
use edge_evidence_showcase.Exec.Triple.{Keeps, Keeps-raise, Keeps-pure, Keeps-if, Keeps-bind}
use edge_evidence_showcase.Processor.Runtime.{
  SqliteError, Error, failure, lock_busy, processing, sqlite, os_error, overflow, collision, killed,
  Runtime,
}
use edge_evidence_showcase.Processor.Ledger.{ArtifactFacts, Job}
use edge_evidence_showcase.Processor.Ledger.Steps.{adds_artifact, adds_job, adds_lineage, completes}
use edge_evidence_showcase.Processor.Machine.{Machine, roll_back}
use edge_evidence_showcase.Processor.Verification.{verify_media_and_manifest}
use edge_evidence_showcase.Processor.Plan.{ProcessRequest, InputEvidence, DerivedPlan}
use edge_evidence_showcase.Processor.Evidence.{
  row_found, read_input_row, as_evidence, require_regular, evidence_gate,
}
use edge_evidence_showcase.Processor.Jobs.{
  read_job, prepared_job, adopt_or_insert, prepared_failed, create_or_adopt_prepared,
  artifact_found, upsert_derived_artifact, lineage_found, upsert_lineage, transition_found,
  transition_job_complete, complete_failed, complete_rows, finalize_complete, unambiguous,
  require_unambiguous_input_assertion,
}
use edge_evidence_showcase.Processor.Stable.{
  Spends, Stable, catch-Keeps, on_os_error-Keeps, read_bytes-Keeps, query-Keeps, execute-Keeps,
  begin-Keeps, commit-Keeps,
}
use edge_evidence_showcase.Processor.Stable.Staging.{
  look_at-Keeps, look-Keeps, attempt-Keeps, ensure-Keeps, require_within_spool-Keeps,
  hash_file-Keeps,
}

module _ (P : Machine → Type 0) (sp : Spends P) where
  pub read_job-Keeps : (job_id : Text) → Keeps P (read_job job_id)
  unfolding read_job
  read_job-Keeps job_id = query-Keeps P sp _

  unambiguous-Keeps : (n : ℕ) → Keeps P (unambiguous n)
  unfolding unambiguous
  unambiguous-Keeps zero = Keeps-raise _
  unambiguous-Keeps (suc zero) = Keeps-pure tt
  unambiguous-Keeps (suc (suc n)) = Keeps-raise _

  pub require_unambiguous_input_assertion-Keeps :
      (id : Text) → Keeps P (require_unambiguous_input_assertion id)
  unfolding require_unambiguous_input_assertion
  require_unambiguous_input_assertion-Keeps id =
      Keeps-bind _ _ (query-Keeps P sp _) unambiguous-Keeps

  row_found-Keeps : (o : Option ArtifactFacts) → Keeps P (row_found o)
  unfolding row_found
  row_found-Keeps none = Keeps-raise _
  row_found-Keeps (some facts) = Keeps-pure facts

  read_input_row-Keeps : (id : Text) → Keeps P (read_input_row id)
  unfolding read_input_row
  read_input_row-Keeps id = Keeps-bind _ _ (query-Keeps P sp _) row_found-Keeps

  pub as_evidence-Keeps : {A : Type 0} (x : Error) → Keeps {A = A} P (as_evidence x)
  unfolding as_evidence
  as_evidence-Keeps (failure c) = Keeps-raise (failure 6)
  as_evidence-Keeps lock_busy = Keeps-raise lock_busy
  as_evidence-Keeps (processing c) = Keeps-raise (processing c)
  as_evidence-Keeps (sqlite e) = Keeps-raise (sqlite e)
  as_evidence-Keeps os_error = Keeps-raise os_error
  as_evidence-Keeps overflow = Keeps-raise overflow
  as_evidence-Keeps collision = Keeps-raise collision
  as_evidence-Keeps killed = Keeps-raise killed

  pub require_regular-Keeps : (path : Text) → Keeps P (require_regular path)
  unfolding require_regular
  require_regular-Keeps path =
      Keeps-bind _ _ (look-Keeps P path)
        λ i. Keeps-bind _ _ (ensure-Keeps P _ _) λ _. ensure-Keeps P _ _

module _ (P : Machine → Type 0) (sp : Spends P) (runtime : Runtime) where
  verify_media_and_manifest-Keeps :
      (hex path : Text) (bytes : List ℕ) (start : Text)
      → Keeps P (verify_media_and_manifest runtime hex path bytes start)
  unfolding verify_media_and_manifest
  verify_media_and_manifest-Keeps hex path bytes start =
      Keeps-bind _ _ (attempt-Keeps P _) λ manifest.
        Keeps-bind _ _ (hash_file-Keeps P sp runtime path) λ hashed.
          Keeps-bind _ _ (ensure-Keeps P _ _) λ _. Keeps-bind _ _ (attempt-Keeps P _) λ _.
            Keeps-bind _ _ (on_os_error-Keeps P sp 6 _ (read_bytes-Keeps P sp path))
              λ media. Keeps-bind _ _ (attempt-Keeps P _) λ _. Keeps-pure _

  pub evidence_gate-Keeps : (request : ProcessRequest) → Keeps P (evidence_gate runtime request)
  unfolding evidence_gate
  evidence_gate-Keeps request =
      Keeps-bind _ _ (read_input_row-Keeps P sp request.input_artifact_id) λ row.
        Keeps-bind _ _ (ensure-Keeps P _ _) λ _.
          Keeps-bind _ _
            (catch-Keeps P sp _ as_evidence
              (Keeps-bind _ _ (require_within_spool-Keeps P sp _)
                λ _. require_within_spool-Keeps P sp _)
              (as_evidence-Keeps P sp))
            λ _. Keeps-bind _ _ (require_regular-Keeps P sp _) λ _.
              Keeps-bind _ _ (require_regular-Keeps P sp _) λ _.
                Keeps-bind _ _ (ensure-Keeps P _ _) λ _.
                  Keeps-bind _ _ (on_os_error-Keeps P sp 6 _ (read_bytes-Keeps P sp _)) λ bytes.
                    Keeps-bind _ _ (attempt-Keeps P _) λ start.
                      Keeps-bind _ _ (verify_media_and_manifest-Keeps _ _ bytes start)
                        λ verified. Keeps-bind _ _ (ensure-Keeps P _ _) λ _. Keeps-pure _

module _ (P : Machine → Type 0) (s : Stable P) where
  roll_back-Keeps : Keeps P roll_back
  unfolding roll_back
  roll_back-Keeps = record { at = s.rolling }

  undone : {A : Type 0} (x : Error) → Keeps {A = A} P (roll_back >> raise x)
  undone x = Keeps-bind _ _ roll_back-Keeps (λ _. Keeps-raise x)

  adopt_or_insert-Keeps :
      (plan : DerivedPlan) (evidence : InputEvidence) (o : Option Job)
      → Keeps P (adopt_or_insert plan evidence o)
  unfolding adopt_or_insert
  adopt_or_insert-Keeps plan evidence (some j) =
      Keeps-bind _ _ roll_back-Keeps λ _. Keeps-if _ _ _ (Keeps-pure _) (Keeps-raise _)
  adopt_or_insert-Keeps plan evidence none = Keeps-bind _ _ (look_at-Keeps P _) λ now.
      Keeps-bind _ _
        (execute-Keeps P s _
          (λ db t e. adds_job (prepared_job plan evidence now) (unfold prepared_job in refl) e))
        λ _. Keeps-bind _ _ (commit-Keeps P s) λ _. Keeps-pure _

  prepared_failed-Keeps : {A : Type 0} (x : Error) → Keeps {A = A} P (prepared_failed x)
  unfolding prepared_failed
  prepared_failed-Keeps (sqlite SqliteError.integrity) = undone (failure 4)
  prepared_failed-Keeps (sqlite SqliteError.operational) = undone (failure 7)
  prepared_failed-Keeps (sqlite SqliteError.unspecified) = undone (failure 7)
  prepared_failed-Keeps (failure c) = Keeps-raise (failure c)
  prepared_failed-Keeps lock_busy = Keeps-raise lock_busy
  prepared_failed-Keeps (processing c) = Keeps-raise (processing c)
  prepared_failed-Keeps os_error = Keeps-raise os_error
  prepared_failed-Keeps overflow = Keeps-raise overflow
  prepared_failed-Keeps collision = Keeps-raise collision
  prepared_failed-Keeps killed = Keeps-raise killed

  pub create_or_adopt_prepared-Keeps :
      (plan : DerivedPlan) (evidence : InputEvidence)
      → Keeps P (create_or_adopt_prepared plan evidence)
  unfolding create_or_adopt_prepared
  create_or_adopt_prepared-Keeps plan evidence = Keeps-bind _ _ (begin-Keeps P s) λ _.
      catch-Keeps P s.spending _ prepared_failed
        (Keeps-bind _ _ (read_job-Keeps P s.spending plan.job_id)
          (adopt_or_insert-Keeps plan evidence))
        prepared_failed-Keeps

  artifact_found-Keeps :
      (plan : DerivedPlan) (evidence : InputEvidence) (o : Option ArtifactFacts)
      → Keeps P (artifact_found plan evidence o)
  unfolding artifact_found
  artifact_found-Keeps plan evidence (some facts) = Keeps-if _ _ _ (Keeps-pure _) (Keeps-raise _)
  artifact_found-Keeps plan evidence none =
      Keeps-bind _ _ (execute-Keeps P s _ (λ db t e. adds_artifact _ e)) λ _. Keeps-pure _

  lineage_found-Keeps :
      (plan : DerivedPlan) (evidence : InputEvidence) (o : Option (Text × Text))
      → Keeps P (lineage_found plan evidence o)
  unfolding lineage_found
  lineage_found-Keeps plan evidence (some row) = Keeps-if _ _ _ (Keeps-pure _) (Keeps-raise _)
  lineage_found-Keeps plan evidence none =
      Keeps-bind _ _ (execute-Keeps P s _ (λ db t e. adds_lineage _ e)) λ _. Keeps-pure _

  transition_found-Keeps : (plan : DerivedPlan) (o : Option Job) → Keeps P (transition_found plan o)
  unfolding transition_found
  transition_found-Keeps plan none = Keeps-raise _
  transition_found-Keeps plan (some j) =
      Keeps-if _ _ _ (Keeps-if _ _ _ (Keeps-pure _) (Keeps-raise _)) (
        Keeps-bind _ _ (look_at-Keeps P _) λ now.
          Keeps-bind _ _ (execute-Keeps P s _ (λ db t e. completes _ _ now e)) λ _. Keeps-pure _)

  complete_rows-Keeps :
      (plan : DerivedPlan) (evidence : InputEvidence) → Keeps P (complete_rows plan evidence)
  unfolding complete_rows upsert_derived_artifact upsert_lineage transition_job_complete
  complete_rows-Keeps plan evidence =
      Keeps-bind _ _
        (Keeps-bind _ _ (query-Keeps P s.spending _) (artifact_found-Keeps plan evidence))
        λ _.
          Keeps-bind _ _
            (Keeps-bind _ _ (query-Keeps P s.spending _) (lineage_found-Keeps plan evidence))
            λ _.
              Keeps-bind _ _
                (Keeps-bind _ _ (read_job-Keeps P s.spending plan.job_id)
                  (transition_found-Keeps plan))
                λ _. Keeps-bind _ _ (commit-Keeps P s) λ _. Keeps-pure _

  complete_failed-Keeps : {A : Type 0} (x : Error) → Keeps {A = A} P (complete_failed x)
  unfolding complete_failed
  complete_failed-Keeps (sqlite SqliteError.integrity) = undone (failure 6)
  complete_failed-Keeps (sqlite SqliteError.operational) = undone (failure 7)
  complete_failed-Keeps (sqlite SqliteError.unspecified) = undone (failure 7)
  complete_failed-Keeps (failure c) = undone (failure c)
  complete_failed-Keeps lock_busy = Keeps-raise lock_busy
  complete_failed-Keeps (processing c) = Keeps-raise (processing c)
  complete_failed-Keeps os_error = Keeps-raise os_error
  complete_failed-Keeps overflow = Keeps-raise overflow
  complete_failed-Keeps collision = Keeps-raise collision
  complete_failed-Keeps killed = Keeps-raise killed

  pub finalize_complete-Keeps :
      (plan : DerivedPlan) (evidence : InputEvidence) → Keeps P (finalize_complete plan evidence)
  unfolding finalize_complete
  finalize_complete-Keeps plan evidence = Keeps-bind _ _ (begin-Keeps P s) λ _.
      catch-Keeps P s.spending _ complete_failed (complete_rows-Keeps plan evidence)
        complete_failed-Keeps
