-- ===== src/Processor/Stable/Process.antt =====
-- `process_artifact` of components/processor-worker/apps/edge_agent/process.py keeps what single
-- effects keep.
use edge_evidence_showcase.Prelude.{◌≡◌, refl, Option, none, some, [], Text}
use edge_evidence_showcase.Exec.{Result, ok, err}
use edge_evidence_showcase.Exec.Triple.{
  Post, Keeps, Keeps-raise, Keeps-pure, Keeps-if, Keeps-bind, Keeps-finally,
}
use edge_evidence_showcase.Processor.Runtime.{
  Error, failure, lock_busy, processing, sqlite, os_error, overflow, collision, killed, Runtime,
}
use edge_evidence_showcase.Processor.Machine.{
  Item, regular, folder, link, special, Machine, Call, item_at, put_item, set_files, rollback,
}
use edge_evidence_showcase.Processor.Locking.{
  lock_path, opened_item, opened, open_lock_file, acquire, acquired, spool_lock,
}
use edge_evidence_showcase.Processor.Plan.{ProcessRequest, InputEvidence, DerivedPlan}
use edge_evidence_showcase.Processor.Process.{
  as_unopened, connect, require_v4, verify_authority, derive, adopt_or_derive, process_connected,
  process_artifact,
}
use edge_evidence_showcase.Processor.Stable.{
  Spends, Stable, catch-Keeps, on_os_error-Keeps, probe-Keeps, query-Keeps,
}
use edge_evidence_showcase.Processor.Stable.Staging.{
  look-Keeps, attempt-Keeps, ensure-Keeps, check-Keeps,
}
use edge_evidence_showcase.Processor.Stable.Jobs.{
  read_job-Keeps, create_or_adopt_prepared-Keeps, finalize_complete-Keeps,
  require_unambiguous_input_assertion-Keeps, evidence_gate-Keeps,
}
use edge_evidence_showcase.Processor.Stable.Publishing.{
  produce_and_publish-Keeps, preflight_processing_paths-Keeps, verify_final_pair-Keeps,
}

module _ (P : Machine → Type 0) (sp : Spends P) where
  as_unopened-Keeps : (x : Error) → Keeps P (as_unopened x)
  unfolding as_unopened
  as_unopened-Keeps (sqlite e) = Keeps-raise (failure 7)
  as_unopened-Keeps (failure c) = Keeps-raise (failure c)
  as_unopened-Keeps lock_busy = Keeps-raise lock_busy
  as_unopened-Keeps (processing c) = Keeps-raise (processing c)
  as_unopened-Keeps os_error = Keeps-raise os_error
  as_unopened-Keeps overflow = Keeps-raise overflow
  as_unopened-Keeps collision = Keeps-raise collision
  as_unopened-Keeps killed = Keeps-raise killed

  pub connect-Keeps : Keeps P connect
  unfolding connect
  connect-Keeps =
      Keeps-bind _ _ (catch-Keeps P sp _ as_unopened (query-Keeps P sp _) as_unopened-Keeps) λ _.
        Keeps-bind _ _ (query-Keeps P sp _)
          λ _. Keeps-bind _ _ (query-Keeps P sp _) λ _. query-Keeps P sp _

  pub require_v4-Keeps : Keeps P require_v4
  unfolding require_v4
  require_v4-Keeps = Keeps-bind _ _ (query-Keeps P sp _) λ present.
      Keeps-bind _ _ (ensure-Keeps P _ _)
        λ _. Keeps-bind _ _ (query-Keeps P sp _) λ recorded. ensure-Keeps P _ _

module _ (P : Machine → Type 0) (sp : Spends P) (runtime : Runtime) where
  pub verify_authority-Keeps :
      (plan : DerivedPlan) (evidence : InputEvidence)
      → Keeps P (verify_authority runtime plan evidence)
  unfolding verify_authority
  verify_authority-Keeps plan evidence =
      Keeps-bind _ _ (verify_final_pair-Keeps P sp runtime plan evidence) λ _.
        Keeps-bind _ _ (read_job-Keeps P sp _) λ job. Keeps-bind _ _ (ensure-Keeps P _ _) λ _.
          Keeps-bind _ _ (query-Keeps P sp _) λ artifact.
            Keeps-bind _ _ (ensure-Keeps P _ _)
              λ _. Keeps-bind _ _ (query-Keeps P sp _) λ lineage. ensure-Keeps P _ _

module _ (P : Machine → Type 0) (sp : Spends P)
    (locking : (m : Machine) → P m → P (record m { attempts = [] }))
    (adding : (m : Machine) (path : Text) (item : Item)
      → item_at path m.files ≡ none
      → P m
      → P (set_files (put_item path item m.files) m)) where
  found_item :
      (o : Option Item) (m : Machine)
      → item_at lock_path m.files ≡ o
      → P m
      → Post (λ _. P) (λ _. P) (opened_item o m)
  unfolding opened_item
  found_item none m e p = adding m lock_path (regular []) e p
  found_item (some (regular b)) m e p = p
  found_item (some (folder d)) m e p = p
  found_item (some link) m e p = p
  found_item (some special) m e p = p

  opened-Keeps : Keeps P opened
  unfolding opened
  opened-Keeps = record { at = λ m p. found_item (item_at lock_path m.files) m refl p }

  pub open_lock_file-Keeps : Keeps P open_lock_file
  unfolding open_lock_file
  open_lock_file-Keeps =
      let probed = on_os_error-Keeps P sp 5 _ (probe-Keeps P sp) in
      Keeps-bind _ _ (look-Keeps P _) λ i.
        Keeps-bind _ _ (ensure-Keeps P _ _)
          λ _. Keeps-bind _ _ probed λ _. Keeps-bind _ _ opened-Keeps λ _. probed

  taken : (r : Result Error Unit) (m : Machine) → P m → Post (λ _. P) (λ _. P) (r, m)
  taken (ok a) m p = p
  taken (err x) m p = p

  pub acquired-Keeps : Keeps P acquired
  unfolding acquired
  acquired-Keeps = record { at = λ m p. taken (acquire m.attempts) _ (locking m p) }

  pub spool_lock-Keeps :
      {A : Type 0} (mode : Text) (body : Call A) → Keeps P body → Keeps P (spool_lock mode body)
  unfolding spool_lock
  spool_lock-Keeps mode body k = Keeps-bind _ _ (ensure-Keeps P _ _) λ _.
      Keeps-bind _ _ (check-Keeps P _ _)
        λ _. Keeps-bind _ _ open_lock_file-Keeps λ _. Keeps-bind _ _ acquired-Keeps λ _. k

module _ (P : Machine → Type 0) (s : Stable P) (runtime : Runtime) where
  derive-Keeps :
      (plan : DerivedPlan) (evidence : InputEvidence) → Keeps P (derive runtime plan evidence)
  unfolding derive
  derive-Keeps plan evidence =
      Keeps-bind _ _ (require_unambiguous_input_assertion-Keeps P s.spending _) λ _.
        Keeps-bind _ _ (preflight_processing_paths-Keeps P s.spending runtime plan) λ _.
          Keeps-bind _ _ (create_or_adopt_prepared-Keeps P s plan evidence) λ _.
            Keeps-bind _ _ (produce_and_publish-Keeps P s runtime plan) λ _.
              Keeps-bind _ _ (verify_final_pair-Keeps P s.spending runtime plan evidence) λ _.
                Keeps-bind _ _ (finalize_complete-Keeps P s plan evidence) λ _.
                  Keeps-bind _ _ (verify_authority-Keeps P s.spending runtime plan evidence)
                    λ _. Keeps-pure _

  process_connected-Keeps : (request : ProcessRequest) → Keeps P (process_connected runtime request)
  unfolding process_connected adopt_or_derive
  process_connected-Keeps request = Keeps-bind _ _ (require_v4-Keeps P s.spending) λ _.
      Keeps-bind _ _ (evidence_gate-Keeps P s.spending runtime request) λ evidence.
        Keeps-bind _ _ (attempt-Keeps P _) λ plan.
          Keeps-bind _ _ (read_job-Keeps P s.spending _) λ job.
            Keeps-if _ _ _
              (Keeps-bind _ _ (verify_authority-Keeps P s.spending runtime plan evidence)
                λ _. Keeps-pure _)
              (derive-Keeps plan evidence)

  -- However a run ends, also where it is killed, it keeps what each single effect keeps.
  pub process_artifact-Keeps :
      (request : ProcessRequest) → Keeps P (process_artifact runtime request)
  unfolding process_artifact
  process_artifact-Keeps request = Keeps-bind _ _ (attempt-Keeps P _) λ _.
      Keeps-bind _ _ (check-Keeps P _ _) λ _. spool_lock-Keeps P s.spending s.locking s.adding _ _ (
        Keeps-bind _ _ (connect-Keeps P s.spending)
          λ _. Keeps-finally _ rollback s.rolling (process_connected-Keeps request))
