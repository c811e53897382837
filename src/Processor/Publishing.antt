-- ===== src/Processor/Publishing.antt =====
-- The files of a derivation in components/processor-worker/apps/edge_agent/process.py: the report is
-- published first and its manifest last.
use edge_evidence_showcase.Prelude.{
  ℕ, ◌/◌, Bool, true, false, not, ◌&&◌, Option, none, some, List, Text, text, text_eq, length, take,
  drop, ltb, if◌then◌else◌,
}
use edge_evidence_showcase.Exec.{ok, err, pure, raise, catch, ◌>>=◌, ◌>>◌}
use edge_evidence_showcase.Processor.Json.{Json, Fields, find_field, serialize}
use edge_evidence_showcase.Processor.Runtime.{Error, failure, collision, Runtime}
use edge_evidence_showcase.Processor.Manifest.{
  is_integer, is_text, members, validate_manifest_shape,
}
use edge_evidence_showcase.Processor.Report.{artifact_kind, media_type}
use edge_evidence_showcase.Processor.Machine.{
  Item, Call, look, ensure, is_file, is_there, read_bytes, on_os_error, make_parents, create,
  append,
}
use edge_evidence_showcase.Processor.Staging.{
  guarded, prove_same_filesystem, write_manifest_partial, publish_no_replace, verify_manifest_bytes,
  remove_and_fsync_partial, quarantine_partial,
}
use edge_evidence_showcase.Processor.Plan.{
  InputEvidence, DerivedPlan, complete_storage_uri, output_partial, manifest_partial,
  quarantine_path, final_report, final_manifest,
}

-- max(1, len(payload) // 2)
unfoldable pub half : List ℕ → ℕ
half payload = if ltb 1 (length payload / 2) then length payload / 2 else 1

-- _write_partial_with_barrier
unfoldable pub write_partial_with_barrier : Text → List ℕ → Call Unit
write_partial_with_barrier partial payload = do
  fresh ← on_os_error 5 (create partial)
  ensure fresh (failure 4)
  on_os_error 5 (append partial (take (half payload) payload))
  on_os_error 5 (append partial (drop (half payload) payload))

-- except staging._PublishCollision
unfoldable pub adopt_on_collision : Text → Text → List ℕ → Error → Call Unit
adopt_on_collision partial final payload collision =
    verify_manifest_bytes final payload >> remove_and_fsync_partial partial
adopt_on_collision partial final payload x = raise x

-- try: publish_no_replace …  except _PublishCollision: …
unfoldable pub publish : Text → Text → List ℕ → Call Unit
publish partial final payload =
    catch (publish_no_replace partial final) (adopt_on_collision partial final payload)

-- A file that is there has these bytes; a failing read is no ProcessError here.
unfoldable pub require_bytes : Text → List ℕ → Option Item → Call Unit
require_bytes path payload i =
    if is_file i
    then (read_bytes path >>= λ bytes. ensure (text_eq bytes payload) (failure 6))
    else pure tt

unfoldable pub kind_of : Bool → Text
kind_of true = text "output"
kind_of false = text "manifest"

module _ (runtime : Runtime) where
  -- A stale partial goes to quarantine under its digest.
  unfoldable pub quarantine_stale : Text → Text → Bool → List ℕ → Call Unit
  quarantine_stale partial job_id is_output existing =
      quarantine_partial runtime partial
        (quarantine_path job_id (runtime.sha256 existing) (kind_of is_output))

  unfoldable pub write_partial : Bool → Text → List ℕ → Call Unit
  write_partial true partial payload = write_partial_with_barrier partial payload
  write_partial false partial payload = write_manifest_partial partial payload

  -- _stage_partial; the output is written with a barrier, the manifest without
  unfoldable pub stage_found : Bool → Text → List ℕ → Text → Option Item → Call Unit
  stage_found is_output partial payload job_id i =
      if not (is_there i)
      then write_partial is_output partial payload
      else if not (is_file i)
      then raise (failure 5)
      else (read_bytes partial >>= λ existing.
          if text_eq existing payload
          then pure tt
          else (quarantine_stale partial job_id is_output existing
              >> write_partial is_output partial payload))

  unfoldable pub stage_partial : Bool → Text → List ℕ → Text → Call Unit
  stage_partial is_output partial payload job_id =
      look partial >>= stage_found is_output partial payload job_id

  -- The steps behind the tests: stage both partials, publish the report, publish the manifest.
  unfoldable pub stage_and_publish : DerivedPlan → Bool → Call Unit
  stage_and_publish plan report_is_final = do
    on_os_error 5 (make_parents (output_partial plan))
    prove_same_filesystem (output_partial plan)
    if report_is_final
        then pure tt
        else stage_partial true (output_partial plan) plan.report_bytes plan.job_id
    stage_partial false (manifest_partial plan) plan.manifest_bytes plan.job_id
    if report_is_final
        then pure tt
        else publish (output_partial plan) (final_report plan) plan.report_bytes
    publish (manifest_partial plan) (final_manifest plan) plan.manifest_bytes

  -- _produce_and_publish
  unfoldable pub produce_and_publish : DerivedPlan → Call Unit
  produce_and_publish plan = do
    guarded (final_report plan)
    guarded (final_manifest plan)
    guarded (output_partial plan)
    guarded (manifest_partial plan)
    report ← look (final_report plan)
    manifest ← look (final_manifest plan)
    require_bytes (final_report plan) plan.report_bytes report
    require_bytes (final_manifest plan) plan.manifest_bytes manifest
    if is_file manifest
        then (ensure (is_file report) (failure 6))
        else stage_and_publish plan (is_file report)

  -- A stale partial has a safe place in quarantine.
  unfoldable pub preflight_partial : Text → List ℕ → Text → Bool → Call Unit
  preflight_partial path expected job_id is_output = do
    guarded path
    i ← look path
    if not (is_there i)
        then pure tt
        else if not (is_file i)
        then raise (failure 5)
        else (on_os_error 5 (read_bytes path) >>= λ existing.
            if text_eq existing expected
            then pure tt
            else guarded (quarantine_path job_id (runtime.sha256 existing) (kind_of is_output)))

  -- _preflight_processing_paths
  unfoldable pub preflight_processing_paths : DerivedPlan → Call Unit
  preflight_processing_paths plan = do
    guarded (final_report plan)
    guarded (final_manifest plan)
    preflight_partial (output_partial plan) plan.report_bytes plan.job_id true
    preflight_partial (manifest_partial plan) plan.manifest_bytes plan.job_id false

  -- The facts that the published manifest has to state.
  unfoldable pub manifest_agrees : DerivedPlan → InputEvidence → ℕ → Fields → Bool
  unfolding is_integer is_text members complete_storage_uri
  manifest_agrees plan evidence size fs =
      is_text plan.derived_artifact_id (find_field (text "artifact_id") fs)
      && is_text evidence.source_id (find_field (text "source_id") fs)
      && is_text artifact_kind (find_field (text "artifact_kind") fs)
      && is_text media_type (find_field (text "media_type") fs)
      && is_integer size (find_field (text "byte_size") fs)
      && is_text (complete_storage_uri plan.derived_digest_hex) (find_field (text "storage_uri") fs)
      && is_text evidence.finalized_at (find_field (text "finalized_at") fs)
      && is_text evidence.artifact_id (find_field (text "parent_artifact_id") fs)
      && (elim (members (find_field (text "digest") fs)) [
        | none ↦ false
        | some digest ↦
            is_text (text "sha256") (find_field (text "algorithm") digest)
            && is_text plan.derived_digest_hex (find_field (text "value") digest)
      ])

  -- except FinalizeError: raise ProcessError(code=6)
  unfoldable pub shape_agrees : Json → Bool
  unfolding validate_manifest_shape
  shape_agrees manifest = elim (validate_manifest_shape runtime manifest) [
    | ok _ ↦ true
    | err _ ↦ false
  ]

  -- The tests of _verify_final_pair on the bytes, in their order; every refusal has the code 6.
  unfoldable pub pair_agrees : DerivedPlan → InputEvidence → List ℕ → List ℕ → Bool
  unfolding shape_agrees serialize members manifest_agrees
  pair_agrees plan evidence report_bytes manifest_bytes =
      text_eq report_bytes plan.report_bytes
      && text_eq manifest_bytes plan.manifest_bytes
      && text_eq (runtime.sha256 report_bytes) plan.derived_digest_hex
      && text_eq (runtime.sha256 manifest_bytes) plan.manifest_sha256
      && (elim (runtime.loads manifest_bytes) [
        | none ↦ false
        | some manifest ↦
            shape_agrees manifest
            && text_eq manifest_bytes (serialize manifest)
            && (elim (members (some manifest)) [
              | none ↦ false
              | some fs ↦ manifest_agrees plan evidence (length report_bytes) fs
            ])
      ])

  unfoldable pub require_final : Text → Call Unit
  require_final path = do guarded path; i ← look path; ensure (is_file i) (failure 6)

  -- _verify_final_pair
  unfoldable pub verify_final_pair : DerivedPlan → InputEvidence → Call Unit
  verify_final_pair plan evidence = do
    require_final (final_report plan)
    require_final (final_manifest plan)
    report_bytes ← on_os_error 6 (read_bytes (final_report plan))
    manifest_bytes ← on_os_error 6 (read_bytes (final_manifest plan))
    ensure (pair_agrees plan evidence report_bytes manifest_bytes) (failure 6)
