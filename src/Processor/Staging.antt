-- ===== src/Processor/Staging.antt =====
-- components/processor-worker/apps/edge_agent/staging.py: guards, publication without replacement
-- and quarantine. The crash barriers do nothing in production.
use edge_evidence_showcase.Prelude.{
  ℕ, Bool, false, not, ◌&&◌, some, List, [], ◌∷◌, ◌++◌, Text, text, text_eq, ◌==◌, if◌then◌else◌,
}
use edge_evidence_showcase.Exec.{pure, raise, catch, ◌>>=◌, ◌>>◌}
use edge_evidence_showcase.Contracts.{slash}
use edge_evidence_showcase.Processor.Json.{decimal}
use edge_evidence_showcase.Processor.Runtime.{Error, failure, collision, Runtime}
use edge_evidence_showcase.Processor.Machine.{
  folder, Files, Call, look, ensure, check, item_at, is_link, is_there, parents, read_bytes, probe,
  on_os_error, make_parents, create, append, hard_link, unlink,
}
use edge_evidence_showcase.Processor.Verification.{crosses_link, require_within_spool, hash_file}

-- path / name
unfoldable pub under : Text → Text → Text
under path name = path ++ slash ∷ name

unfoldable pub occurrence_media_partial : Text → Text → ℕ → Text
unfolding under decimal
occurrence_media_partial source_id session_id sequence =
    under (under (under (text "partial") source_id) session_id)
      (decimal sequence ++ text ".mp4.partial")

unfoldable pub occurrence_manifest_partial : Text → Text → ℕ → Text
unfolding under decimal
occurrence_manifest_partial source_id session_id sequence =
    under (under (under (text "partial") source_id) session_id)
      (decimal sequence ++ text ".manifest.json.partial")

unfoldable pub quarantine_media : Text → Text
unfolding under
quarantine_media occurrence_id =
    under (under (text "quarantine") occurrence_id) (text "media.mp4.partial")

unfoldable pub quarantine_manifest : Text → Text
unfolding under
quarantine_manifest occurrence_id =
    under (under (text "quarantine") occurrence_id) (text "manifest.json.partial")

-- except FinalizeError: raise RegisterError(code=5)
unfoldable pub as_unsafe : {A : Type 0} → Error → Call A
as_unsafe (failure code) = raise (failure 5)
as_unsafe x = raise x

-- _guard_within_spool
unfoldable pub guard_within_spool : Text → Call Unit
guard_within_spool path = do
  catch (require_within_spool path) as_unsafe
  i ← look path
  ensure (not (is_link i)) (failure 5)

-- _reject_symlinked_ancestors
unfoldable pub reject_symlinked_ancestors : Text → Call Unit
reject_symlinked_ancestors path = do
  check (λ m. not (crosses_link (parents path) m.files)) (failure 5)

-- The device of the last of these folders that exists.
unfoldable pub nearest_device : ℕ → List Text → Files → ℕ
unfolding item_at
nearest_device device [] fs = device
nearest_device device (p ∷ ps) fs =
    let next = λ (d : ℕ). nearest_device d ps fs in
    elim (item_at p fs) [ some (folder d) ↦ next d | _ ↦ next device ]

-- _prove_same_filesystem
unfoldable pub prove_same_filesystem : Text → Call Unit
prove_same_filesystem path = do
  on_os_error 5 (probe >> probe)
  check (λ m. nearest_device m.device (parents path) m.files == m.device) (failure 5)

unfoldable pub guarded : Text → Call Unit
guarded path = do
  guard_within_spool path
  reject_symlinked_ancestors path
  prove_same_filesystem path

unfoldable pub preflight_occurrence_partials : Text → Text → Call Unit
preflight_occurrence_partials media_partial manifest_partial =
    guarded media_partial >> guarded manifest_partial

unfoldable pub fsync_dir : Call Unit
fsync_dir = on_os_error 5 probe >> on_os_error 5 probe

-- A partial of these bytes: the name is taken exclusively, then the bytes are written and synced.
unfoldable pub write_manifest_partial : Text → List ℕ → Call Unit
write_manifest_partial staging payload = do
  fresh ← on_os_error 5 (create staging)
  ensure fresh (failure 4)
  on_os_error 5 (append staging payload)

unfoldable pub publish_no_replace : Text → Text → Call Unit
publish_no_replace source final = do
  guard_within_spool final
  prove_same_filesystem final
  on_os_error 5 (make_parents final)
  linked ← on_os_error 5 (hard_link source final)
  ensure linked collision
  on_os_error 5 (unlink source)
  fsync_dir
  fsync_dir

unfoldable pub verify_manifest_bytes : Text → List ℕ → Call Unit
verify_manifest_bytes final_manifest payload = do
  actual ← on_os_error 6 (read_bytes final_manifest)
  ensure (text_eq actual payload) (failure 6)

-- _remove_and_fsync_partial
unfoldable pub remove_and_fsync_partial : Text → Call Unit
remove_and_fsync_partial partial = on_os_error 5 (unlink partial) >> fsync_dir

-- except FinalizeError: return False
unfoldable pub as_false : Error → Call Bool
as_false (failure code) = pure false
as_false x = raise x

module _ (runtime : Runtime) where
  unfoldable pub verify_media_matches : Text → Text → ℕ → Call Unit
  verify_media_matches final_media sha256_hex byte_size = do
    (actual_hash, actual_size) ← hash_file runtime final_media
    ensure (text_eq actual_hash sha256_hex && actual_size == byte_size) (failure 6)

  -- _same_bytes
  unfoldable pub same_bytes : Text → Text → Call Bool
  same_bytes a b =
      catch (hash_file runtime a >>= λ x. hash_file runtime b >>= λ y. pure (text_eq x.0 y.0))
        as_false

  -- The destination is there already: the source goes if it has the same digest.
  unfoldable pub quarantine_existing : Text → Text → Call Unit
  quarantine_existing source dest = do
    same ← same_bytes source dest
    ensure same (failure 6)
    on_os_error 5 (unlink source)
    fsync_dir
    fsync_dir

  unfoldable pub quarantine_new : Text → Text → Call Unit
  quarantine_new source dest = do
    linked ← on_os_error 5 (hard_link source dest)
    ensure linked (failure 4)
    on_os_error 5 (unlink source)
    fsync_dir
    fsync_dir

  unfoldable pub quarantine_partial : Text → Text → Call Unit
  quarantine_partial source dest = do
    guard_within_spool dest
    prove_same_filesystem dest
    on_os_error 5 (make_parents dest)
    i ← look dest
    ensure (not (is_link i)) (failure 5)
    if is_there i then quarantine_existing source dest else quarantine_new source dest
