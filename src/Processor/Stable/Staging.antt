-- ===== src/Processor/Stable/Staging.antt =====
-- The calls of components/processor-worker/apps/edge_agent/staging.py and verification.py keep what
-- single effects keep.
use edge_evidence_showcase.Prelude.{ℕ, Bool, true, false, List, Text}
use edge_evidence_showcase.Exec.{Result, ok, err, ◌>>=◌, ◌>>◌}
use edge_evidence_showcase.Exec.Triple.{Post, Keeps, Keeps-raise, Keeps-pure, Keeps-if, Keeps-bind}
use edge_evidence_showcase.Processor.Runtime.{
  Error, failure, lock_busy, processing, sqlite, os_error, overflow, collision, killed, Runtime,
}
use edge_evidence_showcase.Processor.Machine.{
  Machine, look_at, attempt, ensure, check, look, probe, on_os_error, hard_link, unlink,
}
use edge_evidence_showcase.Processor.Verification.{require_within_spool, hash_file}
use edge_evidence_showcase.Processor.Staging.{
  as_unsafe, guard_within_spool, reject_symlinked_ancestors, prove_same_filesystem, guarded,
  fsync_dir, write_manifest_partial, publish_no_replace, verify_manifest_bytes,
  remove_and_fsync_partial, as_false, same_bytes, quarantine_existing, quarantine_new,
  quarantine_partial,
}
use edge_evidence_showcase.Processor.Stable.{
  Spends, Spends, IsPartial, Stable, catch-Keeps, on_os_error-Keeps, probe-Keeps, read_bytes-Keeps,
  make_parents-Keeps, create-Keeps, append-Keeps, hard_link-Keeps, unlink-Keeps,
}

module _ (P : Machine → Type 0) where
  pub look_at-Keeps : {A : Type 0} (f : Machine → A) → Keeps P (look_at f)
  unfolding look_at
  look_at-Keeps f = record { at = λ m p. p }

  pub look-Keeps : (path : Text) → Keeps P (look path)
  unfolding look
  look-Keeps path = record { at = λ m p. p }

  pub attempt-Keeps : {A : Type 0} (r : Result Error A) → Keeps P (attempt r)
  unfolding attempt
  attempt-Keeps (ok a) = record { at = λ m p. p }
  attempt-Keeps (err x) = record { at = λ m p. p }

  ensured : (b : Bool) (x : Error) (m : Machine) → P m → Post (λ _. P) (λ _. P) (ensure b x m)
  unfolding ensure
  ensured true x m p = p
  ensured false x m p = p

  pub ensure-Keeps : (b : Bool) (x : Error) → Keeps P (ensure b x)
  ensure-Keeps b x = record { at = ensured b x }

  pub check-Keeps : (f : Machine → Bool) (x : Error) → Keeps P (check f x)
  unfolding check
  check-Keeps f x = record { at = λ m p. ensured (f m) x m p }

module _ (P : Machine → Type 0) (sp : Spends P) where
  pub require_within_spool-Keeps : (path : Text) → Keeps P (require_within_spool path)
  unfolding require_within_spool
  require_within_spool-Keeps path =
      Keeps-bind _ _ (on_os_error-Keeps P sp 5 probe (probe-Keeps P sp)) λ _. check-Keeps P _ _

  as_unsafe-Keeps : {A : Type 0} (x : Error) → Keeps {A = A} P (as_unsafe x)
  unfolding as_unsafe
  as_unsafe-Keeps (failure c) = Keeps-raise (failure 5)
  as_unsafe-Keeps lock_busy = Keeps-raise lock_busy
  as_unsafe-Keeps (processing c) = Keeps-raise (processing c)
  as_unsafe-Keeps (sqlite e) = Keeps-raise (sqlite e)
  as_unsafe-Keeps os_error = Keeps-raise os_error
  as_unsafe-Keeps overflow = Keeps-raise overflow
  as_unsafe-Keeps collision = Keeps-raise collision
  as_unsafe-Keeps killed = Keeps-raise killed

  pub guard_within_spool-Keeps : (path : Text) → Keeps P (guard_within_spool path)
  unfolding guard_within_spool
  guard_within_spool-Keeps path =
      Keeps-bind _ _
        (catch-Keeps P sp _ as_unsafe (require_within_spool-Keeps path) as_unsafe-Keeps)
        λ _. Keeps-bind _ _ (look-Keeps P path) λ i. ensure-Keeps P _ _

  reject_symlinked_ancestors-Keeps : (path : Text) → Keeps P (reject_symlinked_ancestors path)
  unfolding reject_symlinked_ancestors
  reject_symlinked_ancestors-Keeps path = check-Keeps P _ _

  two_probes : Keeps P (on_os_error 5 (probe >> probe))
  two_probes =
      on_os_error-Keeps P sp 5 _ (Keeps-bind probe _ (probe-Keeps P sp) (λ _. probe-Keeps P sp))

  pub prove_same_filesystem-Keeps : (path : Text) → Keeps P (prove_same_filesystem path)
  unfolding prove_same_filesystem
  prove_same_filesystem-Keeps path = Keeps-bind _ _ two_probes λ _. check-Keeps P _ _

  pub guarded-Keeps : (path : Text) → Keeps P (guarded path)
  unfolding guarded
  guarded-Keeps path = Keeps-bind _ _ (guard_within_spool-Keeps path) λ _.
      Keeps-bind _ _ (reject_symlinked_ancestors-Keeps path) λ _. prove_same_filesystem-Keeps path

  fsync_dir-Keeps : Keeps P fsync_dir
  unfolding fsync_dir
  fsync_dir-Keeps =
      let once = on_os_error-Keeps P sp 5 probe (probe-Keeps P sp) in
      Keeps-bind _ _ once (λ _. once)

  pub verify_manifest_bytes-Keeps :
      (path : Text) (payload : List ℕ) → Keeps P (verify_manifest_bytes path payload)
  unfolding verify_manifest_bytes
  verify_manifest_bytes-Keeps path payload =
      Keeps-bind _ _ (on_os_error-Keeps P sp 6 _ (read_bytes-Keeps P sp path))
        λ actual. ensure-Keeps P _ _

  as_false-Keeps : (x : Error) → Keeps P (as_false x)
  unfolding as_false
  as_false-Keeps (failure c) = Keeps-pure false
  as_false-Keeps lock_busy = Keeps-raise lock_busy
  as_false-Keeps (processing c) = Keeps-raise (processing c)
  as_false-Keeps (sqlite e) = Keeps-raise (sqlite e)
  as_false-Keeps os_error = Keeps-raise os_error
  as_false-Keeps overflow = Keeps-raise overflow
  as_false-Keeps collision = Keeps-raise collision
  as_false-Keeps killed = Keeps-raise killed

module _ (P : Machine → Type 0) (sp : Spends P) (runtime : Runtime) where
  pub hash_file-Keeps : (path : Text) → Keeps P (hash_file runtime path)
  unfolding hash_file
  hash_file-Keeps path =
      Keeps-bind _ _ (on_os_error-Keeps P sp 6 _ (read_bytes-Keeps P sp path)) λ bytes. Keeps-pure _

  same_bytes-Keeps : (a b : Text) → Keeps P (same_bytes runtime a b)
  unfolding same_bytes
  same_bytes-Keeps a b =
      catch-Keeps P sp _ as_false
        (Keeps-bind _ _ (hash_file-Keeps a)
          λ x. Keeps-bind _ _ (hash_file-Keeps b) λ y. Keeps-pure _)
        (as_false-Keeps P sp)

module _ (P : Machine → Type 0) (s : Stable P) where
  pub write_manifest_partial-Keeps :
      (path : Text) (payload : List ℕ)
      → IsPartial path
      → Keeps P (write_manifest_partial path payload)
  unfolding write_manifest_partial
  write_manifest_partial-Keeps path payload i =
      Keeps-bind _ _ (on_os_error-Keeps P s.spending 5 _ (create-Keeps P s path)) λ fresh.
        Keeps-bind _ _ (ensure-Keeps P fresh _)
          λ _. on_os_error-Keeps P s.spending 5 _ (append-Keeps P s path payload i)

  -- A link under a new name, the removal of the partial and the synchronization.
  moved_Keeps :
      (source target : Text) (x : Error)
      → IsPartial source
      → Keeps P (
          on_os_error 5 (hard_link source target) >>= λ linked.
          ensure linked x >> (on_os_error 5 (unlink source) >> (fsync_dir >> fsync_dir)))
  moved_Keeps source target x i =
      Keeps-bind _ _ (on_os_error-Keeps P s.spending 5 _ (hard_link-Keeps P s source target))
        λ linked. Keeps-bind _ _ (ensure-Keeps P linked x) λ _.
          Keeps-bind _ _ (on_os_error-Keeps P s.spending 5 _ (unlink-Keeps P s source i))
            λ _. Keeps-bind _ _ (fsync_dir-Keeps P s.spending) λ _. fsync_dir-Keeps P s.spending

  pub publish_no_replace-Keeps :
      (source final : Text) → IsPartial source → Keeps P (publish_no_replace source final)
  unfolding publish_no_replace
  publish_no_replace-Keeps source final i =
      Keeps-bind _ _ (guard_within_spool-Keeps P s.spending final) λ _.
        Keeps-bind _ _ (prove_same_filesystem-Keeps P s.spending final) λ _.
          Keeps-bind _ _ (on_os_error-Keeps P s.spending 5 _ (make_parents-Keeps P s final))
            λ _. moved_Keeps source final collision i

  pub remove_and_fsync_partial-Keeps :
      (path : Text) → IsPartial path → Keeps P (remove_and_fsync_partial path)
  unfolding remove_and_fsync_partial
  remove_and_fsync_partial-Keeps path i =
      Keeps-bind _ _ (on_os_error-Keeps P s.spending 5 _ (unlink-Keeps P s path i))
        λ _. fsync_dir-Keeps P s.spending

  module _ (runtime : Runtime) where
    quarantine_existing-Keeps :
        (source dest : Text) → IsPartial source → Keeps P (quarantine_existing runtime source dest)
    unfolding quarantine_existing
    quarantine_existing-Keeps source dest i =
        Keeps-bind _ _ (same_bytes-Keeps P s.spending runtime source dest) λ same.
          Keeps-bind _ _ (ensure-Keeps P same _) λ _.
            Keeps-bind _ _ (on_os_error-Keeps P s.spending 5 _ (unlink-Keeps P s source i))
              λ _. Keeps-bind _ _ (fsync_dir-Keeps P s.spending) λ _. fsync_dir-Keeps P s.spending

    quarantine_new-Keeps :
        (source dest : Text) → IsPartial source → Keeps P (quarantine_new runtime source dest)
    unfolding quarantine_new
    quarantine_new-Keeps source dest i = moved_Keeps source dest (failure 4) i

    pub quarantine_partial-Keeps :
        (source dest : Text) → IsPartial source → Keeps P (quarantine_partial runtime source dest)
    unfolding quarantine_partial
    quarantine_partial-Keeps source dest i =
        Keeps-bind _ _ (guard_within_spool-Keeps P s.spending dest) λ _.
          Keeps-bind _ _ (prove_same_filesystem-Keeps P s.spending dest) λ _.
            Keeps-bind _ _ (on_os_error-Keeps P s.spending 5 _ (make_parents-Keeps P s dest)) λ _.
              Keeps-bind _ _ (look-Keeps P dest) λ item. Keeps-bind _ _ (ensure-Keeps P _ _) λ _.
                Keeps-if _ _ _ (quarantine_existing-Keeps source dest i)
                  (quarantine_new-Keeps source dest i)
