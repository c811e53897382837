-- ===== src/Processor/Stable/Publishing.antt =====
-- The publication of a derivation in components/processor-worker/apps/edge_agent/process.py keeps
-- what single effects keep: what it writes or removes below a name in use is a partial of its job.
use edge_evidence_showcase.Prelude.{
  ℕ, ◌≡◌, refl, subst, sym, Bool, true, false, Option, List, [], ◌∷◌, ◌++◌, Text, text, arith,
}
use mathlib.Core.List.{append_assoc}
use edge_evidence_showcase.Exec.Triple.{Keeps, Keeps-raise, Keeps-pure, Keeps-if, Keeps-bind}
use edge_evidence_showcase.Contracts.{starts_with, slash}
use edge_evidence_showcase.Processor.Runtime.{
  Error, failure, lock_busy, processing, sqlite, os_error, overflow, collision, killed, Runtime,
}
use edge_evidence_showcase.Processor.Machine.{Item, Machine}
use edge_evidence_showcase.Processor.Staging.{under}
use edge_evidence_showcase.Processor.Plan.{
  InputEvidence, DerivedPlan, partial_dir, output_partial, manifest_partial,
}
use edge_evidence_showcase.Processor.Publishing.{
  write_partial_with_barrier, adopt_on_collision, publish, require_bytes, quarantine_stale,
  write_partial, stage_found, stage_partial, stage_and_publish, produce_and_publish,
  preflight_partial, preflight_processing_paths, require_final, verify_final_pair,
}
use edge_evidence_showcase.Processor.Stable.{
  Spends, IsPartial, Stable, catch-Keeps, on_os_error-Keeps, read_bytes-Keeps, make_parents-Keeps,
  create-Keeps, append-Keeps,
}
use edge_evidence_showcase.Processor.Stable.Staging.{
  look-Keeps, ensure-Keeps, guarded-Keeps, prove_same_filesystem-Keeps,
  write_manifest_partial-Keeps, publish_no_replace-Keeps, verify_manifest_bytes-Keeps,
  remove_and_fsync_partial-Keeps, quarantine_partial-Keeps,
}

pub starts_with-append : (p s : Text) → starts_with (p ++ s) p ≡ true
unfolding starts_with
starts_with-append [] [] = refl
starts_with-append [] (c ∷ s) = refl
starts_with-append (c ∷ p) s = ground (arith, starts_with-append p s)

IsPartial-under : (job_id name : Text) → IsPartial (under (partial_dir job_id) name)
unfolding under partial_dir
IsPartial-under job_id name =
    subst (λ t. starts_with t (text "partial/processing/") ≡ true)
      (sym (append_assoc (text "partial/processing/") job_id (slash ∷ name)))
      (starts_with-append (text "partial/processing/") (job_id ++ slash ∷ name))

pub output_partial-IsPartial : (plan : DerivedPlan) → IsPartial (output_partial plan)
unfolding output_partial
output_partial-IsPartial plan = IsPartial-under plan.job_id (text "output.json.partial")

pub manifest_partial-IsPartial : (plan : DerivedPlan) → IsPartial (manifest_partial plan)
unfolding manifest_partial
manifest_partial-IsPartial plan = IsPartial-under plan.job_id (text "manifest.json.partial")

module _ (P : Machine → Type 0) (sp : Spends P) where
  require_bytes-Keeps :
      (path : Text) (payload : List ℕ) (i : Option Item) → Keeps P (require_bytes path payload i)
  unfolding require_bytes
  require_bytes-Keeps path payload i =
      Keeps-if _ _ _ (Keeps-bind _ _ (read_bytes-Keeps P sp path) (λ bytes. ensure-Keeps P _ _))
        (Keeps-pure tt)

module _ (P : Machine → Type 0) (sp : Spends P) (runtime : Runtime) where
  preflight_partial-Keeps :
      (path : Text) (expected : List ℕ) (job_id : Text) (is_output : Bool)
      → Keeps P (preflight_partial runtime path expected job_id is_output)
  unfolding preflight_partial
  preflight_partial-Keeps path expected job_id is_output =
      Keeps-bind _ _ (guarded-Keeps P sp path) λ _. Keeps-bind _ _ (look-Keeps P path) λ i.
        Keeps-if _ _ _ (Keeps-pure tt) (
          Keeps-if _ _ _ (Keeps-raise _) (
            Keeps-bind _ _ (on_os_error-Keeps P sp 5 _ (read_bytes-Keeps P sp path))
              λ existing. Keeps-if _ _ _ (Keeps-pure tt) (guarded-Keeps P sp _)))

  pub preflight_processing_paths-Keeps :
      (plan : DerivedPlan) → Keeps P (preflight_processing_paths runtime plan)
  unfolding preflight_processing_paths
  preflight_processing_paths-Keeps plan = Keeps-bind _ _ (guarded-Keeps P sp _) λ _.
      Keeps-bind _ _ (guarded-Keeps P sp _) λ _.
        Keeps-bind _ _ (preflight_partial-Keeps _ _ _ true) λ _. preflight_partial-Keeps _ _ _ false

  pub require_final-Keeps : (path : Text) → Keeps P (require_final runtime path)
  unfolding require_final
  require_final-Keeps path =
      Keeps-bind _ _ (guarded-Keeps P sp path)
        λ _. Keeps-bind _ _ (look-Keeps P path) λ i. ensure-Keeps P _ _

  pub verify_final_pair-Keeps :
      (plan : DerivedPlan) (evidence : InputEvidence)
      → Keeps P (verify_final_pair runtime plan evidence)
  unfolding verify_final_pair
  verify_final_pair-Keeps plan evidence = Keeps-bind _ _ (require_final-Keeps _) λ _.
      Keeps-bind _ _ (require_final-Keeps _) λ _.
        Keeps-bind _ _ (on_os_error-Keeps P sp 6 _ (read_bytes-Keeps P sp _)) λ report.
          Keeps-bind _ _ (on_os_error-Keeps P sp 6 _ (read_bytes-Keeps P sp _))
            λ manifest. ensure-Keeps P _ _

module _ (P : Machine → Type 0) (s : Stable P) where
  write_partial_with_barrier-Keeps :
      (path : Text) (payload : List ℕ)
      → IsPartial path
      → Keeps P (write_partial_with_barrier path payload)
  unfolding write_partial_with_barrier
  write_partial_with_barrier-Keeps path payload i =
      Keeps-bind _ _ (on_os_error-Keeps P s.spending 5 _ (create-Keeps P s path)) λ fresh.
        Keeps-bind _ _ (ensure-Keeps P fresh _) λ _.
          Keeps-bind _ _ (on_os_error-Keeps P s.spending 5 _ (append-Keeps P s path _ i))
            λ _. on_os_error-Keeps P s.spending 5 _ (append-Keeps P s path _ i)

  adopt_on_collision-Keeps :
      (partial final : Text) (payload : List ℕ)
      → IsPartial partial
      → (x : Error) → Keeps P (adopt_on_collision partial final payload x)
  unfolding adopt_on_collision
  adopt_on_collision-Keeps partial final payload i collision =
      Keeps-bind _ _ (verify_manifest_bytes-Keeps P s.spending final payload)
        λ _. remove_and_fsync_partial-Keeps P s partial i
  adopt_on_collision-Keeps partial final payload i (failure c) = Keeps-raise (failure c)
  adopt_on_collision-Keeps partial final payload i lock_busy = Keeps-raise lock_busy
  adopt_on_collision-Keeps partial final payload i (processing c) = Keeps-raise (processing c)
  adopt_on_collision-Keeps partial final payload i (sqlite e) = Keeps-raise (sqlite e)
  adopt_on_collision-Keeps partial final payload i os_error = Keeps-raise os_error
  adopt_on_collision-Keeps partial final payload i overflow = Keeps-raise overflow
  adopt_on_collision-Keeps partial final payload i killed = Keeps-raise killed

  publish-Keeps :
      (partial final : Text) (payload : List ℕ)
      → IsPartial partial
      → Keeps P (publish partial final payload)
  unfolding publish
  publish-Keeps partial final payload i =
      catch-Keeps P s.spending _ (adopt_on_collision partial final payload)
        (publish_no_replace-Keeps P s partial final i)
        (adopt_on_collision-Keeps partial final payload i)

  module _ (runtime : Runtime) where
    write_partial-Keeps :
        (is_output : Bool) (path : Text) (payload : List ℕ)
        → IsPartial path
        → Keeps P (write_partial runtime is_output path payload)
    unfolding write_partial
    write_partial-Keeps true path payload i = write_partial_with_barrier-Keeps path payload i
    write_partial-Keeps false path payload i = write_manifest_partial-Keeps P s path payload i

    quarantine_stale-Keeps :
        (path job_id : Text) (is_output : Bool) (existing : List ℕ)
        → IsPartial path
        → Keeps P (quarantine_stale runtime path job_id is_output existing)
    unfolding quarantine_stale
    quarantine_stale-Keeps path job_id is_output existing i =
        quarantine_partial-Keeps P s runtime path _ i

    stage_partial-Keeps :
        (is_output : Bool) (path : Text) (payload : List ℕ) (job_id : Text)
        → IsPartial path
        → Keeps P (stage_partial runtime is_output path payload job_id)
    unfolding stage_partial stage_found
    stage_partial-Keeps is_output path payload job_id i = Keeps-bind _ _ (look-Keeps P path) λ item.
        Keeps-if _ _ _ (write_partial-Keeps is_output path payload i) (
          Keeps-if _ _ _ (Keeps-raise _) (
            Keeps-bind _ _ (read_bytes-Keeps P s.spending path) λ existing.
              Keeps-if _ _ _ (Keeps-pure tt) (
                Keeps-bind _ _ (quarantine_stale-Keeps path job_id is_output existing i)
                  λ _. write_partial-Keeps is_output path payload i)))

    stage_and_publish-Keeps :
        (plan : DerivedPlan) (report_is_final : Bool)
        → Keeps P (stage_and_publish runtime plan report_is_final)
    unfolding stage_and_publish
    stage_and_publish-Keeps plan report_is_final =
        Keeps-bind _ _ (on_os_error-Keeps P s.spending 5 _ (make_parents-Keeps P s _)) λ _.
          Keeps-bind _ _ (prove_same_filesystem-Keeps P s.spending _) λ _.
            Keeps-bind _ _
              (Keeps-if _ _ _ (Keeps-pure tt)
                (stage_partial-Keeps true _ _ _ (output_partial-IsPartial plan)))
              λ _.
                Keeps-bind _ _ (stage_partial-Keeps false _ _ _ (manifest_partial-IsPartial plan))
                  λ _.
                    Keeps-bind _ _
                      (Keeps-if _ _ _ (Keeps-pure tt)
                        (publish-Keeps _ _ _ (output_partial-IsPartial plan)))
                      λ _. publish-Keeps _ _ _ (manifest_partial-IsPartial plan)

    pub produce_and_publish-Keeps :
        (plan : DerivedPlan) → Keeps P (produce_and_publish runtime plan)
    unfolding produce_and_publish
    produce_and_publish-Keeps plan = Keeps-bind _ _ (guarded-Keeps P s.spending _) λ _.
        Keeps-bind _ _ (guarded-Keeps P s.spending _) λ _.
          Keeps-bind _ _ (guarded-Keeps P s.spending _) λ _.
            Keeps-bind _ _ (guarded-Keeps P s.spending _) λ _.
              Keeps-bind _ _ (look-Keeps P _) λ report. Keeps-bind _ _ (look-Keeps P _) λ manifest.
                Keeps-bind _ _ (require_bytes-Keeps P s.spending _ _ report) λ _.
                  Keeps-bind _ _ (require_bytes-Keeps P s.spending _ _ manifest)
                    λ _. Keeps-if _ _ _ (ensure-Keeps P _ _) (stage_and_publish-Keeps plan _)
