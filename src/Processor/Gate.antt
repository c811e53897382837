-- ===== src/Processor/Gate.antt =====
-- What `evidence_gate` of components/processor-worker/apps/edge_agent/process.py has verified when
-- it returns.
pub mod Media
use edge_evidence_showcase.Prelude.{
  ℕ, ◌≡◌, refl, sym, ◌∙◌, true, ==→eq, Option, none, some, List, Text, text_eq→eq, drop, length,
  arith,
}
use edge_evidence_showcase.Exec.Triple.{
  Triple, Triple-pure, Triple-raise, Triple-bind, Triple-weaken,
}
use edge_evidence_showcase.Processor.Json.{Fields}
use edge_evidence_showcase.Processor.Runtime.{Runtime}
use edge_evidence_showcase.Processor.Manifest.{media_relative_path, manifest_relative_path}
use edge_evidence_showcase.Processor.Ledger.{ArtifactFacts, Ledger, find_artifact}
use edge_evidence_showcase.Processor.Machine.{regular, Machine, current, item_at}
use edge_evidence_showcase.Processor.Verification.{
  hash_file, media_agrees, verify_media_and_manifest,
}
use edge_evidence_showcase.Processor.Plan.{ProcessRequest, InputEvidence}
use edge_evidence_showcase.Processor.Evidence.{
  row_found, read_input_row, row_agrees, as_evidence, facts_agree, evidence_gate,
}
use edge_evidence_showcase.Processor.Stable.{
  Spends, catch-Keeps, on_os_error-Keeps, read_bytes-Keeps,
}
use edge_evidence_showcase.Processor.Stable.Staging.{
  attempt-Keeps, ensure-Keeps, require_within_spool-Keeps,
}
use edge_evidence_showcase.Processor.Stable.Jobs.{as_evidence-Keeps, require_regular-Keeps}
use edge_evidence_showcase.Processor.Reads.{
  loosen, query-Reads, ensure-Reads, read_bytes-Reads, on_os_error-Reads,
}
pub use edge_evidence_showcase.Processor.Gate.Media.{Verified}
use edge_evidence_showcase.Processor.Gate.Media.{
  HasBytes, HasMedia, HasManifest, HasRow, row_agrees_lem, facts_agree_lem, read_input_row-Reads,
  verify_media_and_manifest-Reads,
}

module _ (P : Machine → Type 0) (sp : Spends P) (runtime : Runtime) (request : ProcessRequest) where
  abbrev Digest : Text
  Digest = drop 7 request.input_artifact_id

  abbrev WithRow : ArtifactFacts → Machine → Type 0
  WithRow row m =
      P m
      × (find_artifact request.input_artifact_id (current m.working m.committed).artifacts
          ≡ some row)

  abbrev Named : ArtifactFacts → Machine → Type 0
  Named row m = WithRow row m × (row.digest_value ≡ Digest)

  abbrev WithBytes : ArtifactFacts → List ℕ → Machine → Type 0
  WithBytes row bytes m = Named row m × HasBytes (manifest_relative_path Digest) bytes m

  abbrev Checked : ArtifactFacts → List ℕ → Fields × Text × ℕ × Text → Machine → Type 0
  Checked row bytes r m =
      (WithBytes row bytes m × HasMedia runtime (media_relative_path Digest) Digest r.2 m)
      × (r.3 ≡ runtime.sha256 bytes)

  WithRow-spends : (row : ArtifactFacts) → Spends (WithRow row)
  WithRow-spends row m p = (sp m p.0, p.1)

  Named-spends : (row : ArtifactFacts) → Spends (Named row)
  Named-spends row m p = (WithRow-spends row m p.0, p.1)

  WithBytes-spends : (row : ArtifactFacts) (bytes : List ℕ) → Spends (WithBytes row bytes)
  WithBytes-spends row bytes m p = (Named-spends row m p.0, p.1)

  pub evidence_gate-Reads :
      Triple P (evidence_gate runtime request) (λ e m. P m × Verified runtime request e m) (λ _. P)
  unfolding evidence_gate
  evidence_gate-Reads =
      Triple-bind _ _ _ (read_input_row-Reads P sp runtime request.input_artifact_id) λ row.
        loosen (λ m p. p.0)
          (Triple-bind _ _ (λ _. Named row)
            (Triple-weaken _ _ _ _ (ensure-Reads (WithRow row) (WithRow-spends row) _ _) (λ m p. p)
              (λ u m q. (q.0, row_agrees_lem Digest row q.1)) (λ x m p. p))
            λ _.
              loosen (λ m p. p.0)
                (Triple-bind _ _ (λ _. Named row)
                  (catch-Keeps (Named row) (Named-spends row) _ as_evidence
                    (Triple-bind _ _ (λ _. Named row)
                      (require_within_spool-Keeps (Named row) (Named-spends row) _)
                      λ _. require_within_spool-Keeps (Named row) (Named-spends row) _)
                    (as_evidence-Keeps (Named row) (Named-spends row)))
                  λ _.
                    Triple-bind _ _ (λ _. Named row)
                      (require_regular-Keeps (Named row) (Named-spends row) _)
                      λ _.
                        Triple-bind _ _ (λ _. Named row)
                          (require_regular-Keeps (Named row) (Named-spends row) _)
                          λ _.
                            Triple-bind _ _ (λ _. Named row) (ensure-Keeps (Named row) _ _)
                              λ _.
                                Triple-bind _ _ (WithBytes row)
                                  (on_os_error-Reads (Named row) 6 _
                                    (read_bytes-Reads (Named row) (Named-spends row) _))
                                  λ bytes.
                                    loosen (λ m p. p.0)
                                      (Triple-bind _ _ (λ _. WithBytes row bytes)
                                        (attempt-Keeps (WithBytes row bytes) _)
                                        λ start.
                                          Triple-bind _ _ _
                                            (verify_media_and_manifest-Reads (WithBytes row bytes)
                                              (WithBytes-spends row bytes) runtime _ _ bytes start)
                                            λ r.
                                              loosen (λ m p. p.0.0)
                                                (Triple-bind _ _
                                                  (λ _ m.
                                                    Checked row bytes r m
                                                    × (r.3 ≡ row.manifest_sha256)
                                                    × (row.byte_size ≡ r.2))
                                                  (Triple-weaken _ _ _ _
                                                    (ensure-Reads (Checked row bytes r)
                                                      (λ m p. (
                                                        (WithBytes-spends row bytes m p.0.0, p.0.1),
                                                        p.1,
                                                      ))
                                                      _ _)
                                                    (λ m p. p)
                                                    (λ u m q.
                                                      let (a, z) =
                                                        facts_agree_lem row r.0 r.2 r.3 q.1 in
                                                      (q.0, a, z))
                                                    (λ x m p. p))
                                                  λ _.
                                                    Triple-pure _
                                                      (λ m ((((((p, f), d), b), h), e), a, z). (
                                                        p,
                                                        (
                                                          refl,
                                                          refl,
                                                          h,
                                                          (bytes, b, sym e ∙ a),
                                                          (row, f, d, z, refl, refl),
                                                        ),
                                                      ))))))

abbrev pub Same : Machine → Machine → Type 0
Same start m =
    (m.files ≡ start.files) × (m.working ≡ start.working) × (m.committed ≡ start.committed)
