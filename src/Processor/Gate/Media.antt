-- ===== src/Processor/Gate/Media.antt =====
-- What a proof of the media and the manifest (components/processor-worker/apps/edge_agent/verification.py)
-- that returns has read.
use edge_evidence_showcase.Prelude.{
  ℕ, ◌≡◌, refl, sym, true, ==→eq, Option, none, some, List, Text, text_eq→eq, drop, length, arith,
}
use edge_evidence_showcase.Exec.Triple.{
  Triple, Triple-pure, Triple-raise, Triple-bind, Triple-weaken,
}
use edge_evidence_showcase.Processor.Json.{Fields}
use edge_evidence_showcase.Processor.Runtime.{Runtime}
use edge_evidence_showcase.Processor.Manifest.{media_relative_path, manifest_relative_path}
use edge_evidence_showcase.Processor.Ledger.{ArtifactFacts, Ledger, find_artifact}
use edge_evidence_showcase.Processor.Machine.{regular, Machine, current, item_at}
use edge_evidence_showcase.Processor.Verification.{
  hash_file, media_agrees, verify_media_and_manifest,
}
use edge_evidence_showcase.Processor.Plan.{ProcessRequest, InputEvidence}
use edge_evidence_showcase.Processor.Evidence.{row_found, read_input_row, row_agrees, facts_agree}
use edge_evidence_showcase.Processor.Stable.{Spends, on_os_error-Keeps, read_bytes-Keeps}
use edge_evidence_showcase.Processor.Stable.Staging.{attempt-Keeps}
use edge_evidence_showcase.Processor.Reads.{
  loosen, query-Reads, ensure-Reads, read_bytes-Reads, on_os_error-Reads,
}

-- A file with these bytes.
abbrev pub HasBytes : Text → List ℕ → Machine → Type 0
HasBytes path bytes m = item_at path m.files ≡ some (regular bytes)

module _ (runtime : Runtime) where
  -- The media at a path has this digest and this size.
  abbrev pub HasMedia : Text → Text → ℕ → Machine → Type 0
  HasMedia path digest size m =
      (media : List ℕ) × HasBytes path media m
      × (runtime.sha256 media ≡ digest)
      × (length media ≡ size)

  abbrev pub HasManifest : Text → Text → Machine → Type 0
  HasManifest path digest m =
      (manifest : List ℕ) × HasBytes path manifest m × (runtime.sha256 manifest ≡ digest)

  -- The row of an artifact, with the columns that a derivation uses.
  abbrev pub HasRow : InputEvidence → Ledger → Type 0
  HasRow e db =
      (row : ArtifactFacts) × (find_artifact e.artifact_id db.artifacts ≡ some row)
      × (row.digest_value ≡ e.digest_hex)
      × (row.byte_size ≡ e.byte_size)
      × (row.source_id ≡ e.source_id)
      × (row.manifest_sha256 ≡ e.manifest_sha256)

  -- The evidence of a request agrees with the media, the manifest and the row of its artifact.
  abbrev pub Verified : ProcessRequest → InputEvidence → Machine → Type 0
  Verified request e m =
      (e.artifact_id ≡ request.input_artifact_id)
      × (e.digest_hex ≡ drop 7 request.input_artifact_id)
      × HasMedia (media_relative_path e.digest_hex) e.digest_hex e.byte_size m
      × HasManifest (manifest_relative_path e.digest_hex) e.manifest_sha256 m
      × HasRow e (current m.working m.committed)

media_agrees_lem :
    (runtime : Runtime) (hex : Text) (fs : Fields) (hash : Text) (size : ℕ)
    → media_agrees runtime hex fs hash size ≡ true
    → hash ≡ hex
unfolding media_agrees
media_agrees_lem runtime hex fs hash size h = text_eq→eq hash hex (ground arith)

pub row_agrees_lem :
    (hex : Text) (row : ArtifactFacts) → row_agrees hex row ≡ true → row.digest_value ≡ hex
unfolding row_agrees
row_agrees_lem hex row h = text_eq→eq row.digest_value hex (ground arith)

pub facts_agree_lem :
    (row : ArtifactFacts) (fs : Fields) (size : ℕ) (sha : Text)
    → facts_agree row fs size sha ≡ true
    → (sha ≡ row.manifest_sha256) × (row.byte_size ≡ size)
unfolding facts_agree
facts_agree_lem row fs size sha h =
    (text_eq→eq sha row.manifest_sha256 (ground arith), ==→eq row.byte_size size (ground arith))

module _ (P : Machine → Type 0) (sp : Spends P) (runtime : Runtime) where
  hash_file-Reads :
      (path : Text)
      → Triple P (hash_file runtime path) (λ r m. P m × HasMedia runtime path r.0 r.1 m) (λ _. P)
  unfolding hash_file
  hash_file-Reads path =
      Triple-bind _ _ _ (on_os_error-Reads P 6 _ (read_bytes-Reads P sp path))
        λ bytes. Triple-pure _ (λ m p. (p.0, (bytes, p.1, refl, refl)))

  row_found-Reads :
      (id : Text) (o : Option ArtifactFacts)
      → Triple
          (λ m. P m × (o ≡ find_artifact id (current m.working m.committed).artifacts))
          (row_found o)
          (λ row m. P m × (find_artifact id (current m.working m.committed).artifacts ≡ some row))
          (λ _. P)
  unfolding row_found
  row_found-Reads id none = Triple-raise _ (λ m p. p.0)
  row_found-Reads id (some row) = Triple-pure row (λ m p. (p.0, sym p.1))

  pub read_input_row-Reads :
      (id : Text)
      → Triple P
          (read_input_row id)
          (λ row m. P m × (find_artifact id (current m.working m.committed).artifacts ≡ some row))
          (λ _. P)
  unfolding read_input_row
  read_input_row-Reads id =
      Triple-bind _ _ _ (query-Reads P sp (λ db. find_artifact id db.artifacts))
        (row_found-Reads id)

module _ (P : Machine → Type 0) (sp : Spends P) (runtime : Runtime) (hex path : Text) where
  abbrev Hashed : Text × ℕ → Machine → Type 0
  Hashed r m = P m × HasMedia runtime path r.0 r.1 m

  abbrev Agreed : Text × ℕ → Machine → Type 0
  Agreed r m = Hashed r m × (r.0 ≡ hex)

  pub verify_media_and_manifest-Reads :
      (bytes : List ℕ) (start : Text)
      → Triple P
          (verify_media_and_manifest runtime hex path bytes start)
          (λ r m. (P m × HasMedia runtime path hex r.2 m) × (r.3 ≡ runtime.sha256 bytes))
          (λ _. P)
  unfolding verify_media_and_manifest
  verify_media_and_manifest-Reads bytes start =
      Triple-bind _ _ (λ _. P) (attempt-Keeps P _)
        λ manifest. Triple-bind _ _ _ (hash_file-Reads P sp runtime path) λ hashed.
          loosen (λ m p. p.0)
            (Triple-bind _ _ _
              (Triple-weaken _ _ _ _ (ensure-Reads (Hashed hashed) (λ m p. (sp m p.0, p.1)) _ _)
                (λ m p. p)
                (λ u m q. (q.0, media_agrees_lem runtime hex manifest hashed.0 hashed.1 q.1))
                (λ x m p. p))
              λ _.
                loosen (λ m p. p.0)
                  (Triple-bind _ _ (λ _. Agreed hashed) (attempt-Keeps (Agreed hashed) _)
                    λ _.
                      Triple-bind _ _ (λ _. Agreed hashed)
                        (on_os_error-Keeps (Agreed hashed) (λ m p. ((sp m p.0.0, p.0.1), p.1)) 6 _
                          (read_bytes-Keeps (Agreed hashed) (λ m p. ((sp m p.0.0, p.0.1), p.1))
                            path))
                        λ media.
                          Triple-bind _ _ (λ _. Agreed hashed) (attempt-Keeps (Agreed hashed) _)
                            λ _. Triple-pure _ (λ m p. ((p.0.0, rw⁻¹ p.1 p.0.1), refl))))
