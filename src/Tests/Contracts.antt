-- ===== src/Tests/Contracts.antt =====
-- URIs and reads.
use edge_evidence_showcase.Prelude.{◌≡◌, refl, ◌↔◌, [], ◌∷◌, text, text_eq}
use edge_evidence_showcase.Exec.{ok, err}
use edge_evidence_showcase.Contracts.{
  failure, canonical_file_uri, starts_with, is_reserved, is_absolute, as_posix, path_parts,
}
use edge_evidence_showcase.Contracts.Split.{has_char, split}
use edge_evidence_showcase.Contracts.Uri.{Names, canonical_file_uri-iff-Names}
use edge_evidence_showcase.Spool.{source_path, local_size_and_hash}
use edge_evidence_showcase.Spool.Reading.{read_found, local_size_and_hash-read_found}
use edge_evidence_showcase.Tests.Samples.{sample_hash, spool}

canonical_file_uri-iff-Names_example :
    (canonical_file_uri (text "file:a/b") ≡ ok (text "a" ∷ text "b" ∷ []))
    ↔ Names (text "file:a/b") (text "a" ∷ text "b" ∷ [])
canonical_file_uri-iff-Names_example =
    canonical_file_uri-iff-Names (text "file:a/b") (text "a" ∷ text "b" ∷ [])

accepted : canonical_file_uri (text "file:a/b") ≡ ok (text "a" ∷ text "b" ∷ [])
unfolding canonical_file_uri starts_with text text_eq has_char split is_reserved is_absolute
    as_posix path_parts
accepted = refl

refused : canonical_file_uri (text "file:a/../b") ≡ err (failure "source_path_unsafe" 2)
unfolding canonical_file_uri starts_with text text_eq has_char split is_reserved
refused = refl

local_size_and_hash-read_found_example :
    local_size_and_hash sample_hash spool (text "file:a")
    ≡ read_found sample_hash (source_path spool (text "file:a"))
local_size_and_hash-read_found_example =
    local_size_and_hash-read_found sample_hash spool (text "file:a")
