-- ===== src/Tests/Processor.antt =====
-- Histories and job identities.
use edge_evidence_showcase.Prelude.{
  ◌≢◌, ℕ, ◌≡◌, ◌≤◌, ◌↔◌, refl, true, [], ◌∷◌, ◌++◌, Text, text, take,
}
use edge_evidence_showcase.Exec.{ok}
use edge_evidence_showcase.Contracts.{matches_sha256}
use edge_evidence_showcase.Database.Statements.{migrations}
use edge_evidence_showcase.Processor.History.{canonical_history, accepts_from, accepts_from_iff}
use edge_evidence_showcase.Processor.Identity.{
  newline, job_uri_name, job_uri_name-same, job_uri_name-newline,
}
use edge_evidence_showcase.Tests.Memory.{marker}

-- The two lists of migrations agree.
same_history : canonical_history ≡ migrations
same_history = refl

accepts_from_iff_example :
    (accepts_from migrations 4 ≡ true)
    ↔ ((n : ℕ) × (4 ≤ n) × (n ≤ 10) × (migrations ≡ take n canonical_history))
accepts_from_iff_example = accepts_from_iff migrations 4

marker_passes : matches_sha256 marker ≡ true
unfolding matches_sha256 text
marker_passes = refl

job_uri_name-newline_example :
    (u : Text) × (v : Text) × (job_uri_name marker marker ≡ ok u)
    × (job_uri_name (marker ++ newline ∷ []) marker ≡ ok v)
    × (u ≢ v)
job_uri_name-newline_example = job_uri_name-newline marker marker marker_passes marker_passes

sample_uri : (u : Text) × (job_uri_name marker marker ≡ ok u)
sample_uri =
    let (u, v, a, b, n) = job_uri_name-newline marker marker marker_passes marker_passes in (u, a)

job_uri_name-same_example : (marker ≡ marker) × (marker ≡ marker)
job_uri_name-same_example =
    job_uri_name-same marker marker marker marker sample_uri.0 sample_uri.1 sample_uri.1
