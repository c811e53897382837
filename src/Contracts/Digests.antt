-- ===== src/Contracts/Digests.antt =====
-- The characters of a digest (`validate_sha256` of contracts/model.py).
use edge_evidence_showcase.Prelude.{
  ℕ, ◌≡◌, refl, true, false, [], ◌∷◌, Text, length, all, arith, ◌==◌, ==→eq,
}
use edge_evidence_showcase.Contracts.{is_digit, is_hex, matches_sha256, slash}
use edge_evidence_showcase.Contracts.Split.{has_char}

is_hex-slash : (c : ℕ) → is_hex c ≡ true → (c == slash) ≡ false
unfolding is_hex is_digit
is_hex-slash c h = ground arith

all-Lacks : (s : Text) → all is_hex s ≡ true → has_char slash s ≡ false
unfolding has_char
all-Lacks [] h = refl
all-Lacks (c ∷ s) h = ground (arith, is_hex-slash c, all-Lacks s)

pub matches_sha256-Lacks : (s : Text) → matches_sha256 s ≡ true → has_char slash s ≡ false
unfolding matches_sha256
matches_sha256-Lacks s h = all-Lacks s (ground arith)

pub matches_sha256-length : (s : Text) → matches_sha256 s ≡ true → length s ≡ 64
unfolding matches_sha256
matches_sha256-length s h = ==→eq (length s) 64 (ground arith)
