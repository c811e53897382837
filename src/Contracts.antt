-- ===== src/Contracts.antt =====
-- components/replication-worker/packages/replication/contracts/model.py: the failure class, the
-- validators of identifiers and the replica object. Sizes are natural numbers, so the validator's
-- tests for a negative or a non-integer size have nothing to refuse.
pub mod Split
pub mod Uri
pub mod Objects
pub mod Digests
use Split.{has_char, split, join}
use edge_evidence_showcase.Prelude.{
  ℕ, zero, suc, ◌+◌, ◌≡◌, refl, Bool, true, false, not, ◌&&◌, ◌||◌, List, [], ◌∷◌, ◌++◌, Text,
  String, text, text_eq, text_compare, Ordering, compare, length, take, drop, all, any, keep, ltb,
  leb, ◌==◌, if◌then◌else◌,
}
use edge_evidence_showcase.Exec.{Result, ok, err}

pub record ReplicationError : Type 0 where
  pub finding : Text
  pub code : ℕ

-- What a call of the replication worker may raise: its own failure, an `sqlite3.Error`, or an
-- exception of a provider's library.
pub data Exn : Type 0 where
  replication : ReplicationError → Exn
  sqlite_error : Exn
  foreign : ℕ → Exn

-- ReplicationError(finding, code=code)
unfoldable pub failure : String → ℕ → Exn
failure finding code = replication (record { finding = text finding; code = code })

is_digit : ℕ → Bool
is_digit c = leb b'0' c && leb c b'9'

is_letter : ℕ → Bool
is_letter c = (leb b'A' c && leb c b'Z') || (leb b'a' c && leb c b'z')

-- [A-Za-z0-9]
is_id_head : ℕ → Bool
unfolding is_digit is_letter
is_id_head c = is_letter c || is_digit c

-- [A-Za-z0-9._-]
is_id_char : ℕ → Bool
unfolding is_id_head
is_id_char c = is_id_head c || c == b'.' || c == b'_' || c == b'-'

-- _TARGET_ID_RE.fullmatch
unfoldable pub matches_target_id : Text → Bool
unfolding is_id_char is_id_head
matches_target_id [] = false
matches_target_id (c ∷ s) = is_id_head c && leb (length s) 63 && all is_id_char s

unfoldable pub is_hex : ℕ → Bool
unfolding is_digit
is_hex c = is_digit c || (leb b'a' c && leb c b'f')

-- _SHA256_RE.fullmatch
unfoldable pub matches_sha256 : Text → Bool
unfolding is_hex
matches_sha256 s = length s == 64 && all is_hex s

unfoldable pub validate_target_id : Text → Result Exn Text
unfolding matches_target_id failure
validate_target_id target_id =
    if matches_target_id target_id then ok target_id else err (failure "target_id_invalid" 2)

unfoldable pub validate_sha256 : Text → Result Exn Text
unfolding matches_sha256 failure
validate_sha256 value = if matches_sha256 value then ok value else err (failure "sha256_invalid" 2)

unfoldable pub starts_with : Text → Text → Bool
starts_with s [] = true
starts_with [] (p ∷ ps) = false
starts_with (c ∷ s) (p ∷ ps) = (c == p) && starts_with s ps

abbrev pub slash : ℕ
slash = b'/'

abbrev pub backslash : ℕ
backslash = 92

abbrev pub dot : ℕ
dot = b'.'

-- part in {"", ".", ".."}
unfoldable pub is_reserved : Text → Bool
is_reserved [] = true
is_reserved (a ∷ []) = a == dot
is_reserved (a ∷ b ∷ []) = a == dot && b == dot
is_reserved (a ∷ b ∷ c ∷ s) = false

-- PurePosixPath(*parts).parts for relative parts without a slash: empty and "." parts vanish.
unfoldable pub path_parts : List Text → List Text
path_parts = keep (λ p. not (text_eq p []) && not (text_eq p (dot ∷ [])))

-- PurePosixPath.as_posix()
unfoldable pub as_posix : List Text → Text
unfolding join
as_posix [] = dot ∷ []
as_posix (p ∷ ps) = join slash (p ∷ ps)

-- PurePosixPath(*parts).is_absolute()
unfoldable pub is_absolute : List Text → Bool
unfolding starts_with
is_absolute [] = false
is_absolute (p ∷ ps) = starts_with p (slash ∷ [])

-- The parts of the path that `canonical_file_uri` returns.
unfoldable pub canonical_file_uri : Text → Result Exn (List Text)
unfolding failure
canonical_file_uri uri =
    let raw = drop 5 uri in
    let parts = split slash raw in
    let path = path_parts parts in
    if not (starts_with uri (text "file:"))
    then err (failure "source_path_unsafe" 2)
    else if text_eq raw [] || starts_with raw (slash ∷ []) || has_char backslash raw
    then err (failure "source_path_unsafe" 2)
    else if any is_reserved parts
    then err (failure "source_path_unsafe" 2)
    else if is_absolute parts || not (text_eq (as_posix path) raw)
    then err (failure "source_path_unsafe" 2)
    else ok path
