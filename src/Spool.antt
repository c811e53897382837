-- ===== src/Spool.antt =====
-- components/replication-worker/packages/replication/core/source.py: the local files below a spool
-- root, on a file tree that does not change while a call runs. SHA-256 is a parameter.
pub mod Reading
use edge_evidence_showcase.Prelude.{
  ℕ, zero, suc, ◌+◌, ◌≡◌, refl, Bool, true, false, Option, none, some, List, [], ◌∷◌, ◌++◌, Text,
  text, text_eq, length, take, drop, if◌then◌else◌,
}
use edge_evidence_showcase.Exec.{Result, ok, err}
use edge_evidence_showcase.Contracts.{Exn, failure, canonical_file_uri}

-- What `lstat` finds. A directory holds its entries; `special` is a device; an `unreadable` node
-- refuses to be opened (a file without permission, a socket), and a `failing` file is opened and
-- cannot be read. A named pipe, whose opening waits for a writer, has no constructor.
mutual
  pub data Node : Type 0 where
    file : List ℕ → Node
    directory : Entries → Node
    symlink special unreadable failing : Node

  pub data Entries : Type 0 where
    end : Entries
    entry : Text → Node → Entries → Entries

unfoldable pub find_entry : Text → Entries → Option Node
find_entry name end = none
find_entry name (entry n node es) = if text_eq n name then some node else find_entry name es

-- _validate_spool_root
unfoldable pub validate_spool_root : Option Node → Result Exn Entries
validate_spool_root (some (directory es)) = ok es
validate_spool_root _ = err (failure "source_path_unsafe" 2)

-- What an open descriptor reads: the bytes, or `none` where reading fails.
abbrev pub Descriptor : Type 0
Descriptor = Option (List ℕ)

-- _open_source: O_NOFOLLOW refuses a symbolic link, and `fstat` what is no regular file.
unfoldable pub open_source : Option Node → Result Exn Descriptor
open_source none = err (failure "local_source_missing" 6)
open_source (some (file bytes)) = ok (some bytes)
open_source (some failing) = ok none
open_source (some unreadable) = err (failure "local_source_missing" 6)
open_source (some (directory _)) = err (failure "source_path_unsafe" 2)
open_source (some symlink) = err (failure "source_path_unsafe" 2)
open_source (some special) = err (failure "source_path_unsafe" 2)

-- The loop over `relative.parts[:-1]`, then the open of the last part.
unfoldable pub walk : Entries → List Text → Result Exn Descriptor
unfolding open_source find_entry
walk es [] = open_source (some (directory es))
walk es (p ∷ []) = open_source (find_entry p es)
walk es (p ∷ q ∷ ps) = elim (find_entry p es) [
  | some (directory inner) ↦ walk inner (q ∷ ps)
  | _ ↦ err (failure "source_path_unsafe" 2)
]

-- source_path: the file that the URI names. The path is opened a second time by its caller.
unfoldable pub source_path : Option Node → Text → Result Exn Descriptor
unfolding validate_spool_root
source_path root uri = elim (validate_spool_root root) [
  | err x ↦ err x
  | ok es ↦ elim (canonical_file_uri uri) [ err x ↦ err x | ok parts ↦ walk es parts ]
]

-- _CHUNK
abbrev pub chunk_size : ℕ
chunk_size = 1048576

module _ (sha256 : List ℕ → Text) where
  -- while True: chunk = os.read(fd, _CHUNK) …, with the bytes left, `total`, and what `digest` saw
  unfoldable pub read_loop : ℕ → List ℕ → ℕ → List ℕ → Option (ℕ × Text)
  read_loop zero rest total seen = none
  read_loop (suc fuel) rest total seen =
      let chunk = take chunk_size rest in
      let next = read_loop fuel (drop chunk_size rest) (total + length chunk) (seen ++ chunk) in
      elim chunk [ [] ↦ some (total, sha256 seen) | c ∷ cs ↦ next ]

  unfoldable pub read_all : Descriptor → Result Exn (ℕ × Text)
  unfolding read_loop
  read_all none = err (failure "local_source_corrupt" 6)
  read_all (some bytes) = elim (read_loop (suc (length bytes)) bytes 0 []) [
    | none ↦ err (failure "local_source_corrupt" 6)
    | some r ↦ ok r
  ]

  unfoldable pub local_size_and_hash : Option Node → Text → Result Exn (ℕ × Text)
  unfolding read_all source_path
  local_size_and_hash root uri = elim (source_path root uri) [ err x ↦ err x | ok fd ↦ read_all fd ]
