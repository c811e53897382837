-- ===== src/Spool/Reading.antt =====
-- The chunked loop of `local_size_and_hash` (core/source.py).
use edge_evidence_showcase.Prelude.{
  ℕ, zero, suc, ◌+◌, ◌<◌, ◌≡◌, refl, sym, ◌∙◌, ap, ap₂, Option, none, some, List, [], ◌∷◌, ◌++◌,
  Text, length, take, drop, arith, length-drop, take-drop, length-append,
}
use edge_evidence_showcase.Exec.{Result, ok, err}
use edge_evidence_showcase.Contracts.{Exn, failure}
use edge_evidence_showcase.Spool.{
  Node, Descriptor, chunk_size, read_loop, read_all, source_path, local_size_and_hash,
}
use mathlib.Core.List.{append-nil, append_assoc}

-- The first `k` elements and the rest count together as the whole.
count_parts :
    (k total : ℕ) (xs : List ℕ)
    → total + length (take k xs) + length (drop k xs) ≡ total + length xs
count_parts k total xs =
    omega (
      arith,
      length-append (take k xs) (drop k xs),
      ap (λ (ys : List ℕ). length ys) (take-drop k xs),
    )

join_parts : (k : ℕ) (seen xs : List ℕ) → (seen ++ take k xs) ++ drop k xs ≡ seen ++ xs
join_parts k seen xs =
    append_assoc seen (take k xs) (drop k xs) ∙ ap (λ ys. seen ++ ys) (take-drop k xs)

drop-lt :
    (k fuel : ℕ) (c : ℕ) (cs : List ℕ)
    → length (c ∷ cs) < suc fuel
    → length (drop (suc k) (c ∷ cs)) < fuel
drop-lt k fuel c cs h = omega (arith, length-drop k cs)

module _ (sha256 : List ℕ → Text) where
  read_loop_step :
      (fuel c : ℕ) (cs : List ℕ) (total : ℕ) (seen : List ℕ)
      → read_loop sha256 (suc fuel) (c ∷ cs) total seen
        ≡ read_loop sha256 fuel
            (drop chunk_size (c ∷ cs))
            (total + length (take chunk_size (c ∷ cs)))
            (seen ++ take chunk_size (c ∷ cs))
  unfolding read_loop
  read_loop_step fuel c cs total seen = refl

  -- With more fuel than bytes, the loop ends with the number of bytes and the digest of them all.
  read_loop_whole :
      (fuel : ℕ) (rest : List ℕ) (total : ℕ) (seen : List ℕ)
      → length rest < fuel
      → read_loop sha256 fuel rest total seen ≡ some (total + length rest, sha256 (seen ++ rest))
  read_loop_whole zero rest total seen h = absurd (omega arith)
  read_loop_whole (suc fuel) [] total seen h =
      let e : total ≡ total + 0 = omega arith in
      unfold read_loop in ap₂ (λ n ys. some (n, sha256 ys)) e (sym (append-nil seen))
  read_loop_whole (suc fuel) (c ∷ cs) total seen h =
      read_loop_step fuel c cs total seen
      ∙ read_loop_whole fuel (drop chunk_size (c ∷ cs)) (total + length (take chunk_size (c ∷ cs)))
          (seen ++ take chunk_size (c ∷ cs)) (drop-lt 1048575 fuel c cs h)
      ∙ ap₂ (λ n ys. some (n, sha256 ys)) (count_parts chunk_size total (c ∷ cs))
          (join_parts chunk_size seen (c ∷ cs))

  -- The outcome of a read, written without the loop.
  abbrev pub read_spec : Descriptor → Result Exn (ℕ × Text)
  read_spec none = err (failure "local_source_corrupt" 6)
  read_spec (some bytes) = ok (length bytes, sha256 bytes)

  read_all-read_spec : (fd : Descriptor) → read_all sha256 fd ≡ read_spec fd
  unfolding read_all
  read_all-read_spec none = refl
  read_all-read_spec (some bytes) =
      rw (read_loop_whole (suc (length bytes)) bytes 0 [] (omega arith))
        (let e : 0 + length bytes ≡ length bytes = omega arith in ap (λ n. ok (n, sha256 bytes)) e)

  -- What is read of the file that `source_path` found; its exceptions pass through.
  abbrev pub read_found : Result Exn Descriptor → Result Exn (ℕ × Text)
  read_found (err x) = err x
  read_found (ok fd) = read_spec fd

  -- The size and the digest are those of all the bytes of the file that `source_path` finds, for
  -- a file of any length. An exception of `source_path` passes through, and where reading fails
  -- the call raises local_source_corrupt with code 6.
  pub local_size_and_hash-read_found :
      (root : Option Node) (uri : Text)
      → local_size_and_hash sha256 root uri ≡ read_found (source_path root uri)
  unfolding local_size_and_hash
  local_size_and_hash-read_found root uri = go (source_path root uri)
    where
      go :
          (r : Result Exn Descriptor)
          → (elim r as (λ _. Result Exn (ℕ × Text)) [ err x ↦ err x | ok fd ↦ read_all sha256 fd ])
            ≡ read_found r
      go (err x) = refl
      go (ok fd) = read_all-read_spec fd
