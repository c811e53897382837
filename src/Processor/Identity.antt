-- ===== src/Processor/Identity.antt =====
-- `job_uri_name` of components/processor-worker/packages/processing/fingerprint.py: the URI whose
-- UUID is the identity of a job.
use edge_evidence_showcase.Prelude.{
  ◌≢◌, ℕ, ◌≡◌, refl, sym, ◌∙◌, ap, subst, Bool, true, false, not, ◌&&◌, [], ◌∷◌, ◌++◌, Text, text,
  length, take, drop, arith, ◌==◌, if◌then◌else◌, take-drop, &&-true, length-append,
}
use edge_evidence_showcase.Exec.{Result, ok, err}
use edge_evidence_showcase.Contracts.{matches_sha256, slash}
use edge_evidence_showcase.Contracts.Digests.{matches_sha256-Lacks, matches_sha256-length}
use edge_evidence_showcase.Contracts.Split.{has_char}

pub record ProcessingError : Type 0 where
  pub message : Text
  pub code : ℕ

abbrev pub newline : ℕ
newline = 10

-- What `$` of a Python pattern matches at: the end, and before a newline at the end.
unfoldable pub at_end : Text → Bool
at_end [] = true
at_end (c ∷ []) = c == newline
at_end (c ∷ d ∷ s) = false

-- _SHA256_PATTERN.match, of ^[a-f0-9]{64}$
unfoldable pub matches_pattern : Text → Bool
unfolding at_end
matches_pattern s = matches_sha256 (take 64 s) && at_end (drop 64 s)

-- _JOB_URI_BASE
abbrev pub job_uri_base : Text
job_uri_base = text "https://schemas.seemorgh.dev/edge-evidence/processing-jobs/v1/"

-- f"/{PROCESSOR_NAME}/{PROCESSOR_VERSION}/{OUTPUT_CONTRACT}/", after its first slash
abbrev pub processor_path : Text
processor_path = text "artifact-fingerprint/1/artifact-fingerprint-report.v1/"

unfoldable pub job_uri_name : Text → Text → Result ProcessingError Text
unfolding matches_pattern
job_uri_name input_digest_hex params_sha256_hex =
    if not (matches_pattern input_digest_hex)
    then err (record { message = text "input digest must be 64 lowercase hex chars"; code = 2 })
    else if not (matches_pattern params_sha256_hex)
    then err
        (record { message = text "parameters_sha256 must be 64 lowercase hex chars"; code = 6 })
    else ok (job_uri_base ++ (input_digest_hex ++ slash ∷ (processor_path ++ params_sha256_hex)))

pub append-cancel : (p s t : Text) → p ++ s ≡ p ++ t → s ≡ t
append-cancel [] s t h = h
append-cancel (c ∷ p) s t h = append-cancel p s t (ground arith)

-- Texts without a slash are told apart by the first slash behind them.
pub slash-cancel :
    (a b s t : Text)
    → has_char slash a ≡ false
    → has_char slash b ≡ false
    → a ++ slash ∷ s ≡ b ++ slash ∷ t
    → (a ≡ b) × (s ≡ t)
unfolding has_char
slash-cancel [] [] s t h k e = (refl, ground arith)
slash-cancel [] (c ∷ b) s t h k e = ground arith
slash-cancel (c ∷ a) [] s t h k e = ground arith
slash-cancel (c ∷ a) (d ∷ b) s t h k e =
    let (p, q) = slash-cancel a b s t (ground arith) (ground arith) (ground arith) in
    (ground arith, q)

pub at_end-Lacks : (s : Text) → at_end s ≡ true → has_char slash s ≡ false
unfolding at_end has_char
at_end-Lacks [] h = refl
at_end-Lacks (c ∷ []) h = ground arith
at_end-Lacks (c ∷ d ∷ s) h = cc

has_char-append :
    (c : ℕ) (s t : Text) → has_char c s ≡ false → has_char c t ≡ false → has_char c (s ++ t) ≡ false
unfolding has_char
has_char-append c [] t h k = k
has_char-append c (d ∷ s) t h k = ground (arith, has_char-append c s t)

matches_pattern-Lacks : (s : Text) → matches_pattern s ≡ true → has_char slash s ≡ false
unfolding matches_pattern
matches_pattern-Lacks s h =
    let (a, b) = &&-true (matches_sha256 (take 64 s)) (at_end (drop 64 s)) h in
    subst (λ t. has_char slash t ≡ false) (take-drop 64 s)
      (has_char-append slash (take 64 s) (drop 64 s) (matches_sha256-Lacks (take 64 s) a)
        (at_end-Lacks (drop 64 s) b))

passed :
    (a b : Bool) (x y : ProcessingError) (v u : Text)
    → (if not a then err x else if not b then err y else ok v) ≡ ok u
    → (a ≡ true) × (u ≡ v)
passed true true x y v u h = (refl, ground arith)
passed true false x y v u h = cc
passed false b x y v u h = cc

-- What a returned URI says of the arguments.
accepted :
    (d p u : Text)
    → job_uri_name d p ≡ ok u
    → (matches_pattern d ≡ true) × (u ≡ job_uri_base ++ (d ++ slash ∷ (processor_path ++ p)))
unfolding job_uri_name
accepted d p u h = passed (matches_pattern d) (matches_pattern p) _ _ _ u h

-- The identity of a job determines its input and its parameters: if two calls return the same URI,
-- then they have had the same digest and the same parameters.
pub job_uri_name-same :
    (d p d' p' u : Text) → job_uri_name d p ≡ ok u → job_uri_name d' p' ≡ ok u → (d ≡ d') × (p ≡ p')
job_uri_name-same d p d' p' u h k =
    let (m, e) = accepted d p u h in
    let (n, f) = accepted d' p' u k in
    let (same, rest) =
      slash-cancel d d' (processor_path ++ p) (processor_path ++ p') (matches_pattern-Lacks d m)
        (matches_pattern-Lacks d' n) (append-cancel job_uri_base _ _ (sym e ∙ f)) in
    (same, append-cancel processor_path p p' rest)

take-append : (s t : Text) → take (length s) (s ++ t) ≡ s
take-append [] t = refl
take-append (c ∷ s) t = ap (λ r. c ∷ r) (take-append s t)

drop-append : (s t : Text) → drop (length s) (s ++ t) ≡ t
drop-append [] t = refl
drop-append (c ∷ s) t = drop-append s t

take-whole : (s : Text) → take (length s) s ≡ s
take-whole [] = refl
take-whole (c ∷ s) = ap (λ r. c ∷ r) (take-whole s)

drop-whole : (s : Text) → drop (length s) s ≡ []
drop-whole [] = refl
drop-whole (c ∷ s) = drop-whole s

-- A digest with a newline behind it passes the pattern.
newline_passes : (d : Text) → matches_sha256 d ≡ true → matches_pattern (d ++ newline ∷ []) ≡ true
unfolding matches_pattern at_end
newline_passes d h =
    let n : length d ≡ 64 = matches_sha256-length d h in
    let head : take 64 (d ++ newline ∷ []) ≡ d =
      ap (λ k. take k (d ++ newline ∷ [])) (sym n) ∙ take-append d (newline ∷ []) in
    let rest : drop 64 (d ++ newline ∷ []) ≡ newline ∷ [] =
      ap (λ k. drop k (d ++ newline ∷ [])) (sym n) ∙ drop-append d (newline ∷ []) in
    rw (head, rest, h) refl

digest_passes : (d : Text) → matches_sha256 d ≡ true → matches_pattern d ≡ true
unfolding matches_pattern at_end
digest_passes d h =
    let n : length d ≡ 64 = matches_sha256-length d h in
    let head : take 64 d ≡ d = ap (λ k. take k d) (sym n) ∙ take-whole d in
    let rest : drop 64 d ≡ [] = ap (λ k. drop k d) (sym n) ∙ drop-whole d in rw (head, rest, h) refl

returns :
    (d p : Text)
    → matches_pattern d ≡ true
    → matches_pattern p ≡ true
    → job_uri_name d p ≡ ok (job_uri_base ++ (d ++ slash ∷ (processor_path ++ p)))
unfolding job_uri_name
returns d p h k = rw (h, k) refl

longer : (d : Text) → d ≡ d ++ newline ∷ [] → ⊥
longer d h =
    let n : length d ≡ length (d ++ newline ∷ []) = ap length h in
    absurd (omega (arith, length-append d (newline ∷ [])))

-- For every two digests of 64 lowercase hex characters: the call returns a URI for them, and returns
-- another URI for the first one with a newline behind it, which has 65 characters.
pub job_uri_name-newline :
    (d p : Text)
    → matches_sha256 d ≡ true
    → matches_sha256 p ≡ true
    → (u : Text) × (v : Text) × (job_uri_name d p ≡ ok u)
      × (job_uri_name (d ++ newline ∷ []) p ≡ ok v)
      × (u ≢ v)
job_uri_name-newline d p h k =
    let a = returns d p (digest_passes d h) (digest_passes p k) in
    let b = returns (d ++ newline ∷ []) p (newline_passes d h) (digest_passes p k) in
    (
      _,
      _,
      a,
      b,
      λ e. longer d (job_uri_name-same d p (d ++ newline ∷ []) p _ a (b ∙ ap ok (sym e))).0,
    )
