-- ===== src/Contracts/Uri.antt =====
-- `canonical_file_uri` of contracts/model.py against an independent description of the `file:`
-- URIs that it admits.
use edge_evidence_showcase.Prelude.{
  ℕ, ◌≡◌, refl, subst, ◌∙◌, true, false, List, [], ◌∷◌, ◌++◌, Text, text, text_eq, text_eq_refl,
  arith, any, length, drop, Each, ◌↔◌,
}
use edge_evidence_showcase.Exec.{ok}
use edge_evidence_showcase.Contracts.{
  starts_with, slash, backslash, is_reserved, path_parts, as_posix, is_absolute, canonical_file_uri,
}
use edge_evidence_showcase.Contracts.Split.{
  has_char, split, join, split-ne-nil, join-split, Lacks, split-Lacks, split-Lacks_other,
  split-join,
}

-- One component that is safe below a spool root.
abbrev pub IsSafe : Text → Type 0
IsSafe p = (is_reserved p ≡ false) × Lacks slash p × Lacks backslash p

-- The URI of a path of safe components.
abbrev pub Names : Text → List Text → Type 0
Names uri path = (path ≡ [] → ⊥) × Each IsSafe path × (uri ≡ text "file:" ++ join slash path)

starts_with-drop : (s p : Text) → starts_with s p ≡ true → s ≡ p ++ drop (length p) s
unfolding starts_with
starts_with-drop s [] h = refl
starts_with-drop [] (c ∷ p) h = cc
starts_with-drop (d ∷ s) (c ∷ p) h = ground (arith, starts_with-drop s p)

starts_with-append : (p s : Text) → starts_with (p ++ s) p ≡ true
unfolding starts_with
starts_with-append [] s = refl
starts_with-append (c ∷ p) s = ground (arith, starts_with-append p s)

drop-append : (p s : Text) → drop (length p) (p ++ s) ≡ s
drop-append [] s = refl
drop-append (c ∷ p) s = drop-append p s

length-scheme : length (text "file:") ≡ 5
unfolding text
length-scheme = refl

any-Each : (ps : List Text) → any is_reserved ps ≡ false → Each (λ p. is_reserved p ≡ false) ps
any-Each [] h = tt
any-Each (p ∷ ps) h = ground (arith, any-Each ps)

path_parts_all : (ps : List Text) → Each (λ p. is_reserved p ≡ false) ps → path_parts ps ≡ ps
unfolding path_parts is_reserved text_eq
path_parts_all [] h = refl
path_parts_all ([] ∷ ps) h = cc
path_parts_all ((a ∷ []) ∷ ps) h = rw (path_parts_all ps h.1) (ground arith)
path_parts_all ((a ∷ b ∷ s) ∷ ps) h = rw (path_parts_all ps h.1) (ground arith)

append-Lacks : (b : ℕ) (s t : Text) → Lacks b s → Lacks b t → Lacks b (s ++ t)
unfolding has_char
append-Lacks b [] t h k = k
append-Lacks b (c ∷ s) t h k = ground (arith, append-Lacks b s t)

join-Lacks : (ps : List Text) → Each (Lacks backslash) ps → Lacks backslash (join slash ps)
unfolding join has_char
join-Lacks [] h = refl
join-Lacks (p ∷ []) h = h.0
join-Lacks (p ∷ q ∷ ps) h =
    append-Lacks backslash p (slash ∷ join slash (q ∷ ps)) h.0 (join-Lacks (q ∷ ps) h.1)

Each-IsSafe :
    (ps : List Text)
    → Each (λ p. is_reserved p ≡ false) ps
    → Each (Lacks slash) ps
    → Each (Lacks backslash) ps
    → Each IsSafe ps
Each-IsSafe [] r l b = tt
Each-IsSafe (p ∷ ps) r l b = ((r.0, l.0, b.0), Each-IsSafe ps r.1 l.1 b.1)

Each-map :
    {A : Type 0} (P Q : A → Type 0) (xs : List A) → ((x : A) → P x → Q x) → Each P xs → Each Q xs
Each-map P Q [] f h = tt
Each-map P Q (x ∷ xs) f h = (f x h.0, Each-map P Q xs f h.1)

-- Every test of `canonical_file_uri` has passed where it returns.
passed :
    (uri : Text) (path : List Text)
    → canonical_file_uri uri ≡ ok path
    → (starts_with uri (text "file:") ≡ true)
      × (has_char backslash (drop 5 uri) ≡ false)
      × (any is_reserved (split slash (drop 5 uri)) ≡ false)
      × (path ≡ path_parts (split slash (drop 5 uri)))
unfolding canonical_file_uri
passed uri path h = ground arith

-- A URI that is admitted names the returned path.
accepted-Names : (uri : Text) (path : List Text) → canonical_file_uri uri ≡ ok path → Names uri path
accepted-Names uri path h =
    let (scheme, clean, free, e) = passed uri path h in
    let raw : Text = drop 5 uri in
    let parts = split slash raw in
    let open_parts = any-Each parts free in
    let whole : path ≡ parts = e ∙ path_parts_all parts open_parts in
    rw whole (
      split-ne-nil slash raw,
      Each-IsSafe parts open_parts (split-Lacks slash raw)
          (split-Lacks_other slash backslash raw clean),
      rw (join-split slash raw) (
          subst (λ n. uri ≡ text "file:" ++ drop n uri) length-scheme
            (starts_with-drop uri (text "file:") scheme)),
    )

Each-any : (ps : List Text) → Each IsSafe ps → any is_reserved ps ≡ false
Each-any [] h = refl
Each-any (p ∷ ps) h = ground (arith, Each-any ps h.1)

-- The text of safe parts is not empty and does not begin with a slash.
opens_relative :
    (p : Text) (ps : List Text)
    → IsSafe p
    → (text_eq (join slash (p ∷ ps)) [] ≡ false)
      × (starts_with (join slash (p ∷ ps)) (slash ∷ []) ≡ false)
unfolding join text_eq starts_with is_reserved has_char
opens_relative [] ps h = cc
opens_relative (c ∷ p) [] h = ground arith
opens_relative (c ∷ p) (q ∷ ps) h = ground arith

is_absolute_safe : (p : Text) (ps : List Text) → IsSafe p → is_absolute (p ∷ ps) ≡ false
unfolding is_absolute starts_with is_reserved has_char
is_absolute_safe [] ps h = cc
is_absolute_safe (c ∷ p) ps h = ground arith

raw_eq : (r : Text) → drop 5 (text "file:" ++ r) ≡ r
raw_eq r = subst (λ n. drop n (text "file:" ++ r) ≡ r) length-scheme (drop-append (text "file:") r)

all_pass :
    (uri : Text) (p : Text) (ps : List Text)
    → starts_with uri (text "file:") ≡ true
    → text_eq (drop 5 uri) [] ≡ false
    → starts_with (drop 5 uri) (slash ∷ []) ≡ false
    → has_char backslash (drop 5 uri) ≡ false
    → split slash (drop 5 uri) ≡ p ∷ ps
    → any is_reserved (p ∷ ps) ≡ false
    → is_absolute (p ∷ ps) ≡ false
    → path_parts (p ∷ ps) ≡ p ∷ ps
    → text_eq (as_posix (p ∷ ps)) (drop 5 uri) ≡ true
    → canonical_file_uri uri ≡ ok (p ∷ ps)
unfolding canonical_file_uri
all_pass uri p ps a b c d e f g h i = rw (a, b, c, d, e, f, g, h, i)

named_accepted :
    (p : Text) (ps : List Text)
    → Each IsSafe (p ∷ ps)
    → canonical_file_uri (text "file:" ++ join slash (p ∷ ps)) ≡ ok (p ∷ ps)
named_accepted p ps h =
    let raw : Text = join slash (p ∷ ps) in
    let e : drop 5 (text "file:" ++ raw) ≡ raw = raw_eq raw in
    let (solid, relative) = opens_relative p ps h.0 in
    all_pass (text "file:" ++ raw) p ps (starts_with-append (text "file:") raw) (rw e solid)
      (rw e relative)
      (rw e (join-Lacks (p ∷ ps) (Each-map IsSafe (Lacks backslash) (p ∷ ps) (λ q k. k.2) h)))
      (rw e (split-join slash p ps (Each-map IsSafe (Lacks slash) (p ∷ ps) (λ q k. k.1) h)))
      (Each-any (p ∷ ps) h) (is_absolute_safe p ps h.0)
      (path_parts_all (p ∷ ps)
        (Each-map IsSafe (λ q. is_reserved q ≡ false) (p ∷ ps) (λ q k. k.0) h))
      (rw e (unfold as_posix in text_eq_refl raw))

Names-accepted : (uri : Text) (path : List Text) → Names uri path → canonical_file_uri uri ≡ ok path
Names-accepted uri [] h = absurd (h.0 refl)
Names-accepted uri (p ∷ ps) h = rw h.2 (named_accepted p ps h.1)

-- `canonical_file_uri` returns a path exactly when the path has a component, each component is
-- neither empty nor "." nor ".." and holds neither a slash nor a backslash, and the URI is "file:"
-- followed by the components joined by slashes.
pub canonical_file_uri-iff-Names :
    (uri : Text) (path : List Text) → (canonical_file_uri uri ≡ ok path) ↔ Names uri path
canonical_file_uri-iff-Names uri path = (accepted-Names uri path, Names-accepted uri path)
