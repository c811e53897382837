-- ===== src/Discovery/Complete.antt =====
-- What `discover` of core/authority.py owes to its snapshot.
use edge_evidence_showcase.Prelude.{
  ℕ, ◌≡◌, refl, ◌∙◌, ap, Bool-cases, Option, none, List, [], ◌∷◌, ◌++◌, Text, String, text, text_eq,
  text_eq→eq, text_eq_refl, In, inl, inr, arith, if◌then◌else◌,
}
use edge_evidence_showcase.Prelude.Sorting.{
  sorted-In, sorted_set, sorted_set-In, IsAscending, sorted_set-IsAscending,
}
use edge_evidence_showcase.Exec.{Result, ok, err, and_then, collect}
use edge_evidence_showcase.Exec.Triple.{Post, Triple-weaken}
use edge_evidence_showcase.Contracts.{Exn, failure, canonical_file_uri}
use edge_evidence_showcase.Contracts.Objects.{
  ReplicaObject, replica_object, object_compare, object_order,
}
use edge_evidence_showcase.Database.{ArtifactRow, AssertionRow, RecordingRow, Tables}
use edge_evidence_showcase.Database.Session.{World}
use edge_evidence_showcase.Spool.{Node, local_size_and_hash}
use edge_evidence_showcase.Authority.Selection.{check_object-same, keep-In}
use edge_evidence_showcase.Discovery.{
  manifest_object, artifact_objects, assertion_objects, recording_objects, discover,
}
use edge_evidence_showcase.Discovery.Found.{
  artifacts_by_id, assertions_by_id, complete_by_id, Gathered, discover-Reads,
}

In-left : {A : Type 0} (a : A) (xs ys : List A) → In a xs → In a (xs ++ ys)
In-left a [] ys h = absurd h
In-left a (x ∷ xs) ys (inl e) = inl e
In-left a (x ∷ xs) ys (inr h) = inr (In-left a xs ys h)

In-right : {A : Type 0} (a : A) (xs ys : List A) → In a ys → In a (xs ++ ys)
In-right a [] ys h = h
In-right a (x ∷ xs) ys h = inr (In-right a xs ys h)

module _ {A B : Type 0} (f : A → Result Exn (List B)) where
  collect_cons :
      (x : Result Exn (List B)) (rest : Result Exn (List B)) (ys : List B)
      → and_then x (λ xs. and_then rest (λ zs. ok (xs ++ zs))) ≡ ok ys
      → (xs : List B) × (zs : List B) × (x ≡ ok xs) × (rest ≡ ok zs) × (ys ≡ xs ++ zs)
  collect_cons (ok xs) (ok zs) ys h = (xs, zs, refl, refl, ground arith)
  collect_cons (ok xs) (err e) ys h = cc
  collect_cons (err e) rest ys h = cc

  -- What one element has given is in the list.
  collect-In :
      (a : A) (xs : List A) (ys : List B)
      → collect f xs ≡ ok ys
      → In a xs
      → (zs : List B) × (f a ≡ ok zs) × ((b : B) → In b zs → In b ys)
  unfolding collect
  collect-In a [] ys h i = absurd i
  collect-In a (x ∷ xs) ys h i =
      let (us, vs, p, q, e) = collect_cons (f x) (collect f xs) ys h in
      elim i [
        | inl same ↦ (us, ap f same ∙ p, λ b j. rw e (In-left b us vs j))
        | inr j ↦
            let (zs, r, k) = collect-In a xs vs q j in
            (zs, r, λ b l. rw e (In-right b us vs (k b l)))
      ]

module _ (sha256 : List ℕ → Text) (root : Option Node) (target_id : Text) where
  -- The object of these columns.
  abbrev pub object : Text → Text → ℕ → Text → ReplicaObject
  object kind uri size digest = record {
    target_id = target_id;
    object_kind = kind;
    relative_uri = uri;
    expected_byte_size = size;
    expected_sha256 = digest;
  }

  -- The file of the URI has the digest, and the object of its size is in the list.
  abbrev pub HasManifest : Text → Text → Text → List ReplicaObject → Type 0
  HasManifest kind uri digest objects =
      (size : ℕ) × (local_size_and_hash sha256 root uri ≡ ok (size, digest))
      × In (object kind uri size digest) objects

  and_then-ok :
      {A B : Type 0} (r : Result Exn A) (f : A → Result Exn B) (b : B)
      → and_then r f ≡ ok b
      → (a : A) × (r ≡ ok a) × (f a ≡ ok b)
  and_then-ok (ok a) f b h = (a, refl, h)
  and_then-ok (err x) f b h = cc

  replica_object-same :
      (kind uri : Text) (size : ℕ) (digest : Text) (o : ReplicaObject)
      → replica_object target_id kind uri size digest ≡ ok o
      → object kind uri size digest ≡ o
  unfolding replica_object
  replica_object-same kind uri size digest o h = check_object-same _ o h

  matching :
      (kind uri digest : Text) (read : ℕ × Text) (o : ReplicaObject)
      → (if text_eq read.1 digest
          then replica_object target_id kind uri read.0 digest
          else err (failure "local_source_corrupt" 6))
        ≡ ok o
      → (read.1 ≡ digest) × (replica_object target_id kind uri read.0 digest ≡ ok o)
  matching kind uri digest read o h = elim (Bool-cases (text_eq read.1 digest)) [
    | inl e ↦ (text_eq→eq read.1 digest e, rw e at h)
    | inr e ↦ let k = rw e at h in cc
  ]

  manifest_object-In :
      (kind : String) (uri digest : Text) (o : ReplicaObject) (objects : List ReplicaObject)
      → manifest_object sha256 root target_id kind uri digest ≡ ok o
      → In o objects
      → HasManifest (text kind) uri digest objects
  unfolding manifest_object
  manifest_object-In kind uri digest o objects h i =
      let (path, p, q) = and_then-ok (canonical_file_uri uri) _ o h in
      let (read, r, k) = and_then-ok (local_size_and_hash sha256 root uri) _ o q in
      let (same, made) = matching (text kind) uri digest read o k in
      (
        read.0,
        r ∙ ap (λ d. ok (read.0, d)) same,
        rw (replica_object-same (text kind) uri read.0 digest o made) i,
      )

  ok-same : {A : Type 0} (a b : A) → ◌≡◌ {A = Result Exn A} (ok a) (ok b) → b ≡ a
  ok-same a b h = ground arith

  abbrev pub HasArtifact : ArtifactRow → List ReplicaObject → Type 0
  HasArtifact a objects =
      In (object (text "artifact_content") a.storage_uri a.byte_size a.digest_value) objects
      × HasManifest (text "artifact_manifest") a.manifest_uri a.manifest_sha256 objects

  artifact_objects-In :
      (a : ArtifactRow) (zs objects : List ReplicaObject)
      → artifact_objects sha256 root target_id a ≡ ok zs
      → ((o : ReplicaObject) → In o zs → In o objects)
      → HasArtifact a objects
  unfolding artifact_objects
  artifact_objects-In a zs objects h f =
      let (content, p, q) = and_then-ok _ _ zs h in
      let (manifest, r, k) = and_then-ok _ _ zs q in
      let all = ok-same (content ∷ manifest ∷ []) zs k in
      (
        rw
            (replica_object-same (text "artifact_content") a.storage_uri a.byte_size a.digest_value
              content p)
            (f content (rw all (inl refl))),
        manifest_object-In "artifact_manifest" a.manifest_uri a.manifest_sha256 manifest objects r
            (f manifest (rw all (inr (inl refl)))),
      )

  assertion_objects-In :
      (a : AssertionRow) (zs objects : List ReplicaObject)
      → assertion_objects sha256 root target_id a ≡ ok zs
      → ((o : ReplicaObject) → In o zs → In o objects)
      → HasManifest (text "occurrence_assertion") a.manifest_uri a.manifest_sha256 objects
  unfolding assertion_objects
  assertion_objects-In a zs objects h f =
      let (o, p, q) = and_then-ok _ _ zs h in
      manifest_object-In "occurrence_assertion" a.manifest_uri a.manifest_sha256 o objects p
        (f o (rw (ok-same (o ∷ []) zs q) (inl refl)))

  abbrev pub HasOriginal : RecordingRow → List ReplicaObject → Type 0
  HasOriginal r objects =
      In (object (text "recording_original") r.storage_uri r.byte_size r.digest_value) objects

  recording_objects-In :
      (r : RecordingRow) (zs objects : List ReplicaObject)
      → recording_objects sha256 root target_id r ≡ ok zs
      → ((o : ReplicaObject) → In o zs → In o objects)
      → HasOriginal r objects
  unfolding recording_objects
  recording_objects-In r zs objects h f =
      let (o, p, q) = and_then-ok _ _ zs h in
      rw
        (replica_object-same (text "recording_original") r.storage_uri r.byte_size r.digest_value o
          p)
        (f o (rw (ok-same (o ∷ []) zs q) (inl refl)))

  -- The list is strictly ascending, and no finalized file of the tables is missing in it.
  abbrev pub IsComplete : Tables → List ReplicaObject → Type 0
  IsComplete db objects =
      IsAscending object_compare objects
      × ((a : ArtifactRow) → In a db.artifacts → HasArtifact a objects)
      × ((a : AssertionRow)
          → In a db.capture_occurrence_assertions
          → HasManifest (text "occurrence_assertion") a.manifest_uri a.manifest_sha256 objects)
      × ((r : RecordingRow)
          → In r db.recording_imports
          → r.state ≡ text "COMPLETE"
          → HasOriginal r objects)

  pub Gathered-IsComplete :
      (db : Tables) (gathered : List ReplicaObject)
      → Gathered sha256 root target_id db gathered
      → IsComplete db (sorted_set object_compare gathered)
  Gathered-IsComplete db gathered (contents, occurrences, originals, c, o, r, e) =
      let into : (b : ReplicaObject) → In b gathered → In b (sorted_set object_compare gathered) =
        λ b i. (sorted_set-In object_order b gathered).1 i in
      (
        sorted_set-IsAscending object_order gathered,
        (λ a i.
            let (zs, h, f) =
              collect-In (artifact_objects sha256 root target_id) a (artifacts_by_id db) contents c
                ((sorted-In _ a db.artifacts).1 i) in
            artifact_objects-In a zs _ h (λ b j. into b (
              rw e (
                In-left b (contents ++ occurrences) originals
                  (In-left b contents occurrences (f b j)))))),
        (λ a i.
            let (zs, h, f) =
              collect-In (assertion_objects sha256 root target_id) a (assertions_by_id db)
                occurrences o ((sorted-In _ a db.capture_occurrence_assertions).1 i) in
            assertion_objects-In a zs _ h (λ b j. into b (
              rw e (
                In-left b (contents ++ occurrences) originals
                  (In-right b contents occurrences (f b j)))))),
        (λ a i s.
            let (zs, h, f) =
              collect-In (recording_objects sha256 root target_id) a (complete_by_id db) originals r
                ((sorted-In _ a _).1 (
                  (keep-In _ a db.recording_imports).1
                    (i, rw s (text_eq_refl (text "COMPLETE"))))) in
            recording_objects-In a zs _ h
              (λ b j. into b (rw e (In-right b (contents ++ occurrences) originals (f b j))))),
      )

-- From a world with no open transaction, discover changes neither the tables nor the target and
-- leaves none open. If it returns, then the objects are strictly ascending and contain: for every
-- artifact row its content with the recorded size and digest, and its manifest with the recorded
-- digest and the size of the file that was read and has this digest; for every occurrence assertion
-- its manifest likewise; and for every COMPLETE recording its original.
pub discover-IsComplete :
    {T : Type 0} (sha256 : List ℕ → Text) (root : Option Node) (target_id : Text) (w : World T)
    → w.working ≡ none
    → Post
        (λ objects v.
          ((v.working ≡ none) × (v.committed ≡ w.committed) × (v.target ≡ w.target))
          × IsComplete sha256 root target_id w.committed objects)
        (λ _ v. (v.working ≡ none) × (v.committed ≡ w.committed) × (v.target ≡ w.target))
        (discover sha256 root target_id w)
discover-IsComplete sha256 root target_id w n =
    (Triple-weaken _ _ _ _ (discover-Reads sha256 root target_id w.target w.committed) (λ s p. p)
        (λ objects v (n, (c, (gathered, g, e)), t).
          ((n, c, t), rw e (Gathered-IsComplete sha256 root target_id w.committed gathered g)))
        (λ x v p. p)).at
      w (n, refl, refl)
