-- ===== src/Discovery/Found.antt =====
-- What `discover` of core/authority.py reads, query by query.
use edge_evidence_showcase.Prelude.{
  ℕ, ◌≡◌, refl, Option, List, ◌++◌, Text, text, text_eq, text_compare, keep,
}
use edge_evidence_showcase.Prelude.Sorting.{sorted, sorted_set}
use edge_evidence_showcase.Contracts.Objects.{ReplicaObject, object_compare}
use edge_evidence_showcase.Exec.{Result, ok, Exec, collect, lift, catch, ◌>>=◌, ◌>>◌}
use edge_evidence_showcase.Exec.Triple.{
  Triple, Triple-pure, Triple-lift, Triple-bind, Triple-catch, Triple-finally, Triple-weaken,
}
use edge_evidence_showcase.Contracts.{Exn, replication, sqlite_error, foreign}
use edge_evidence_showcase.Database.{ArtifactRow, AssertionRow, RecordingRow, Tables}
use edge_evidence_showcase.Database.Session.{World, query, begin, rollback, abort}
use edge_evidence_showcase.Database.Session.Rules.{Outside, Inside, query-Inside, begin_rule}
use edge_evidence_showcase.Spool.{Node}
use edge_evidence_showcase.Authority.{connect, require_current}
use edge_evidence_showcase.Authority.Changes.{Reads, connect-Changes, require_current-Changes}
use edge_evidence_showcase.Discovery.{
  artifact_objects, assertion_objects, recording_objects, discover_reads, discover,
}

-- What the three queries select, in their order.
abbrev pub artifacts_by_id : Tables → List ArtifactRow
artifacts_by_id db = sorted (λ a b. text_compare a.artifact_id b.artifact_id) db.artifacts

abbrev pub assertions_by_id : Tables → List AssertionRow
assertions_by_id db =
    sorted (λ a b. text_compare a.occurrence_id b.occurrence_id) db.capture_occurrence_assertions

abbrev pub complete_by_id : Tables → List RecordingRow
complete_by_id db =
    sorted (λ a b. text_compare a.recording_id b.recording_id)
      (keep (λ r. text_eq r.state (text "COMPLETE")) db.recording_imports)

-- The objects of the three queries, row by row.
abbrev pub Gathered : (List ℕ → Text) → Option Node → Text → Tables → List ReplicaObject → Type 0
Gathered sha256 root target_id db objects =
    (contents : List ReplicaObject) × (occurrences : List ReplicaObject) × (originals : List
      ReplicaObject)
    × (collect (artifact_objects sha256 root target_id) (artifacts_by_id db) ≡ ok contents)
    × (collect (assertion_objects sha256 root target_id) (assertions_by_id db) ≡ ok occurrences)
    × (collect (recording_objects sha256 root target_id) (complete_by_id db) ≡ ok originals)
    × (objects ≡ contents ++ occurrences ++ originals)

module _ {T : Type 0} (target : T) (start : Tables) where
  -- The committed tables and the target are as they were.
  abbrev Fixed : World T → Type 0
  Fixed w = (w.committed ≡ start) × (w.target ≡ target)

  query-Fixed :
      {A : Type 0} (f : Tables → A)
      → Triple
          (Inside target start (λ d. d ≡ start))
          (query f)
          (λ a. Inside target start (λ d. (d ≡ start) × (a ≡ f start)))
          (λ _. Fixed)
  query-Fixed f =
      Triple-weaken (query f) _ _ _ (query-Inside target (λ d. d ≡ start) start f) (λ s p. p)
        (λ a s (d, p, (q, e), c, t). (d, p, (q, rw q at e), c, t)) (λ x s (u, c, t). (c, t))

  lift-Fixed :
      {A B : Type 0} (f : Tables → A) (g : A → Result Exn B) (a : A)
      → Triple
          (Inside target start (λ d. (d ≡ start) × (a ≡ f start)))
          (lift (g a))
          (λ b. Inside target start (λ d. (d ≡ start) × (g (f start) ≡ ok b)))
          (λ _. Fixed)
  lift-Fixed f g a =
      Triple-lift (g a) (λ b h s (d, p, (q, e), c, t). (d, p, (q, rw e at h), c, t))
        (λ x h s (d, p, q, c, t). (c, t))

  -- A read, then the rest of the block, which knows what has been read.
  read_then :
      {A B C : Type 0} (f : Tables → A) (g : A → Result Exn B) (k : B → Exec (World T) Exn C)
      (Q : C → World T → Type 0)
      → ((b : B)
          → g (f start) ≡ ok b
          → Triple (Inside target start (λ d. d ≡ start)) (k b) Q (λ _. Fixed))
      → Triple
          (Inside target start (λ d. d ≡ start))
          (query f >>= λ a. lift (g a) >>= k)
          Q
          (λ _. Fixed)
  read_then f g k Q h =
      Triple-bind (query f) _ (λ a. Inside target start (λ d. (d ≡ start) × (a ≡ f start)))
        (query-Fixed f)
        (λ a.
          Triple-bind (lift (g a)) k
            (λ b. Inside target start (λ d. (d ≡ start) × (g (f start) ≡ ok b))) (lift-Fixed f g a)
            (λ b. record { at = λ s (d, p, (q, e), c, t). (h b e).at s (d, p, q, c, t) }))

  abort-Fixed :
      {A : Type 0} (Q : A → World T → Type 0) (x : Exn) → Triple Fixed (abort x) Q (λ _. Fixed)
  abort-Fixed Q (replication e) = record { at = λ s p. unfold abort in p }
  abort-Fixed Q sqlite_error = record { at = λ s p. unfold abort in p }
  abort-Fixed Q (foreign n) = record { at = λ s p. unfold abort in p }

  module _ (sha256 : List ℕ → Text) (root : Option Node) (target_id : Text) where
    discover_reads-Fixed :
        Triple
          (Inside target start (λ d. d ≡ start))
          (discover_reads sha256 root target_id)
          (λ objects w. Fixed w × Gathered sha256 root target_id start objects)
          (λ _. Fixed)
    unfolding discover_reads
    discover_reads-Fixed =
        read_then artifacts_by_id (collect (artifact_objects sha256 root target_id)) _ _
          (λ contents c.
            read_then assertions_by_id (collect (assertion_objects sha256 root target_id)) _ _
              (λ occurrences o.
                read_then complete_by_id (collect (recording_objects sha256 root target_id)) _ _
                  (λ originals r. Triple-pure _ (λ s (d, p, q, f, t).
                    ((f, t), (contents, occurrences, originals, c, o, r, refl))))))

    body_Fixed :
        Triple
          (Outside target (λ d. d ≡ start))
          (catch (require_current >> begin >> discover_reads sha256 root target_id) abort)
          (λ objects w. Fixed w × Gathered sha256 root target_id start objects)
          (λ _. Fixed)
    body_Fixed =
        Triple-catch _ abort (λ _. Fixed)
          (Triple-bind (require_current >> begin) _ (λ _. Inside target start (λ d. d ≡ start))
            (Triple-bind require_current _ (λ _. Outside target (λ d. d ≡ start))
              (Triple-weaken require_current _ _ _ (require_current-Changes target start) (λ s p. p)
                (λ a s (n, (d, h), t). (n, d, t)) (λ x s (n, d, t). (d, t)))
              (λ _.
                Triple-weaken begin _ _ _ (begin_rule target start) (λ s p. p) (λ a s p. p)
                  (λ x s p. (p.0.1, p.0.2))))
            (λ _. discover_reads-Fixed))
          (abort-Fixed _)

-- It reads only, and leaves no transaction open; it returns what it gathers, sorted.
pub discover-Reads :
    {T : Type 0} (sha256 : List ℕ → Text) (root : Option Node) (target_id : Text)
    → Reads {T = T} (discover sha256 root target_id) (λ start objects.
      (gathered : List ReplicaObject) × Gathered sha256 root target_id start gathered
      × (objects ≡ sorted_set object_compare gathered))
unfolding discover
discover-Reads sha256 root target_id target start =
    Triple-bind connect _ _ (connect-Changes target start) (λ _.
      Triple-bind _ _
        (λ gathered.
          Outside target (λ d. (d ≡ start) × Gathered sha256 root target_id start gathered))
        (Triple-finally _ rollback (
          Triple-weaken _ _ _ _ (body_Fixed target start sha256 root target_id) (λ s p. p)
            (λ a s ((c, t), g). (refl, (c, g), t)) (λ x s (c, t). (refl, c, t))))
        (λ gathered. Triple-pure _ (λ s (n, (c, g), t). (n, (c, (gathered, g, refl)), t))))
