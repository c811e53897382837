-- ===== src/Processor/Completion/Runs.antt =====
-- `run` of components/processor-worker/apps/processor_worker/worker.py: what its summary says, and what
-- a run that passes has left behind.
use edge_evidence_showcase.Prelude.{
  ℕ, ◌+◌, ◌≡◌, refl, sym, ◌∙◌, ap, subst, List, [], ◌∷◌, ◌++◌, Text, text, none, Each, length,
  length-append, ◌==◌, arith, if◌then◌else◌,
}
use edge_evidence_showcase.Exec.{gets}
use edge_evidence_showcase.Exec.Triple.{Post, Triple, Triple-pure, Triple-bind, Triple-weaken}
use edge_evidence_showcase.Processor.Runtime.{Runtime}
use edge_evidence_showcase.Processor.Ledger.{Artifact, Ledger}
use edge_evidence_showcase.Processor.Machine.{Machine}
use edge_evidence_showcase.Processor.Catchup.{
  Candidate, RunSummary, eligible, completed_count, summary, no_counts, run_loop, run, finding,
}
use edge_evidence_showcase.Processor.Completion.{IsDerived}
use edge_evidence_showcase.Processor.Completion.Loop.{Stop, Progress, run_loop-Progress}
use edge_evidence_showcase.Processor.Completion.Snapshot.{At, Any, Matches, test, snapshot-At}

-- The counts of a summary over the eligible artifacts of a database.
abbrev pub Counts : Ledger → RunSummary → Type 0
Counts db s =
    (s.snapshot_eligible ≡ length (eligible db))
    × (s.snapshot_eligible
        ≡ s.already_complete + s.prepared_resumed + s.newly_completed + s.remaining)
    × (s.deferred ≡ (if s.remaining == 0 then 0 else 1))
    × (s.status ≡ (if s.remaining == 0 then text "pass" else text "deferred"))

Matches-length :
    (cs : List Candidate) (arts : List Artifact) → Matches cs arts → length cs ≡ length arts
Matches-length [] [] h = refl
Matches-length (c ∷ cs) (a ∷ arts) h = omega (arith, Matches-length cs arts h.1)
Matches-length [] (a ∷ arts) h = absurd h
Matches-length (c ∷ cs) [] h = absurd h

Stop-flag : (rest : List Candidate) (n : ℕ) → Stop rest n → n ≡ (if length rest == 0 then 0 else 1)
Stop-flag [] n h = h
Stop-flag (c ∷ cs) n h = ground arith

summary_lem :
    (n k : ℕ) (s : RunSummary)
    → n ≡ completed_count s + k
    → ((summary n s).remaining ≡ k)
      × ((summary n s).snapshot_eligible ≡ n)
      × ((summary n s).deferred ≡ s.deferred)
      × ((summary n s).snapshot_eligible
          ≡ (summary n s).already_complete
            + (summary n s).prepared_resumed
            + (summary n s).newly_completed
            + (summary n s).remaining)
      × ((summary n s).status
          ≡ (if (summary n s).remaining == 0 then text "pass" else text "deferred"))
unfolding summary completed_count
summary_lem n k s h = (omega arith, refl, refl, omega arith, refl)

-- The artifacts of finished candidates, and those of the candidates that are left.
split_artifacts :
    (P : Text → Type 0) (finished rest : List Candidate) (arts : List Artifact)
    → Matches (finished ++ rest) arts
    → Each (λ (c : Candidate). P c.artifact_id) finished
    → (derived : List Artifact) × (left : List Artifact) × (arts ≡ derived ++ left)
      × (length left ≡ length rest)
      × Each (λ (a : Artifact). P a.artifact_id) derived
split_artifacts P [] rest arts q k = ([], arts, refl, sym (Matches-length rest arts q), tt)
split_artifacts P (c ∷ cs) rest [] q k = absurd q
split_artifacts P (c ∷ cs) rest (a ∷ arts) ((e, f), q) (k, l) =
    let (derived, left, s, n, d) = split_artifacts P cs rest arts q l in
    (a ∷ derived, left, ap (λ xs. a ∷ xs) s, n, (subst P e k, d))

none_completed : completed_count no_counts ≡ 0
unfolding completed_count
none_completed = refl

module _ (runtime : Runtime) where
  -- What a run says and leaves behind.
  abbrev Ran : Ledger → RunSummary → Machine → Type 0
  Ran db s m =
      Counts db s
      × ((derived : List Artifact) × (rest : List Artifact) × (eligible db ≡ derived ++ rest)
          × (length rest ≡ s.remaining)
          × Each (λ (a : Artifact). IsDerived runtime a.artifact_id m) derived)

  summed :
      (db : Ledger) (work : List Candidate) (s : RunSummary) (m : Machine)
      → Matches work (eligible db)
      → Progress runtime work no_counts s m
      → Ran db (summary (length work) s) m
  summed db work s m q (finished, rest, split, each, count, stop) =
      let lengths : length work ≡ length finished + length rest =
        ap length split ∙ length-append finished rest in
      let (r, n, d, e, t) =
        summary_lem (length work) (length rest) s (omega (arith, lengths, count, none_completed)) in
      let (derived, left, split', l, each') =
        split_artifacts (λ id. IsDerived runtime id m) finished rest (eligible db)
          (subst (λ cs. Matches cs (eligible db)) split q) each in
      (
        (
          n ∙ Matches-length work (eligible db) q,
          e,
          d ∙ (rw r (Stop-flag rest s.deferred stop)),
          t,
        ),
        (derived, left, split', l ∙ sym r, each'),
      )

  looped :
      (db : Ledger) (work : List Candidate)
      → Triple
          (λ m. At db m × Matches work (eligible db))
          (run_loop runtime work no_counts)
          (λ s m. Matches work (eligible db) × Progress runtime work no_counts s m)
          Any
  looped db work = record {
    at = λ m (p, q).
        (Triple-weaken _ _ _ _ (run_loop-Progress runtime work no_counts refl) (λ s w. w)
            (λ a s k. (q, k.1)) (λ x s k. tt)).at
          m p.0;
  }

  run-Ran : (db : Ledger) → Triple (At db) (run runtime) (Ran db) Any
  unfolding run
  run-Ran db =
      Triple-bind (gets (λ m. m.root_exists)) _ (λ _. At db) (record { at = λ m p. p })
        λ present.
          Triple-bind _ _ (λ _. At db) (test db present (finding "spool_unavailable" 5))
            λ _. Triple-bind _ _ _ (snapshot-At db runtime) λ work.
              Triple-bind _ _
                (λ s m. Matches work (eligible db) × Progress runtime work no_counts s m)
                (looped db work) λ s. Triple-pure _ (λ m (q, g). summed db work s m q g)

-- With no transaction open: if run returns, then its summary counts the eligible artifacts of the tables
-- that it started from; these are the ones that were complete, resumed or new and the remaining ones;
-- it is deferred once where something remains, and not at all otherwise; and the status is "pass"
-- where nothing remains and "deferred" otherwise.
pub run-Counts :
    (runtime : Runtime) (m : Machine)
    → m.working ≡ none
    → Post (λ s _. Counts m.committed s) (λ _ _. Unit) (run runtime m)
run-Counts runtime m w =
    (Triple-weaken _ _ _ _ (run-Ran runtime m.committed) (λ s p. p) (λ a s q. q.0) (λ x s u. tt)).at
      m (w, refl)

-- With no transaction open: if run returns, then the eligible artifacts of the tables that it started
-- from, in order, are some that are derived, and behind them as many as the summary says to remain.
-- An artifact is derived where, for evidence of it and its plan, the report and the manifest of the
-- plan stand at their names, and the committed tables have the COMPLETE job, the derived artifact
-- and its lineage.
pub run-derives :
    (runtime : Runtime) (m : Machine)
    → m.working ≡ none
    → Post
        (λ s m'.
          (derived : List Artifact) × (rest : List Artifact) × (eligible m.committed
            ≡ derived ++ rest)
          × (length rest ≡ s.remaining)
          × Each (λ (a : Artifact). IsDerived runtime a.artifact_id m') derived)
        (λ _ _. Unit)
        (run runtime m)
run-derives runtime m w =
    (Triple-weaken _ _ _ _ (run-Ran runtime m.committed) (λ s p. p) (λ a s q. q.1) (λ x s u. tt)).at
      m (w, refl)
