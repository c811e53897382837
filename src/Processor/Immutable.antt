-- ===== src/Processor/Immutable.antt =====
-- What `process_artifact` (components/processor-worker/apps/edge_agent/process.py) never changes,
-- however it ends: files that exist, apart from its own partials, recorded artifacts and lineage, and
-- COMPLETE jobs.
use edge_evidence_showcase.Prelude.{
  ◌≡◌, refl, sym, ◌∙◌, subst, true, false, Bool-cases, inl, inr, Option, none, some, [], ◌∷◌, Text,
  text, text_eq, text_eq→eq,
}
use edge_evidence_showcase.Exec.Triple.{Keeps, Keeps-at}
use edge_evidence_showcase.Contracts.{starts_with}
use edge_evidence_showcase.Processor.Runtime.{Runtime}
use edge_evidence_showcase.Processor.Ledger.{
  ArtifactFacts, Job, complete, Ledger, find_artifact, find_job, find_lineage,
}
use edge_evidence_showcase.Processor.Ledger.Steps.{
  LedgerStep, none-some, false-true, LedgerStep-artifact, LedgerStep-lineage,
}
use edge_evidence_showcase.Processor.Ledger.Sound.{LedgerStep-job, IsSound, LedgerStep-IsSound}
use edge_evidence_showcase.Processor.Machine.{
  Item, Files, Machine, item_at, put_item, remove_item, set_files, current, store,
}
use edge_evidence_showcase.Processor.Plan.{ProcessRequest}
use edge_evidence_showcase.Processor.Process.{process_artifact}
use edge_evidence_showcase.Processor.Stable.{IsPartial, Stable}
use edge_evidence_showcase.Processor.Stable.Process.{process_artifact-Keeps}

pub put_item-other :
    (path p : Text) (item : Item) (fs : Files)
    → text_eq path p ≡ false
    → item_at p (put_item path item fs) ≡ item_at p fs
unfolding item_at put_item
put_item-other path p item [] n = rw n refl
put_item-other path p item ((q, i) ∷ fs) n = elim (Bool-cases (text_eq q path)) [
  | inl e ↦ let f : text_eq q p ≡ false = rw (text_eq→eq q path e) n in rw (e, f) refl
  | inr e ↦ rw (e, put_item-other path p item fs n) refl
]

remove_item-other :
    (path p : Text) (fs : Files)
    → text_eq path p ≡ false
    → item_at p (remove_item path fs) ≡ item_at p fs
unfolding item_at remove_item
remove_item-other path p [] n = refl
remove_item-other path p ((q, i) ∷ fs) n = elim (Bool-cases (text_eq q path)) [
  | inl e ↦
      let f : text_eq q p ≡ false = rw (text_eq→eq q path e) n in
      rw (e, f, remove_item-other path p fs n) refl
  | inr e ↦ rw (e, remove_item-other path p fs n) refl
]

-- Two names with different items are different.
names_differ :
    (path p : Text) (fs : Files) (item : Item)
    → item_at path fs ≡ none
    → item_at p fs ≡ some item
    → text_eq path p ≡ false
names_differ path p fs item h k = elim (Bool-cases (text_eq path p)) [
  | inl e ↦
      let found : item_at path fs ≡ some item = rw (text_eq→eq path p e) k in
      absurd (none-some (sym h ∙ found))
  | inr e ↦ e
]

-- A partial is not a name outside the place of the partials.
partial_differs :
    (path p : Text)
    → IsPartial path
    → starts_with p (text "partial/processing/") ≡ false
    → text_eq path p ≡ false
partial_differs path p i n = elim (Bool-cases (text_eq path p)) [
  | inl e ↦
      let here : starts_with p (text "partial/processing/") ≡ true =
        subst (λ t. starts_with t (text "partial/processing/") ≡ true) (text_eq→eq path p e) i in
      absurd (false-true (sym n ∙ here))
  | inr e ↦ e
]

abbrev HasItem : Text → Item → Machine → Type 0
HasItem p item m = item_at p m.files ≡ some item

store-files :
    (t : Ledger) (m : Machine) (o : Option Ledger) → m.working ≡ o → (store t m).files ≡ m.files
unfolding store
store-files t m none e = rw e refl
store-files t m (some u) e = rw e refl

file_stable :
    (p : Text) (item : Item)
    → starts_with p (text "partial/processing/") ≡ false
    → Stable (HasItem p item)
unfolding set_files
file_stable p item n = record {
  spending = λ m h. h;
  locking = λ m h. h;
  adding =
      λ m path i e h. put_item-other path p i m.files (names_differ path p m.files item e h) ∙ h;
  writing = λ m path i q h. put_item-other path p i m.files (partial_differs path p q n) ∙ h;
  removing = λ m path q h. remove_item-other path p m.files (partial_differs path p q n) ∙ h;
  beginning = λ m e h. h;
  committing = λ m h. h;
  rolling = λ m h. h;
  storing = λ m t st h. rw (store-files t m m.working refl) h;
}

-- A property of the committed tables, and of the tables that an open transaction would commit.
abbrev pub Holding : (Ledger → Type 0) → Machine → Type 0
Holding Q m = Q m.committed × Q (current m.working m.committed)

stored :
    (Q : Ledger → Type 0) (m : Machine) (t : Ledger) (o : Option Ledger)
    → m.working ≡ o
    → Holding Q m
    → Q t
    → Holding Q (store t m)
unfolding store current
stored Q m t none e h q = rw (e, store, current) (q, rw e q)
stored Q m t (some u) e h q = rw (e, store, current) (h.0, q)

ledger_stable :
    (Q : Ledger → Type 0)
    → ((db db' : Ledger) → LedgerStep db db' → Q db → Q db')
    → Stable (Holding Q)
unfolding set_files current
ledger_stable Q k = record {
  spending = λ m h. h;
  locking = λ m h. h;
  adding = λ m path i e h. h;
  writing = λ m path i q h. h;
  removing = λ m path q h. h;
  beginning = λ m e h. (h.0, h.0);
  committing = λ m h. (h.1, h.1);
  rolling = λ m h. (h.0, h.0);
  storing = λ m t st h. stored Q m t m.working refl h (k (current m.working m.committed) t st h.1);
}

module _ (runtime : Runtime) (request : ProcessRequest) where
  -- A run keeps what every change of the ledger keeps.
  pub process_artifact-Holding :
      (Q : Ledger → Type 0)
      → ((db db' : Ledger) → LedgerStep db db' → Q db → Q db')
      → Keeps (Holding Q) (process_artifact runtime request)
  process_artifact-Holding Q k =
      process_artifact-Keeps (Holding Q) (ledger_stable Q k) runtime request

  -- Whatever fails and wherever the process is killed: a run of process_artifact leaves every file,
  -- folder or link of the spool as it was, except the partials below partial/processing.
  pub process_artifact-item :
      (m : Machine) (path : Text) (item : Item)
      → starts_with path (text "partial/processing/") ≡ false
      → item_at path m.files ≡ some item
      → item_at path (process_artifact runtime request m).1.files ≡ some item
  process_artifact-item m path item n h =
      Keeps-at
        (process_artifact-Keeps (HasItem path item) (file_stable path item n) runtime request) m h

  -- The same of the tables that are committed: a recorded artifact keeps its columns, the lineage of
  -- an artifact stays, and a COMPLETE job stays as it is.
  pub process_artifact-rows :
      (m : Machine) (id : Text) (facts : ArtifactFacts) (row : Text × Text) (j : Job)
      → m.working ≡ none
      → (find_artifact id m.committed.artifacts ≡ some facts
          → find_artifact id (process_artifact runtime request m).1.committed.artifacts
            ≡ some facts)
        × (find_lineage id m.committed.artifact_lineage ≡ some row
            → find_lineage id (process_artifact runtime request m).1.committed.artifact_lineage
              ≡ some row)
        × (j.state ≡ complete
            → find_job id m.committed.processing_jobs ≡ some j
            → find_job id (process_artifact runtime request m).1.committed.processing_jobs ≡ some j)
  unfolding current
  process_artifact-rows m id facts row j w = (
    λ h.
        holds (λ db. find_artifact id db.artifacts ≡ some facts)
          (λ db db' st. LedgerStep-artifact db db' id facts st) m w h,
    λ h.
        holds (λ db. find_lineage id db.artifact_lineage ≡ some row)
          (λ db db' st. LedgerStep-lineage db db' id row st) m w h,
    λ c h.
        holds (λ db. find_job id db.processing_jobs ≡ some j)
          (λ db db' st. LedgerStep-job db db' id j st c) m w h,
  )
    where
      holds :
          (Q : Ledger → Type 0)
          → ((db db' : Ledger) → LedgerStep db db' → Q db → Q db')
          → (m : Machine) → m.working ≡ none
          → Q m.committed
          → Q (process_artifact runtime request m).1.committed
      holds Q k m w q = (Keeps-at (process_artifact-Holding Q k) m (q, rw w q)).0

  -- However a run ends, every COMPLETE job of the committed tables has its output: a recorded
  -- artifact whose lineage names the input of the job.
  pub process_artifact-IsSound :
      (m : Machine)
      → m.working ≡ none
      → IsSound m.committed
      → IsSound (process_artifact runtime request m).1.committed
  unfolding current
  process_artifact-IsSound m w h =
      (Keeps-at (process_artifact-Holding IsSound LedgerStep-IsSound) m (h, rw w h)).0
