-- ===== src/Worker/Completion/Replicated.antt =====
-- What `run` of core/worker.py has replicated: the statement, and how it is kept.
pub mod Whole
use edge_evidence_showcase.Prelude.{
  ℕ, ◌≡◌, refl, sym, ◌∙◌, ap, Bool, Option, none, some, List, [], ◌∷◌, ◌++◌, map, Text, In, Each,
  inl, inr, ◌⊎◌, length,
}
use edge_evidence_showcase.Exec.{Result, ok, err, Exec, ◌>>=◌, ◌>>◌}
use edge_evidence_showcase.Exec.Triple.{
  Post, Triple, Triple-pure, Triple-bind, Triple-finally, Triple-weaken, Triple-and, Keeps-lift,
}
use edge_evidence_showcase.Contracts.{Exn}
use edge_evidence_showcase.Contracts.Objects.{ReplicaObject}
use edge_evidence_showcase.Database.{pending, verified, ReplicaRow, Tables}
use edge_evidence_showcase.Database.Schema.Evolution.{
  RowsEvolve, SameSources, Evolves, Evolves-refl,
}
use edge_evidence_showcase.Database.Session.{World, rollback}
use edge_evidence_showcase.Spool.{Node}
use edge_evidence_showcase.Authority.{register_discovered, pending_objects, objects_for_state}
use edge_evidence_showcase.Authority.Changes.{Open, Changes-Open, objects_for_state-Reads}
use edge_evidence_showcase.Authority.Registration.{Covers, for_target, register_discovered-Changes}
use edge_evidence_showcase.Authority.Selection.{Selected-rows}
use edge_evidence_showcase.Discovery.{discover}
use edge_evidence_showcase.Discovery.Found.{discover-Reads}
use edge_evidence_showcase.Discovery.Complete.{IsComplete, Gathered-IsComplete}
use edge_evidence_showcase.Target.{TargetApi}
use edge_evidence_showcase.Worker.Binding.{RunSummary}
use edge_evidence_showcase.Worker.Running.{publish_loop, run}
use edge_evidence_showcase.Worker.Safety.Calls.{Safe, connect-Safe, Grows-Evolves, Evolves-trans}
use edge_evidence_showcase.Worker.Safety.Runs.{
  asks_nothing, load_target-Safe, bind-Safe, reconcile-Keeps,
}
use edge_evidence_showcase.Worker.Safety.Publishing.{publish_loop-Safe}
use edge_evidence_showcase.Worker.Completion.{Left, Waiting}
use edge_evidence_showcase.Worker.Completion.Loops.{
  publish_loop-Waiting, Idle, idle, AllVerified, Left-AllVerified, Held-nothing,
}

-- A row that is there evolves.
In-RowsEvolve :
    (r : ReplicaRow) (rs ss : List ReplicaRow)
    → RowsEvolve rs ss
    → In r rs
    → (s : ReplicaRow) × In s ss × (s.object ≡ r.object)
In-RowsEvolve r [] ss h i = absurd i
In-RowsEvolve r (q ∷ rs) [] h i = absurd h
In-RowsEvolve r (q ∷ rs) (s ∷ ss) (e, h) (inl same) =
    (s, inl refl, e.0 ∙ ap (λ t. t.object) (sym same))
In-RowsEvolve r (q ∷ rs) (s ∷ ss) (e, h) (inr i) =
    let (t, j, k) = In-RowsEvolve r rs ss h i in (t, inr j, k)

pub Each-Covers :
    (target_id : Text) (a b : Tables)
    → Evolves a b
    → (os : List ReplicaObject) → Each (Covers target_id a) os
    → Each (Covers target_id b) os
Each-Covers target_id a b e [] h = tt
Each-Covers target_id a b e (o ∷ os) ((r, i, q), h) =
    let (s, j, k) = In-RowsEvolve r a.replica_objects b.replica_objects e.0 i in
    ((s, j, k ∙ q), Each-Covers target_id a b e os h)

pub SameSources-IsComplete :
    (sha256 : List ℕ → Text) (root : Option Node) (target_id : Text) (a b : Tables)
    (objects : List ReplicaObject)
    → SameSources a b
    → IsComplete sha256 root target_id b objects
    → IsComplete sha256 root target_id a objects
SameSources-IsComplete sha256 root target_id a b objects (p, q, r) (s, f, g, h) =
    (s, λ x i. f x (rw p i), λ x i. g x (rw q i), λ x i. h x (rw r i))

-- A VERIFIED row of exactly this object.
abbrev pub Replicated : Text → Tables → ReplicaObject → Type 0
Replicated target_id db o =
    (r : ReplicaRow) × In r db.replica_objects
    × (r.object ≡ for_target target_id o)
    × (r.state ≡ verified)

Each-at : {A : Type 0} (P : A → Type 0) (a : A) (xs : List A) → Each P xs → In a xs → P a
Each-at P a [] h i = absurd i
Each-at P a (x ∷ xs) h (inl e) = rw e h.0
Each-at P a (x ∷ xs) h (inr i) = Each-at P a xs h.1 i

pub Each-Replicated :
    (target_id : Text) (db : Tables)
    → AllVerified target_id db
    → (os : List ReplicaObject) → Each (Covers target_id db) os
    → Each (Replicated target_id db) os
Each-Replicated target_id db v [] h = tt
Each-Replicated target_id db v (o ∷ os) ((r, i, q), h) = (
  (r, i, q, Each-at _ r db.replica_objects v i (ap (λ p. p.target_id) q)),
  Each-Replicated target_id db v os h,
)

-- No transaction is open, every row of the target is VERIFIED, and the objects are all that was
-- finalized in the tables `first`, each with a VERIFIED row.
abbrev pub Done :
    {T : Type 0}
    → Text
    → (List ℕ → Text)
    → Option Node
    → Tables
    → List ReplicaObject
    → World T
    → Type 0
Done target_id sha256 root first objects v =
    (v.working ≡ none)
    × AllVerified target_id v.committed
    × IsComplete sha256 root target_id first objects
    × Each (Replicated target_id v.committed) objects
