-- ===== src/Authority/Lifecycle.antt =====
-- The life of one replica row: what record_attempt, record_failure and mark_verified do to it.
use edge_evidence_showcase.Prelude.{
  ℕ, ◌+◌, ◌≡◌, refl, true, false, none, some, List, Text, take, inl, inr, ◌⊎◌, [], ◌∷◌, arith,
}
use edge_evidence_showcase.Exec.{Result, Exec}
use edge_evidence_showcase.Exec.Triple.{Post, Triple-weaken}
use edge_evidence_showcase.Contracts.{Exn}
use edge_evidence_showcase.Contracts.Objects.{ReplicaObject, object_eq→eq, object_eq_refl}
use edge_evidence_showcase.Database.{pending, verified, ReplicaRow, Tables}
use edge_evidence_showcase.Database.Schema.{update_replica_rows}
use edge_evidence_showcase.Database.Schema.Updates.{OneUpdated, update_replica_rows-OneUpdated}
use edge_evidence_showcase.Database.Statements.{
  is_pending_row, set_attempt, set_failure, set_verified, state_eq,
}
use edge_evidence_showcase.Database.Session.{World}
use edge_evidence_showcase.Authority.{record_attempt, record_failure, mark_verified}
use edge_evidence_showcase.Authority.Changes.{
  Changes, record_attempt-Changes, record_failure-Changes, mark_verified-Changes,
}

abbrev pub IsPendingFor : ReplicaObject → ReplicaRow → Type 0
IsPendingFor obj r = (r.object ≡ obj) × (r.state ≡ pending)

-- One row moves as `Move` says, from a PENDING row of `obj`; all the other rows are as they were,
-- and those before it are no PENDING rows of `obj`.
abbrev pub OneMoves :
    ReplicaObject → (ReplicaRow → ReplicaRow → Type 0) → List ReplicaRow → List ReplicaRow → Type 0
OneMoves obj Move [] ss = ⊥
OneMoves obj Move (r ∷ rs) [] = ⊥
OneMoves obj Move (r ∷ rs) (s ∷ ss) =
    (IsPendingFor obj r × Move r s × (ss ≡ rs))
    ⊎ (¬ IsPendingFor obj r × (s ≡ r) × OneMoves obj Move rs ss)

abbrev pub Attempted : ReplicaRow → ReplicaRow → Type 0
Attempted r s = s ≡ record r { attempt_count = r.attempt_count + 1; last_error = none }

abbrev pub Failed : Text → ReplicaRow → ReplicaRow → Type 0
Failed finding r s = s ≡ record r { last_error = some (take 96 finding) }

abbrev pub Verified : ReplicaRow → ReplicaRow → Type 0
Verified r s =
    (now : ℕ) × (s ≡ record r { state = verified; last_error = none; verified_at = some now })

pub matched :
    (obj : ReplicaObject) (r : ReplicaRow) → is_pending_row obj r ≡ true → IsPendingFor obj r
unfolding is_pending_row
matched obj r h = (ground (arith, object_eq→eq r.object obj), ground arith)

pub unmatched :
    (obj : ReplicaObject) (r : ReplicaRow) → is_pending_row obj r ≡ false → ¬ IsPendingFor obj r
unfolding is_pending_row state_eq
unmatched obj r h (o, p) = ground (arith, object_eq_refl obj)

OneUpdated-OneMoves :
    (obj : ReplicaObject) (set : ReplicaRow → ReplicaRow) (Move : ReplicaRow → ReplicaRow → Type 0)
    → ((r : ReplicaRow) → Move r (set r))
    → (rs ss : List ReplicaRow) → OneUpdated (is_pending_row obj) set rs ss
    → OneMoves obj Move rs ss
OneUpdated-OneMoves obj set Move m [] ss h = h
OneUpdated-OneMoves obj set Move m (r ∷ rs) [] h = h
OneUpdated-OneMoves obj set Move m (r ∷ rs) (s ∷ ss) (inl (w, e, q)) =
    inl (matched obj r w, rw e (m r), q)
OneUpdated-OneMoves obj set Move m (r ∷ rs) (s ∷ ss) (inr (w, e, q)) =
    inr (unmatched obj r w, e, OneUpdated-OneMoves obj set Move m rs ss q)

update-OneMoves :
    (obj : ReplicaObject) (set : ReplicaRow → ReplicaRow) (Move : ReplicaRow → ReplicaRow → Type 0)
    → ((r : ReplicaRow) → Move r (set r))
    → (start d : Tables) → update_replica_rows (is_pending_row obj) set start ≡ some (d, 1)
    → OneMoves obj Move start.replica_objects d.replica_objects
update-OneMoves obj set Move m start d h =
    OneUpdated-OneMoves obj set Move m start.replica_objects d.replica_objects
      (update_replica_rows-OneUpdated (is_pending_row obj) set start d h)

-- How a call on the connection ends: it has closed its transaction and left the target alone; the
-- rows have moved in one place if it returns, and the tables are as they were if it raises.
abbrev pub MovesOne :
    {T : Type 0}
    → ReplicaObject
    → (ReplicaRow → ReplicaRow → Type 0)
    → World T
    → Result Exn Unit × World T
    → Type 0
MovesOne obj Move w =
    Post
      (λ _ v.
        (v.working ≡ none)
        × OneMoves obj Move w.committed.replica_objects v.committed.replica_objects
        × (v.target ≡ w.target))
      (λ _ v. (v.working ≡ none) × (v.committed ≡ w.committed) × (v.target ≡ w.target))

module _ {T : Type 0} (obj : ReplicaObject) (w : World T) where
  Changes-MovesOne :
      (m : Exec (World T) Exn Unit) (Move : ReplicaRow → ReplicaRow → Type 0)
      (Q : Tables → Unit → Tables → Type 0)
      → Changes m Q
      → ((start d : Tables)
          → Q start tt d
          → OneMoves obj Move start.replica_objects d.replica_objects)
      → w.working ≡ none
      → MovesOne obj Move w (m w)
  Changes-MovesOne m Move Q c f p =
      (Triple-weaken m _ _ _ (c w.target w.committed) (λ s h. h)
          (λ _ v (n, q, t). (n, f w.committed v.committed q, t)) (λ _ v h. h)).at
        w (p, refl, refl)

  -- From a world with no open transaction, record_attempt either returns, and then one PENDING row
  -- of the object has one attempt more and no last_error while every other row is unchanged, or
  -- raises, and then the tables are unchanged. In both cases no transaction is left open and the
  -- target is unchanged.
  pub record_attempt-MovesOne : w.working ≡ none → MovesOne obj Attempted w (record_attempt obj w)
  record_attempt-MovesOne =
      Changes-MovesOne (record_attempt obj) Attempted _ (record_attempt-Changes obj)
        (update-OneMoves obj set_attempt Attempted (λ r. unfold set_attempt in refl))

  -- From a world with no open transaction, record_failure either returns, and then one PENDING row
  -- of the object has the first 96 characters of the finding as its last_error while every other row
  -- is unchanged, or raises, and then the tables are unchanged. In both cases no transaction is left
  -- open and the target is unchanged.
  pub record_failure-MovesOne :
      (finding : Text)
      → w.working ≡ none
      → MovesOne obj (Failed finding) w (record_failure obj finding w)
  record_failure-MovesOne finding =
      Changes-MovesOne (record_failure obj finding) (Failed finding) _
        (record_failure-Changes obj finding)
        (update-OneMoves obj (set_failure finding) (Failed finding)
          (λ r. unfold set_failure in refl))

  -- From a world with no open transaction, mark_verified either returns, and then one PENDING row of
  -- the object is VERIFIED at some time, with no last_error, while every other row is unchanged, or
  -- raises, and then the tables are unchanged. In both cases no transaction is left open and the
  -- target is unchanged.
  pub mark_verified-MovesOne : w.working ≡ none → MovesOne obj Verified w (mark_verified obj w)
  mark_verified-MovesOne =
      Changes-MovesOne (mark_verified obj) Verified _ (mark_verified-Changes obj)
        (λ start d (now, h).
          update-OneMoves obj (set_verified now) Verified (λ r. unfold set_verified in (now, refl))
            start d h)
