-- ===== src/Authority/Changes.antt =====
-- What each operation of core/authority.py does to the committed tables, by how it ends.
use edge_evidence_showcase.Prelude.{
  ℕ, ◌≡◌, refl, true, none, some, List, Text, String, ◌==◌, ==→eq, keep,
}
use edge_evidence_showcase.Prelude.Sorting.{sorted}
use edge_evidence_showcase.Exec.{Result, Exec, ok, err, lift, gets, ◌>>=◌}
use edge_evidence_showcase.Exec.Triple.{
  Post, Triple, Triple-pure, Triple-raise, Triple-lift, Triple-if, Triple-bind, Triple-catch,
  Triple-weaken,
}
use edge_evidence_showcase.Contracts.{Exn, replication, sqlite_error, foreign}
use edge_evidence_showcase.Contracts.Objects.{ReplicaObject}
use edge_evidence_showcase.Database.{ReplicaState, ReplicaRow, Tables}
use edge_evidence_showcase.Database.Schema.{update_replica_rows}
use edge_evidence_showcase.Database.Statements.{
  recorded_migrations, is_current, find_target, in_state, row_compare, is_pending_row, set_attempt,
  set_failure, set_verified,
}
use edge_evidence_showcase.Database.Session.{World, query, execute, transaction}
use edge_evidence_showcase.Database.Session.Rules.{
  Outside, Inside, Aborting, query-Outside, execute-Inside, transaction_rule, failure-Caught,
}
use edge_evidence_showcase.Authority.{
  renamed, rename_error, connect, require_current, target_row, objects_for_state, update_pending,
  record_attempt, record_failure, mark_verified, objects_of,
}

-- The objects that `objects_for_state` returns: those of the rows selected, in their order.
abbrev pub Selected : Text → ReplicaState → Tables → List ReplicaObject → Type 0
Selected target_id state db objects =
    objects_of target_id (sorted row_compare (keep (in_state target_id state) db.replica_objects))
    ≡ ok objects

module _ {T : Type 0} where
  -- The call opens no transaction and leaves the target alone. From the tables `start` it returns
  -- `a` with the tables related by `Q start a`, or it raises with the tables as they were.
  abbrev pub Changes : {A : Type 0} → Exec (World T) Exn A → (Tables → A → Tables → Type 0) → Type 0
  Changes m Q =
      (target : T) (start : Tables)
      → Triple (Outside target (λ d. d ≡ start)) m (λ a. Outside target (Q start a))
          (λ _. Outside target (λ d. d ≡ start))

  -- No transaction is open, and `P` holds of the tables and the target.
  abbrev pub Open : (Tables → T → Type 0) → World T → Type 0
  Open P w = (w.working ≡ none) × P w.committed w.target

  -- Such a call keeps what its change keeps.
  pub Changes-Open :
      {A : Type 0} (m : Exec (World T) Exn A) (Q : Tables → A → Tables → Type 0)
      (P : Tables → T → Type 0) (R : A → Tables → T → Type 0)
      → Changes m Q
      → ((start : Tables) (a : A) (d : Tables) (t : T) → P start t → Q start a d → R a d t)
      → Triple (Open P) m (λ a. Open (R a)) (λ _. Open P)
  Changes-Open {A} m Q P R c f = record {
    at = λ w p. go w p (m w) ((c w.target w.committed).at w (p.0, refl, refl));
  }
    where
      go :
          (w : World T)
          → Open P w
          → (r : Result Exn A × World T)
          → Post
              (λ a. Outside w.target (Q w.committed a))
              (λ _. Outside w.target (λ d. d ≡ w.committed))
              r
          → Post (λ a. Open (R a)) (λ _. Open P) r
      go w p (ok a, v) (n, q, e) = (n, rw e (f w.committed a v.committed w.target p.1 q))
      go w p (err x, v) (n, q, e) = (n, rw (q, e) p.1)

  renamed_Outside :
      {A : Type 0} (finding : String) (P : World T → Type 0) (Q : A → World T → Type 0) (x : Exn)
      → Triple P (renamed finding x) Q (λ _. P)
  unfolding renamed
  renamed_Outside finding P Q sqlite_error = Triple-raise _ (λ s p. p)
  renamed_Outside finding P Q (replication e) = Triple-raise _ (λ s p. p)
  renamed_Outside finding P Q (foreign n) = Triple-raise _ (λ s p. p)

  rename_error_Outside :
      {A : Type 0} (finding : String) (m : Exec (World T) Exn A) (P : World T → Type 0)
      (Q : A → World T → Type 0)
      → Triple P m Q (λ _. P)
      → Triple P (rename_error finding m) Q (λ _. P)
  unfolding rename_error
  rename_error_Outside finding m P Q h =
      Triple-catch m (renamed finding) (λ _. P) h (renamed_Outside finding P Q)

  -- A SELECT outside a transaction.
  query_Changes :
      {A : Type 0} (finding : String) (f : Tables → A)
      → Changes (rename_error finding (query f)) (λ start a d. (d ≡ start) × (a ≡ f start))
  query_Changes finding f target start = rename_error_Outside finding (query f) _ _ (
      Triple-weaken (query f) _ _ _ (query-Outside target (λ d. d ≡ start) f) (λ s p. p)
        (λ a s (n, (d, e), t). (n, (d, rw d at e), t)) (λ x s p. p.0))

  pub connect-Changes : Changes connect (λ start _ d. d ≡ start)
  unfolding connect
  connect-Changes target start = rename_error_Outside _ _ _ _ (
      Triple-bind (query (λ _. tt)) _ (λ _. Outside target (λ d. d ≡ start))
        (Triple-weaken (query (λ _. tt)) _ _ _ (query-Outside target (λ d. d ≡ start) (λ _. tt))
          (λ s p. p) (λ a s (n, (d, e), t). (n, d, t)) (λ x s p. p.0))
        (λ _.
          Triple-weaken (query (λ _. tt)) _ _ _ (query-Outside target (λ d. d ≡ start) (λ _. tt))
            (λ s p. p) (λ a s (n, (d, e), t). (n, d, t)) (λ x s p. p.0)))

  -- It returns only where the recorded history is current.
  pub require_current-Changes :
      Changes require_current
        (λ start _ d. (d ≡ start) × (is_current (recorded_migrations start) ≡ true))
  unfolding require_current
  require_current-Changes target start =
      Triple-bind (rename_error "migration_mismatch" (query recorded_migrations)) _
        (λ a. Outside target (λ d. (d ≡ start) × (a ≡ recorded_migrations start)))
        (query_Changes "migration_mismatch" recorded_migrations target start)
        (λ a.
          Triple-if (is_current a) _ _
            (λ e. Triple-pure tt (λ s (n, (d, h), t). (n, (d, rw h at e), t)))
            (λ e. Triple-raise _ (λ s (n, (d, h), t). (n, d, t))))

  -- A call that only reads, and what it finds.
  abbrev pub Reads : {A : Type 0} → Exec (World T) Exn A → (Tables → A → Type 0) → Type 0
  Reads m F = Changes m (λ start a d. (d ≡ start) × F start a)

  pub Reads-bind :
      {A B : Type 0} (m : Exec (World T) Exn A) (f : A → Exec (World T) Exn B)
      (F : Tables → A → Type 0) (Q : Tables → B → Tables → Type 0)
      → Reads m F
      → ((a : A) (target : T) (start : Tables)
          → F start a
          → Triple
              (Outside target (λ d. d ≡ start))
              (f a)
              (λ b. Outside target (Q start b))
              (λ _. Outside target (λ d. d ≡ start)))
      → Changes (m >>= f) Q
  Reads-bind m f F Q h k target start =
      Triple-bind m f (λ a. Outside target (λ d. (d ≡ start) × F start a)) (h target start)
        (λ a. record { at = λ s (n, (d, e), t). (k a target start e).at s (n, d, t) })

  pub target_row-Reads :
      (target_id : Text)
      → Reads (target_row target_id) (λ start a. a ≡ find_target target_id start.replica_targets)
  unfolding target_row
  target_row-Reads target_id =
      query_Changes "database_integrity_failure" (λ db. find_target target_id db.replica_targets)

  -- The outcome of a guarded UPDATE: exactly one row has matched.
  update_pending-Inside :
      (obj : ReplicaObject) (set : ReplicaRow → ReplicaRow) (target : T) (start : Tables)
      → Triple
          (Inside target start (λ d. d ≡ start))
          (update_pending obj set)
          (λ _.
            Inside target start
              (λ d. update_replica_rows (is_pending_row obj) set start ≡ some (d, 1)))
          (Aborting target start)
  unfolding update_pending
  update_pending-Inside obj set target start =
      Triple-bind (execute (update_replica_rows (is_pending_row obj) set)) _ _
        (execute-Inside target (λ d. d ≡ start) start
          (update_replica_rows (is_pending_row obj) set))
        (λ count.
          Triple-if (count == 1) _ _
            (λ e.
              Triple-pure tt
                (λ s (u, p, (d, q, h), c, t). (u, p, rw (q, ==→eq count 1 e) at h, c, t)))
            (λ e. Triple-raise _ (λ s (u, p, q, c, t). (failure-Caught _ _, c, t))))

  pub update_pending-Changes :
      (obj : ReplicaObject) (set : ReplicaRow → ReplicaRow)
      → Changes
          (transaction (update_pending obj set))
          (λ start _ d. update_replica_rows (is_pending_row obj) set start ≡ some (d, 1))
  update_pending-Changes obj set target start =
      transaction_rule target start (update_pending obj set) _
        (update_pending-Inside obj set target start)

  pub record_attempt-Changes :
      (obj : ReplicaObject)
      → Changes
          (record_attempt obj)
          (λ start _ d. update_replica_rows (is_pending_row obj) set_attempt start ≡ some (d, 1))
  unfolding record_attempt
  record_attempt-Changes obj = update_pending-Changes obj set_attempt

  pub record_failure-Changes :
      (obj : ReplicaObject) (finding : Text)
      → Changes (record_failure obj finding) (λ start _ d.
        update_replica_rows (is_pending_row obj) (set_failure finding) start ≡ some (d, 1))
  unfolding record_failure
  record_failure-Changes obj finding = update_pending-Changes obj (set_failure finding)

  pub mark_verified-Changes :
      (obj : ReplicaObject)
      → Changes (mark_verified obj) (λ start _ d.
        (now : ℕ) × (update_replica_rows (is_pending_row obj) (set_verified now) start
          ≡ some (d, 1)))
  unfolding mark_verified
  mark_verified-Changes obj target start =
      Triple-bind (gets (λ w. w.clock)) _ (λ now. Outside target (λ d. d ≡ start))
        (record { at = λ s p. p })
        (λ now.
          Triple-weaken _ _ _ _ (update_pending-Changes obj (set_verified now) target start)
            (λ s p. p) (λ a s (n, q, t). (n, (now, q), t)) (λ x s p. p))

  select-Reads :
      (target_id : Text) (f : Tables → List ReplicaRow) (finding : String)
      → Changes
          (rename_error finding (query f) >>= λ rows. lift (objects_of target_id rows))
          (λ start a d. (d ≡ start) × (objects_of target_id (f start) ≡ ok a))
  select-Reads target_id f finding =
      Reads-bind _ _ (λ start rows. rows ≡ f start) _ (query_Changes finding f)
        (λ rows target start e.
          Triple-lift _ (λ a h s (n, d, t). (n, (d, rw e at h), t)) (λ x h s p. p))

  pub objects_for_state-Reads :
      (target_id : Text) (state : ReplicaState)
      → Reads (objects_for_state target_id state) (Selected target_id state)
  unfolding objects_for_state
  objects_for_state-Reads target_id state =
      Reads-bind require_current _ _ _ require_current-Changes (λ _ target start _.
        select-Reads target_id
          (λ db. sorted row_compare (keep (in_state target_id state) db.replica_objects))
          "database_integrity_failure" target start)
