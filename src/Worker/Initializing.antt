-- ===== src/Worker/Initializing.antt =====
-- What the statements of `init_target` (core/worker.py) do to the targets.
pub mod Rows
use edge_evidence_showcase.Prelude.{
  ℕ, ◌≡◌, refl, sym, ◌∙◌, ap, Bool, true, false, not, ◌&&◌, Bool-cases, Option, none, some, List,
  [], ◌∷◌, ◌++◌, Text, String, text_eq, text_eq→eq, text_eq_refl, inl, inr, ◌⊎◌, arith,
  if◌then◌else◌,
}
use edge_evidence_showcase.Exec.{Result, ok, err, Exec, pure, raise, lift, gets, catch, ◌>>=◌, ◌>>◌}
use edge_evidence_showcase.Exec.Triple.{
  Post, Triple, Triple-pure, Triple-raise, Triple-lift, Triple-if, Triple-bind, Triple-catch,
  Triple-finally, Triple-weaken,
}
use edge_evidence_showcase.Contracts.{
  Exn, replication, sqlite_error, foreign, failure, validate_target_id,
}
use edge_evidence_showcase.Database.{TargetRow, Tables}
use edge_evidence_showcase.Database.Schema.{insert_target_row}
use edge_evidence_showcase.Database.Statements.{
  find_target, with_unit, recorded_migrations, is_current,
}
use edge_evidence_showcase.Database.Session.{World, query, execute, begin, commit, rollback}
use edge_evidence_showcase.Database.Session.Rules.{
  Outside, Inside, query-Inside, execute-Inside, begin_rule, commit_rule,
}
use edge_evidence_showcase.Authority.{
  renamed, rename_error, connect, require_current, target_row, insert_target,
}
use edge_evidence_showcase.Authority.Changes.{
  Changes, Open, Changes-Open, connect-Changes, require_current-Changes, target_row-Reads,
}
use edge_evidence_showcase.Authority.Registration.{with_unit-some}
use edge_evidence_showcase.Target.{TargetApi}
use edge_evidence_showcase.Worker.Binding.{
  RunSummary, no_work, on_target, on_result, insert_or_compare, abort_any, init_found, init_target,
}

module _ (target_id adapter_kind : Text) where
  -- A row of this target and adapter stands behind the others, or the targets are as they were; the
  -- objects are as they were.
  abbrev pub MayAdd : Tables → Tables → Type 0
  MayAdd start db =
      (db.replica_objects ≡ start.replica_objects)
      × ((db.replica_targets ≡ start.replica_targets)
          ⊎ ((t : TargetRow) × (db.replica_targets ≡ start.replica_targets ++ t ∷ [])
              × (t.target_id ≡ target_id)
              × (t.adapter_kind ≡ adapter_kind)))

  -- The target has a row, of this adapter.
  abbrev pub Known : Tables → Type 0
  Known db =
      (marker : Text) × (find_target target_id db.replica_targets ≡ some (adapter_kind, marker))

  pub same-MayAdd : (start db : Tables) → db ≡ start → MayAdd start db
  same-MayAdd start db e = rw e (refl, inl refl)

  find_target-last :
      (ts : List TargetRow) (t : TargetRow)
      → find_target target_id ts ≡ none
      → t.target_id ≡ target_id
      → find_target target_id (ts ++ t ∷ []) ≡ some (t.adapter_kind, t.marker_sha256)
  unfolding find_target
  find_target-last [] t h e = ground (arith, text_eq_refl target_id)
  find_target-last (u ∷ ts) t h e = ground (arith, find_target-last ts t)

  insert_target_row-appends :
      (t : TargetRow) (start db : Tables)
      → insert_target_row t start ≡ some db
      → (db.replica_targets ≡ start.replica_targets ++ t ∷ [])
        × (db.replica_objects ≡ start.replica_objects)
  unfolding insert_target_row
  insert_target_row-appends t start db h = ground arith

  pub insert_target_row-added :
      (t : TargetRow) (start db : Tables)
      → insert_target_row t start ≡ some db
      → find_target target_id start.replica_targets ≡ none
      → t.target_id ≡ target_id
      → t.adapter_kind ≡ adapter_kind
      → MayAdd start db × Known db
  insert_target_row-added t start db h n e k =
      let (rows, objects) = insert_target_row-appends t start db h in
      (
        (objects, inr (t, rows, e, k)),
        (
          t.marker_sha256,
          ap (find_target target_id) rows
              ∙ find_target-last start.replica_targets t n e
              ∙ ap (λ a. some (a, t.marker_sha256)) k,
        ),
      )

module _ {T : Type 0} (target : T) (start : Tables) where
  -- After an exception in a transaction: the committed tables are as they were.
  abbrev pub Lost : World T → Type 0
  Lost w = (w.committed ≡ start) × (w.target ≡ target)

  renamed-Lost :
      {A : Type 0} (finding : String) (Q : A → World T → Type 0) (x : Exn)
      → Triple Lost (renamed finding x) Q (λ _. Lost)
  unfolding renamed
  renamed-Lost finding Q sqlite_error = Triple-raise _ (λ s p. p)
  renamed-Lost finding Q (replication e) = Triple-raise _ (λ s p. p)
  renamed-Lost finding Q (foreign n) = Triple-raise _ (λ s p. p)

  pub rename_error-Inside :
      {A : Type 0} (finding : String) (m : Exec (World T) Exn A) (P : World T → Type 0)
      (Q : A → World T → Type 0)
      → Triple P m Q (λ _. Lost)
      → Triple P (rename_error finding m) Q (λ _. Lost)
  unfolding rename_error
  rename_error-Inside finding m P Q h =
      Triple-catch m (renamed finding) (λ _. Lost) h (renamed-Lost finding Q)

  -- A SELECT in a transaction that has written nothing.
  pub query_first-Inside :
      {A : Type 0} (finding : String) (f : Tables → A)
      → Triple
          (Inside target start (λ d. d ≡ start))
          (rename_error finding (query f))
          (λ a. Inside target start (λ d. (d ≡ start) × (a ≡ f start)))
          (λ _. Lost)
  query_first-Inside finding f = rename_error-Inside finding (query f) _ _ (
      Triple-weaken (query f) _ _ _ (query-Inside target (λ d. d ≡ start) start f) (λ s p. p)
        (λ a s (d, p, (q, e), c, t). (d, p, (q, rw q at e), c, t)) (λ x s p. (p.1, p.2)))

  pub require_current-Inside :
      Triple
        (Inside target start (λ d. d ≡ start))
        require_current
        (λ _. Inside target start (λ d. d ≡ start))
        (λ _. Lost)
  unfolding require_current
  require_current-Inside =
      Triple-bind (rename_error "migration_mismatch" (query recorded_migrations)) _
        (λ a. Inside target start (λ d. (d ≡ start) × (a ≡ recorded_migrations start)))
        (query_first-Inside "migration_mismatch" recorded_migrations)
        (λ a.
          Triple-if (is_current a) _ _
            (λ e. Triple-pure tt (λ s (d, p, (q, h), c, t). (d, p, q, c, t)))
            (λ e. Triple-raise _ (λ s (d, p, q, c, t). (c, t))))

  pub abort_any-Lost :
      {B A : Type 0} (api : TargetApi T B) (Q : A → World T → Type 0) (x : Exn)
      → Triple Lost (abort_any api x) Q (λ _. Outside target (λ d. d ≡ start))
  abort_any-Lost api Q (replication e) = record { at = λ w h. unfold abort_any in (refl, h.0, h.1) }
  abort_any-Lost api Q sqlite_error = record { at = λ w h. unfold abort_any in (refl, h.0, h.1) }
  abort_any-Lost api Q (foreign n) = record { at = λ w h. unfold abort_any in (refl, h.0, h.1) }
