-- ===== src/Worker/Initializing/Rows.antt =====
-- `init_target` of core/worker.py: the row of the target afterwards.
use edge_evidence_showcase.Prelude.{
  ◌≡◌, refl, sym, ◌∙◌, ap, true, not, ◌&&◌, Option, none, some, Text, text_eq, text_eq→eq, arith,
}
use edge_evidence_showcase.Exec.{Result, ok, err, Exec, pure, raise, lift, gets, catch, ◌>>=◌, ◌>>◌}
use edge_evidence_showcase.Exec.Triple.{
  Post, Triple, Triple-pure, Triple-raise, Triple-lift, Triple-if, Triple-bind, Triple-catch,
  Triple-finally, Triple-weaken,
}
use edge_evidence_showcase.Contracts.{Exn, failure, validate_target_id}
use edge_evidence_showcase.Database.{Tables}
use edge_evidence_showcase.Database.Schema.{insert_target_row}
use edge_evidence_showcase.Database.Statements.{find_target, with_unit}
use edge_evidence_showcase.Database.Session.{World, begin, commit, rollback}
use edge_evidence_showcase.Database.Session.Rules.{
  Outside, Inside, execute-Inside, begin_rule, commit_rule,
}
use edge_evidence_showcase.Authority.{connect, require_current, target_row, insert_target}
use edge_evidence_showcase.Authority.Changes.{
  Changes, Open, Changes-Open, connect-Changes, require_current-Changes, target_row-Reads,
}
use edge_evidence_showcase.Authority.Registration.{with_unit-some}
use edge_evidence_showcase.Target.{TargetApi}
use edge_evidence_showcase.Worker.Binding.{
  no_work, on_target, on_result, insert_or_compare, abort_any, init_found, init_target,
}
use edge_evidence_showcase.Worker.Initializing.{
  MayAdd, Known, same-MayAdd, insert_target_row-added, Lost, rename_error-Inside,
  query_first-Inside, require_current-Inside, abort_any-Lost,
}

module _ {T B : Type 0} (api : TargetApi T B) (target_id : Text) where
  -- The row of the target after init_target.
  abbrev pub Registered : Tables → Tables → Type 0
  Registered start db =
      MayAdd target_id api.adapter_kind start db × Known target_id api.adapter_kind db

  module _ (target : T) (start : Tables) where
    insert_target-Inside :
        (marker : Text)
        → find_target target_id start.replica_targets ≡ none
        → Triple
            (Inside target start (λ d. d ≡ start))
            (insert_target target_id api.adapter_kind marker)
            (λ _. Inside target start (Registered start))
            (λ _. Lost target start)
    unfolding insert_target
    insert_target-Inside marker n =
        Triple-bind require_current _ (λ _. Inside target start (λ d. d ≡ start))
          (require_current-Inside target start)
          (λ _.
            Triple-bind (gets (λ w. w.clock)) _ (λ _. Inside target start (λ d. d ≡ start))
              (record { at = λ s p. p })
              (λ now. rename_error-Inside target start _ _ _ _ (
                Triple-weaken _ _ _ _
                  (execute-Inside target (λ d. d ≡ start) start
                    (λ db. with_unit (
                      insert_target_row
                        (record {
                          target_id = target_id;
                          adapter_kind = api.adapter_kind;
                          marker_sha256 = marker;
                          created_at = now;
                        })
                        db)))
                  (λ s p. p)
                  (λ u s (d, p, (db, q, h), c, t). (
                    d,
                    p,
                    insert_target_row-added target_id api.adapter_kind _ start d
                        (rw q at (with_unit-some _ d u h)) n refl refl,
                    c,
                    t,
                  ))
                  (λ x s p. (p.1, p.2)))))

    known :
        (d : Tables) (kind m : Text)
        → d ≡ start
        → some (kind, m) ≡ find_target target_id start.replica_targets
        → text_eq kind api.adapter_kind ≡ true
        → Registered start d
    known d kind m q h e =
        let same : kind ≡ api.adapter_kind = text_eq→eq kind api.adapter_kind e in
        (
          same-MayAdd target_id api.adapter_kind start d q,
          (
            m,
            ap (λ db. find_target target_id db.replica_targets) q
                ∙ sym h
                ∙ ap (λ k. some (k, m)) same,
          ),
        )

    insert_or_compare-Inside :
        (marker : Text) (row : Option (Text × Text))
        → Triple
            (Inside target start
              (λ d. (d ≡ start) × (row ≡ find_target target_id start.replica_targets)))
            (insert_or_compare api target_id marker row)
            (λ _. Inside target start (Registered start))
            (λ _. Lost target start)
    unfolding insert_or_compare
    insert_or_compare-Inside marker none = record {
      at = λ s (d, p, (q, h), c, t). (insert_target-Inside marker (sym h)).at s (d, p, q, c, t);
    }
    insert_or_compare-Inside marker (some (kind, m)) =
        Triple-if (text_eq kind api.adapter_kind && text_eq m marker) (pure tt)
          (raise (failure "target_identity_mismatch" 4))
          (λ e.
            Triple-pure tt
              (λ s (d, p, (q, h), c, t). (d, p, known d kind m q h (ground arith), c, t)))
          (λ e. Triple-raise _ (λ s (d, p, q, c, t). (c, t)))

    -- The transaction of init_target.
    register_Outside :
        (marker : Text)
        → Triple
            (Outside target (λ d. d ≡ start))
            (catch
              (begin
                >> (target_row target_id >>= λ row.
                    insert_or_compare api target_id marker row >> commit))
              (abort_any api))
            (λ _. Outside target (Registered start))
            (λ _. Outside target (λ d. d ≡ start))
    register_Outside marker =
        Triple-catch _ _ (λ _. Lost target start)
          (Triple-bind begin _ (λ _. Inside target start (λ d. d ≡ start))
            (Triple-weaken begin _ _ _ (begin_rule target start) (λ s p. p) (λ a s p. p)
              (λ x s p. (p.0.1, p.0.2)))
            (λ _.
              Triple-bind (target_row target_id) _
                (λ row.
                  Inside target start
                    (λ d. (d ≡ start) × (row ≡ find_target target_id start.replica_targets)))
                (unfold target_row in
                  query_first-Inside target start "database_integrity_failure"
                    (λ db. find_target target_id db.replica_targets))
                (λ row.
                  Triple-bind (insert_or_compare api target_id marker row) _
                    (λ _. Inside target start (Registered start))
                    (insert_or_compare-Inside marker row)
                    (λ _.
                      Triple-weaken commit _ _ _ (commit_rule target start (Registered start))
                        (λ s p. p) (λ a s p. p) (λ x s p. (p.1, p.2))))))
          (abort_any-Lost target start api _)

  on_target-Open :
      {A : Type 0} (P : Tables → Type 0) (m : Exec T Exn A)
      → Triple (Open (λ d _. P d)) (on_target m) (λ _. Open (λ d _. P d)) (λ _. Open (λ d _. P d))
  unfolding on_target
  on_target-Open {A} P m = record { at = λ w p. go w p (m w.target) }
    where
      go :
          (w : World T)
          → Open (λ d _. P d) w
          → (r : Result Exn A × T)
          → Post (λ _. Open (λ d _. P d)) (λ _. Open (λ d _. P d)) (on_result w r)
      go w p (ok a, t) = p
      go w p (err x, t) = p

  init_found-Registered :
      (start : Tables) (row : Option (Text × Text))
      → Triple
          (Open (λ d _. (d ≡ start) × (row ≡ find_target target_id start.replica_targets)))
          (init_found api target_id row)
          (λ _. Open (λ d _. Registered start d))
          (λ _. Open (λ d _. MayAdd target_id api.adapter_kind start d))
  unfolding init_found
  init_found-Registered start (some (kind, m)) =
      Triple-if (not (text_eq kind api.adapter_kind)) (raise (failure "target_identity_mismatch" 4))
        (on_target (api.bind target_id m) >> pure no_work)
        (λ e.
          Triple-raise _
            (λ s (n, (q, h)). (n, same-MayAdd target_id api.adapter_kind start s.committed q)))
        (λ e.
          Triple-bind (on_target (api.bind target_id m)) _ (λ _. Open (λ d _. Registered start d))
            (Triple-weaken _ _ _ _ (on_target-Open (Registered start) (api.bind target_id m))
              (λ s (n, (q, h)). (n, known s.target start s.committed kind m q h (ground arith)))
              (λ a s p. p) (λ x s (n, q). (n, q.0)))
            (λ _. Triple-pure no_work (λ s p. p)))
  init_found-Registered start none =
      Triple-bind (on_target (api.initialize target_id)) _ (λ _. Open (λ d _. d ≡ start))
        (Triple-weaken _ _ _ _ (on_target-Open (λ d. d ≡ start) (api.initialize target_id))
          (λ s (n, (q, h)). (n, q)) (λ a s p. p)
          (λ x s (n, q). (n, same-MayAdd target_id api.adapter_kind start s.committed q)))
        (λ marker.
          Triple-bind _ _ (λ _. Open (λ d _. Registered start d))
            (Triple-weaken _ _ _ _
              (Changes-Open _ (λ first _ d. Registered first d) (λ d _. d ≡ start)
                (λ _ d _. Registered start d) (λ target first. register_Outside target first marker)
                (λ first a d t p q. rw p at q))
              (λ s p. p) (λ a s p. p)
              (λ x s (n, q). (n, same-MayAdd target_id api.adapter_kind start s.committed q)))
            (λ _.
              Triple-bind (on_target (api.bind target_id marker)) _
                (λ _. Open (λ d _. Registered start d))
                (Triple-weaken _ _ _ _
                  (on_target-Open (Registered start) (api.bind target_id marker)) (λ s p. p)
                  (λ a s p. p) (λ x s (n, q). (n, q.0)))
                (λ _. Triple-pure no_work (λ s p. p))))

  -- A read of the tables, before the row is known.
  read-MayAdd :
      {A : Type 0} (m : Exec (World T) Exn A) (F : Tables → A → Tables → Type 0) (start : Tables)
      → Changes m F
      → ((a : A) (d : Tables) → F start a d → d ≡ start)
      → Triple
          (Open (λ d _. d ≡ start))
          m
          (λ a. Open (λ d _. (d ≡ start) × F start a d))
          (λ _. Open (λ d _. MayAdd target_id api.adapter_kind start d))
  read-MayAdd m F start c f =
      Triple-weaken _ _ _ _
        (Changes-Open m F (λ d _. d ≡ start) (λ a d _. (d ≡ start) × F start a d) c
          (λ first a d t p q. let k = rw p at q in (f a d k, k)))
        (λ s p. p) (λ a s p. p)
        (λ x s (n, q). (n, same-MayAdd target_id api.adapter_kind start s.committed q))

  init_target-rule :
      (start : Tables)
      → Triple
          (Open (λ d _. d ≡ start))
          (init_target api target_id)
          (λ _. Open (λ d _. Registered start d))
          (λ _. Open (λ d _. MayAdd target_id api.adapter_kind start d))
  unfolding init_target
  init_target-rule start =
      Triple-bind (lift (validate_target_id target_id)) _ (λ _. Open (λ d _. d ≡ start))
        (Triple-lift _ (λ a h s p. p)
          (λ x h s (n, q). (n, same-MayAdd target_id api.adapter_kind start s.committed q)))
        (λ _.
          Triple-bind connect _ _ (read-MayAdd connect _ start connect-Changes (λ a d q. q)) (λ _.
            Triple-finally _ rollback (
              Triple-bind require_current _ (λ _. Open (λ d _. d ≡ start))
                (Triple-weaken _ _ _ _
                  (read-MayAdd require_current _ start require_current-Changes (λ a d q. q.0))
                  (λ s (n, q). (n, q.0)) (λ a s (n, q). (n, q.0)) (λ x s (n, q). (refl, q)))
                (λ _.
                  Triple-bind (target_row target_id) _
                    (λ row.
                      Open
                        (λ d _. (d ≡ start) × (row ≡ find_target target_id start.replica_targets)))
                    (Triple-weaken _ _ _ _
                      (read-MayAdd (target_row target_id) _ start (target_row-Reads target_id)
                        (λ a d q. q.0))
                      (λ s p. p) (λ a s (n, q). (n, q.1)) (λ x s (n, q). (refl, q)))
                    (λ row.
                      Triple-weaken _ _ _ _ (init_found-Registered start row) (λ s p. p)
                        (λ a s (n, q). (refl, q)) (λ x s (n, q). (refl, q)))))))

  -- If no transaction is open, then init_target leaves none open and no object changed. If it
  -- returns, then the target has a row of the adapter; and whether it returns or raises, the targets
  -- are as they were, or one row of this target and adapter stands behind them.
  pub init_target-Registered :
      (w : World T)
      → w.working ≡ none
      → Post
          (λ _ v. (v.working ≡ none) × Registered w.committed v.committed)
          (λ _ v. (v.working ≡ none) × MayAdd target_id api.adapter_kind w.committed v.committed)
          (init_target api target_id w)
  init_target-Registered w n = (init_target-rule w.committed).at w (n, refl)
