-- ===== src/Worker/Verifying.antt =====
-- `verify` of core/worker.py: what it has established when it returns.
use edge_evidence_showcase.Prelude.{◌≡◌, refl, none, List, [], ◌∷◌, Text, In, Each, inl, inr}
use edge_evidence_showcase.Exec.{Result, ok, err, Exec, ◌>>=◌}
use edge_evidence_showcase.Exec.Triple.{
  Post, Triple, Triple-pure, Triple-bind, Triple-finally, Triple-weaken, Triple-any, Keeps-lift,
  Keeps,
}
use edge_evidence_showcase.Contracts.{Exn}
use edge_evidence_showcase.Contracts.Objects.{ReplicaObject}
use edge_evidence_showcase.Database.{verified, ReplicaRow, Tables}
use edge_evidence_showcase.Database.Schema.Evolution.{Evolves-refl}
use edge_evidence_showcase.Database.Session.{World, rollback}
use edge_evidence_showcase.Authority.{verified_objects, objects_for_state}
use edge_evidence_showcase.Authority.Changes.{Open, Changes-Open, objects_for_state-Reads}
use edge_evidence_showcase.Authority.Selection.{IsIn, Selected-rows}
use edge_evidence_showcase.Target.{TargetApi, TargetLaws, Preserves}
use edge_evidence_showcase.Worker.Binding.{on_target, on_result}
use edge_evidence_showcase.Worker.Reconciling.{verify_loop, verify}
use edge_evidence_showcase.Worker.Safety.{RowHeld, Held}
use edge_evidence_showcase.Worker.Safety.Calls.{Safe, connect-Safe}
use edge_evidence_showcase.Worker.Safety.Runs.{load_target-Safe, bind-Safe, asks_nothing}
use edge_evidence_showcase.Worker.Completion.Loops.{Held-nothing}

module _ {T B : Type 0} (api : TargetApi T B) (Holds : T → ReplicaObject → Type 0)
    (laws : TargetLaws api Holds) (target_id : Text) where
  open laws use {bind_preserves, validate_preserves, verify_preserves, verify_holds}

  -- Each VERIFIED row of the target is of an object of the list.
  abbrev Full : List ReplicaObject → Tables → Type 0
  Full objects db = Each (λ r. IsIn target_id verified r → In r.object objects) db.replica_objects

  -- And each object that is done is held.
  abbrev Audited : List ReplicaObject → List ReplicaObject → World T → Type 0
  Audited objects done = Open (λ db t. Full objects db × Each (Holds t) done)

  Each-preserved :
      (t t' : T)
      → ((o : ReplicaObject) → Holds t o → Holds t' o)
      → (done : List ReplicaObject) → Each (Holds t) done
      → Each (Holds t') done
  Each-preserved t t' f [] h = tt
  Each-preserved t t' f (o ∷ done) h = (f o h.0, Each-preserved t t' f done h.1)

  -- A call of the target that loses nothing, with what it establishes.
  on_target-Audited :
      {A : Type 0} (objects done more : List ReplicaObject) (m : Exec T Exn A)
      → Preserves Holds m
      → Triple (λ _. Unit) m (λ _ t. Each (Holds t) more) (λ _ _. Unit)
      → Triple
          (Audited objects done)
          (on_target m)
          (λ _ w. Audited objects done w × Each (Holds w.target) more)
          (λ _ _. Unit)
  unfolding on_target
  on_target-Audited {A} objects done more m keep gain = record {
    at = λ w p. go w p (m w.target) (gain.at w.target tt) (λ o h. (keep o).at w.target h);
  }
    where
      go :
          (w : World T)
          → Audited objects done w
          → (r : Result Exn A × T) → Post (λ _ t. Each (Holds t) more) (λ _ _. Unit) r
          → ((o : ReplicaObject) → Holds w.target o → Post (λ _ t. Holds t o) (λ _ t. Holds t o) r)
          → Post
              (λ _ v. Audited objects done v × Each (Holds v.target) more)
              (λ _ _. Unit)
              (on_result w r)
      go w (n, (f, h)) (ok a, t) q k = ((n, (f, Each-preserved w.target t k done h)), q)
      go w p (err x, t) q k = tt

  validate-Audited :
      (b : B) (objects done : List ReplicaObject)
      → Triple
          (Audited objects done)
          (on_target (api.validate_identity b))
          (λ _. Audited objects done)
          (λ _ _. Unit)
  validate-Audited b objects done =
      Triple-weaken _ _ _ _
        (on_target-Audited objects done [] (api.validate_identity b) (validate_preserves b)
          (Triple-any _))
        (λ s p. p) (λ a s p. p.0) (λ x s p. p)

  verify_one-Audited :
      (b : B) (o : ReplicaObject) (objects done : List ReplicaObject)
      → Triple
          (Audited objects done)
          (on_target (api.verify b o))
          (λ _. Audited objects (o ∷ done))
          (λ _ _. Unit)
  verify_one-Audited b o objects done =
      Triple-weaken _ _ _ _
        (on_target-Audited objects done (o ∷ []) (api.verify b o) (verify_preserves b o)
          (Triple-weaken _ _ _ _ (verify_holds b o) (λ s p. p) (λ a s p. (p, tt)) (λ x s p. p)))
        (λ s p. p) (λ a s ((n, (f, h)), q). (n, (f, (q.0, h)))) (λ x s p. p)

  -- Everything that is done stays held, and everything that the loop goes over gets done.
  verify_loop-Audited :
      (b : B) (objects todo done : List ReplicaObject)
      → Triple
          (Audited objects done)
          (verify_loop api b todo)
          (λ _ w. Audited objects done w × Each (Holds w.target) todo)
          (λ _ _. Unit)
  unfolding verify_loop
  verify_loop-Audited b objects [] done = Triple-pure tt (λ s p. (p, tt))
  verify_loop-Audited b objects (o ∷ todo) done =
      Triple-bind _ _ (λ _. Audited objects done) (validate-Audited b objects done)
        (λ _.
          Triple-bind _ _ (λ _. Audited objects (o ∷ done)) (verify_one-Audited b o objects done)
            (λ _.
              Triple-weaken _ _ _ _ (verify_loop-Audited b objects todo (o ∷ done)) (λ s p. p)
                (λ a s ((n, (f, h)), q). ((n, (f, h.1)), (h.0, q))) (λ x s p. p)))

  verified_objects-Audited :
      (P : Tables → T → Type 0)
      → Triple (Open P) (verified_objects target_id) (λ objects. Audited objects []) (λ _ _. Unit)
  unfolding verified_objects
  verified_objects-Audited P =
      Triple-weaken _ _ _ _
        (Changes-Open (objects_for_state target_id verified) _ P
          (λ objects db t. Full objects db × Each (Holds t) [])
          (objects_for_state-Reads target_id verified)
          (λ start a d t p (e, f). rw e (Selected-rows target_id verified start a f, tt)))
        (λ s p. p) (λ a s p. p) (λ x s p. tt)

  Each-at :
      (o : ReplicaObject) (t : T) (os : List ReplicaObject)
      → Each (Holds t) os
      → In o os
      → Holds t o
  Each-at o t [] h i = absurd i
  Each-at o t (p ∷ os) h (inl e) = rw e h.0
  Each-at o t (p ∷ os) h (inr i) = Each-at o t os h.1 i

  Full-Held :
      (objects : List ReplicaObject) (t : T) (rs : List ReplicaRow)
      → Each (λ r. IsIn target_id verified r → In r.object objects) rs
      → Each (Holds t) objects
      → Each (RowHeld Holds target_id t) rs
  Full-Held objects t [] f h = tt
  Full-Held objects t (r ∷ rs) f h =
      (λ m v. Each-at r.object t objects h (f.0 (m, v)), Full-Held objects t rs f.1 h)

  -- The calls before the rows are read: they leave no transaction open.
  before :
      {A C : Type 0} (first : Tables) (m : Exec (World T) Exn A) (f : A → Exec (World T) Exn C)
      (Q : C → World T → Type 0)
      → Keeps (Safe (λ _ _. Unit) target_id first) m
      → ((a : A) → Triple (Safe (λ _ _. Unit) target_id first) (f a) Q (λ _ _. Unit))
      → Triple (Safe (λ _ _. Unit) target_id first) (m >>= f) Q (λ _ _. Unit)
  before first m f Q k h =
      Triple-bind m f (λ _. Safe (λ _ _. Unit) target_id first)
        (Triple-weaken m _ _ _ k (λ s p. p) (λ a s p. p) (λ x s p. tt)) h

  verify_rule :
      (first : Tables)
      → Triple
          (Safe (λ _ _. Unit) target_id first)
          (verify api target_id)
          (λ _ v. (v.working ≡ none) × Held Holds target_id v.committed v.target)
          (λ _ _. Unit)
  unfolding verify
  verify_rule first =
      let nothing : T → ReplicaObject → Type 0 = λ _ _. Unit in
      before first _ _ _ (Keeps-lift _) (λ _.
        before first _ _ _ (connect-Safe nothing target_id first) (λ _. Triple-finally _ rollback (
          before first _ _ _
            (load_target-Safe api nothing (asks_nothing api) target_id first target_id)
            (λ marker.
              before first _ _ _
                (bind-Safe api nothing (asks_nothing api) target_id first target_id marker)
                (λ b.
                  Triple-bind _ _ (λ objects. Audited objects []) (verified_objects-Audited _)
                    (λ objects.
                      Triple-bind _ _ (λ _. Audited objects objects)
                        (Triple-weaken _ _ _ _ (verify_loop-Audited b objects objects []) (λ s p. p)
                          (λ a s ((n, (f, h)), q). (n, (f, q))) (λ x s p. p))
                        (λ _.
                          Triple-bind _ _ (λ _. Audited objects objects)
                            (validate-Audited b objects objects)
                            (λ _. Triple-pure _ (λ s (n, (f, h)). (
                              refl,
                              Full-Held objects s.target s.committed.replica_objects f h,
                            ))))))))))

  -- For a target that keeps the promises of its interface: if no transaction is open and `verify`
  -- returns, then no transaction is open afterwards and the target holds the object of every VERIFIED
  -- row of the target, whatever it held before.
  pub verify-Held :
      (w : World T)
      → w.working ≡ none
      → Post
          (λ _ v. (v.working ≡ none) × Held Holds target_id v.committed v.target)
          (λ _ _. Unit)
          (verify api target_id w)
  verify-Held w n =
      (verify_rule w.committed).at w
        (n, (Evolves-refl w.committed, Held-nothing target_id w.target w.committed.replica_objects))
