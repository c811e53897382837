-- ===== src/Tests/Memory.antt =====
-- A replication target that keeps its objects in memory.
use edge_evidence_showcase.Prelude.{
  ◌≡◌, refl, Bool, true, false, Bool-cases, inl, inr, List, [], ◌∷◌, Text, text, In, any, arith,
  if◌then◌else◌,
}
use edge_evidence_showcase.Exec.{ok, err}
use edge_evidence_showcase.Contracts.{failure}
use edge_evidence_showcase.Contracts.Objects.{ReplicaObject, object_eq, object_eq→eq}
use edge_evidence_showcase.Target.{absent, exact, published, adopted, TargetApi, TargetLaws}

abbrev pub marker : Text
marker = text "0000000000000000000000000000000000000000000000000000000000000000"

abbrev pub holds_object : ReplicaObject → List ReplicaObject → Bool
holds_object o = any (object_eq o)

abbrev pub memory : TargetApi (List ReplicaObject) Text
memory = record {
  adapter_kind = text "memory";
  initialize = λ target_id t. (ok marker, t);
  bind = λ target_id m t. (ok target_id, t);
  validate_identity = λ b t. (ok tt, t);
  cleanup_transient = λ b o t. (ok false, t);
  inspect = λ b o t. if holds_object o t then (ok exact, t) else (ok absent, t);
  publish_immutable =
      λ b root o t. if holds_object o t then (ok adopted, t) else (ok published, o ∷ t);
  verify =
      λ b o t. if holds_object o t then (ok tt, t) else (err (failure "destination_missing" 6), t);
}

abbrev pub Stored : List ReplicaObject → ReplicaObject → Type 0
Stored t o = In o t

holds_object-Stored :
    (o : ReplicaObject) (t : List ReplicaObject) → holds_object o t ≡ true → In o t
holds_object-Stored o [] h = cc
holds_object-Stored o (p ∷ t) h = elim (Bool-cases (object_eq o p)) [
  | inl e ↦ inl (object_eq→eq o p e)
  | inr f ↦ inr (holds_object-Stored o t (ground arith))
]

pub memory_laws : TargetLaws memory Stored
memory_laws = record {
  initialize_preserves = λ _ o. record { at = λ t h. h };
  bind_preserves = λ _ _ o. record { at = λ t h. h };
  validate_preserves = λ _ o. record { at = λ t h. h };
  cleanup_preserves = λ _ _ o. record { at = λ t h. h };
  inspect_preserves = λ _ o p. record {
    at = λ t h. elim (Bool-cases (holds_object o t)) [ inl e ↦ rw e h | inr e ↦ rw e h ];
  };
  publish_preserves = λ _ _ o p. record {
    at = λ t h. elim (Bool-cases (holds_object o t)) [ inl e ↦ rw e h | inr e ↦ rw e (inr h) ];
  };
  verify_preserves = λ _ o p. record {
    at = λ t h. elim (Bool-cases (holds_object o t)) [ inl e ↦ rw e h | inr e ↦ rw e h ];
  };
  inspect_exact = λ _ o. record {
    at = λ t h. elim (Bool-cases (holds_object o t)) [
      | inl e ↦ rw e (λ _. holds_object-Stored o t e)
      | inr e ↦ rw e (λ q. cc)
    ];
  };
  publish_holds = λ _ _ o. record {
    at = λ t h. elim (Bool-cases (holds_object o t)) [
      | inl e ↦ rw e (holds_object-Stored o t e)
      | inr e ↦ rw e (inl refl)
    ];
  };
  verify_holds = λ _ o. record {
    at = λ t h. elim (Bool-cases (holds_object o t)) [
      | inl e ↦ rw e (holds_object-Stored o t e)
      | inr e ↦ rw e tt
    ];
  };
}
