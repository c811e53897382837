-- ===== src/Contracts/Objects.antt =====
-- `ReplicaObject` of contracts/model.py: its constructor, with the checks of `__post_init__`, and
-- the equality and the order that the dataclass has.
use edge_evidence_showcase.Prelude.{
  ℕ, ◌≡◌, refl, Bool, true, not, ◌&&◌, List, [], ◌∷◌, Text, text, text_eq, text_eq_refl, text_eq→eq,
  text_compare, text_compare_back, text_order, Ordering, compare, arith, any, ◌==◌, if◌then◌else◌,
}
use edge_evidence_showcase.Prelude.Sorting.{Order}
use edge_evidence_showcase.Exec.{Result, ok, err}
use edge_evidence_showcase.Contracts.{
  Exn, failure, validate_target_id, validate_sha256, canonical_file_uri,
}

pub record ReplicaObject : Type 0 where
  pub target_id : Text
  pub object_kind : Text
  pub relative_uri : Text
  pub expected_byte_size : ℕ
  pub expected_sha256 : Text

-- OBJECT_KINDS
abbrev pub object_kinds : List Text
object_kinds =
    text "artifact_content"
    ∷ text "artifact_manifest"
    ∷ text "occurrence_assertion"
    ∷ text "recording_original"
    ∷ []

unfoldable pub is_object_kind : Text → Bool
is_object_kind kind = any (text_eq kind) object_kinds

-- __post_init__, in its order
unfoldable pub check_object : ReplicaObject → Result Exn ReplicaObject
check_object o = elim (validate_target_id o.target_id) [
  | err e ↦ err e
  | ok _ ↦
      if not (is_object_kind o.object_kind)
      then err (failure "replica_object_kind_invalid" 2)
      else elim (canonical_file_uri o.relative_uri) [
        | err e ↦ err e
        | ok _ ↦ elim (validate_sha256 o.expected_sha256) [ err e ↦ err e | ok _ ↦ ok o ]
      ]
]

-- ReplicaObject(target_id=…, object_kind=…, relative_uri=…, expected_byte_size=…, …)
unfoldable pub replica_object : Text → Text → Text → ℕ → Text → Result Exn ReplicaObject
unfolding check_object
replica_object target_id object_kind relative_uri expected_byte_size expected_sha256 =
    check_object (record {
      target_id = target_id;
      object_kind = object_kind;
      relative_uri = relative_uri;
      expected_byte_size = expected_byte_size;
      expected_sha256 = expected_sha256;
    })

unfoldable pub object_eq : ReplicaObject → ReplicaObject → Bool
object_eq a b =
    text_eq a.target_id b.target_id
    && text_eq a.object_kind b.object_kind
    && text_eq a.relative_uri b.relative_uri
    && a.expected_byte_size == b.expected_byte_size
    && text_eq a.expected_sha256 b.expected_sha256

pub object_eq_refl : (a : ReplicaObject) → object_eq a a ≡ true
unfolding object_eq
object_eq_refl a = ground (
  arith,
  text_eq_refl a.target_id,
  text_eq_refl a.object_kind,
  text_eq_refl a.relative_uri,
  text_eq_refl a.expected_sha256,
)

pub object_eq→eq : (a b : ReplicaObject) → object_eq a b ≡ true → a ≡ b
unfolding object_eq
object_eq→eq a b h = ground (
  arith,
  text_eq→eq a.target_id b.target_id,
  text_eq→eq a.object_kind b.object_kind,
  text_eq→eq a.relative_uri b.relative_uri,
  text_eq→eq a.expected_sha256 b.expected_sha256,
)

abbrev then_by : Ordering → Ordering → Ordering
then_by Ordering.lt _ = Ordering.lt
then_by Ordering.eq o = o
then_by Ordering.gt _ = Ordering.gt

-- The dataclass compares the fields in order.
unfoldable pub object_compare : ReplicaObject → ReplicaObject → Ordering
object_compare a b = then_by (text_compare a.target_id b.target_id) (
    then_by (text_compare a.object_kind b.object_kind) (
      then_by (text_compare a.relative_uri b.relative_uri) (
        then_by (compare a.expected_byte_size b.expected_byte_size)
          (text_compare a.expected_sha256 b.expected_sha256))))

then_by-eq : (o p : Ordering) → then_by o p ≡ Ordering.eq → (o ≡ Ordering.eq) × (p ≡ Ordering.eq)
then_by-eq Ordering.lt p h = cc
then_by-eq Ordering.eq p h = (refl, h)
then_by-eq Ordering.gt p h = cc

pub object_compare-same : (a b : ReplicaObject) → object_compare a b ≡ Ordering.eq → a ≡ b
unfolding object_compare
object_compare-same a b h = ground (
  arith,
  text_order.same a.target_id b.target_id,
  text_order.same a.object_kind b.object_kind,
  text_order.same a.relative_uri b.relative_uri,
  text_order.same a.expected_sha256 b.expected_sha256,
)

flip_by :
    (o o' p p' : Ordering)
    → (o ≡ Ordering.gt → o' ≡ Ordering.lt)
    → (o ≡ Ordering.eq → o' ≡ Ordering.eq)
    → (p ≡ Ordering.gt → p' ≡ Ordering.lt)
    → then_by o p ≡ Ordering.gt
    → then_by o' p' ≡ Ordering.lt
flip_by Ordering.lt o' p p' f g k h = cc
flip_by Ordering.eq o' p p' f g k h = rw (g refl) (k h)
flip_by Ordering.gt o' p p' f g k h = rw (f refl)

flip_text :
    (s t : Text) (p p' : Ordering)
    → (p ≡ Ordering.gt → p' ≡ Ordering.lt)
    → then_by (text_compare s t) p ≡ Ordering.gt
    → then_by (text_compare t s) p' ≡ Ordering.lt
flip_text s t p p' =
    flip_by (text_compare s t) (text_compare t s) p p' (text_order.flip s t) (text_compare_back s t)

flip_number :
    (m n : ℕ) (p p' : Ordering)
    → (p ≡ Ordering.gt → p' ≡ Ordering.lt)
    → then_by (compare m n) p ≡ Ordering.gt
    → then_by (compare n m) p' ≡ Ordering.lt
flip_number m n p p' =
    flip_by (compare m n) (compare n m) p p' (λ h. ground arith) (λ h. ground arith)

pub object_compare-flip :
    (a b : ReplicaObject) → object_compare a b ≡ Ordering.gt → object_compare b a ≡ Ordering.lt
unfolding object_compare
object_compare-flip a b = flip_text a.target_id b.target_id _ _ (
    flip_text a.object_kind b.object_kind _ _ (
      flip_text a.relative_uri b.relative_uri _ _ (
        flip_number a.expected_byte_size b.expected_byte_size _ _
          (text_order.flip a.expected_sha256 b.expected_sha256))))

abbrev pub object_order : Order ReplicaObject
object_order = record {
  test = object_compare;
  same = object_compare-same;
  flip = object_compare-flip;
}
