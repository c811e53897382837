-- ===== src/Processor/Planning.antt =====
-- `plan_derivation` of components/processor-worker/apps/edge_agent/process.py returns for valid
-- evidence: the documents that it assembles pass their own shape guards.
use edge_evidence_showcase.Prelude.{
  ℕ, ◌≡◌, refl, sym, subst, true, Bool-cases, inl, inr, ◌⊎◌, ◌++◌, some, List, ◌∷◌, Text, text,
  text_eq, text_eq→eq, leb, length, arith,
}
use edge_evidence_showcase.Exec.{Result, ok, and_then}
use edge_evidence_showcase.Contracts.{starts_with, slash}
use edge_evidence_showcase.Processor.Identity.{
  matches_pattern, job_uri_base, processor_path, job_uri_name,
}
use edge_evidence_showcase.Processor.Json.{
  Json, string, object, field, no_fields, find_field, has_text, no_unknown, has_fields, has_exactly,
  keys, serialize,
}
use edge_evidence_showcase.Processor.Runtime.{Runtime}
use edge_evidence_showcase.Processor.Instants.{id_prefix, matches_artifact_id, matches_source_id}
use edge_evidence_showcase.Processor.Manifest.{
  is_instant, has_manifest_shape, validate_manifest_shape, manifest_fields, is_integer, is_natural,
  text_with, is_text, is_digest, is_parent, members,
}
use edge_evidence_showcase.Processor.Report.{
  identity, integrity_profile, profiles, media_type, artifact_kind, report_of, integrity_fields,
  has_report_shape, build_report, build_identity, build_integrity, validate_report_shape,
  is_processor, is_parameters, has_input_keys, of_identity, optional, given, canonical_parameters,
  parameters_sha256, job_id_for, raised,
}
use edge_evidence_showcase.Processor.Plan.{
  InputEvidence, DerivedPlan, complete_storage_uri, build_derived_manifest, derived_report,
  plan_derivation,
}

pub then_ok :
    {X A B : Type 0} {r : Result X A} {a : A} {c : Result X B} (f : A → Result X B)
    → r ≡ ok a
    → f a ≡ c
    → and_then r f ≡ c
then_ok {r} {a} {c} f e k = subst (λ r. and_then r f ≡ c) (sym e) k

module _ (runtime : Runtime) where
  -- The manifest of a derived artifact has the shape of artifact-manifest.v1.
  manifest_shaped :
      (source hex uri finalized parent : Text) (size : ℕ)
      → matches_source_id source ≡ true
      → matches_pattern hex ≡ true
      → leb 1 (length uri) ≡ true
      → is_instant runtime (some (string finalized)) ≡ true
      → matches_artifact_id parent ≡ true
      → has_manifest_shape runtime (
          manifest_fields source hex artifact_kind media_type size uri finalized
            (field (text "parent_artifact_id") (string parent) no_fields))
        ≡ true
  unfolding has_manifest_shape manifest_fields no_unknown has_fields has_exactly has_text keys
      find_field is_integer text_with is_text is_natural is_digest is_parent members
      matches_artifact_id starts_with text text_eq
  manifest_shaped source hex uri finalized parent size s h u f p = rw (s, h, u, f, p) refl

  identity_shaped :
      (id sha : Text)
      → has_report_shape (
          report_of identity (
            field
              (text "artifact_id")
              (string id)
              (field (text "manifest_sha256") (string sha) no_fields)))
        ≡ true
  unfolding has_report_shape report_of no_unknown has_fields has_exactly has_text keys find_field
      is_integer text_with is_text is_processor is_parameters has_input_keys of_identity members
      text text_eq
  identity_shaped id sha = refl

  integrity_shaped :
      (id sha source digest : Text) (size : ℕ)
      → has_report_shape (report_of integrity_profile (integrity_fields id sha source size digest))
        ≡ true
  unfolding has_report_shape report_of integrity_fields no_unknown has_fields has_exactly has_text
      keys find_field is_integer text_with is_text is_processor is_parameters has_input_keys
      of_identity members text text_eq
  integrity_shaped id sha source digest size = refl

  -- The manifest of a derived report.
  abbrev derived_manifest : InputEvidence → Text → ℕ → Json
  derived_manifest e hex size = object (
      manifest_fields e.source_id hex artifact_kind media_type size (complete_storage_uri hex)
        e.finalized_at (field (text "parent_artifact_id") (string e.artifact_id) no_fields))

  -- Evidence whose members pass the patterns of the contracts.
  abbrev pub IsValid : InputEvidence → Type 0
  IsValid e =
      (matches_artifact_id e.artifact_id ≡ true)
      × (matches_pattern e.digest_hex ≡ true)
      × (matches_pattern e.manifest_sha256 ≡ true)
      × (matches_source_id e.source_id ≡ true)
      × (e.media_type ≡ text "video/mp4")
      × (is_instant runtime (some (string e.finalized_at)) ≡ true)

  uri_present : (hex : Text) → leb 1 (length (complete_storage_uri hex)) ≡ true
  unfolding complete_storage_uri text
  uri_present hex = ground arith

  manifest_built :
      (e : InputEvidence) (hex : Text) (size : ℕ)
      → IsValid e
      → matches_pattern hex ≡ true
      → build_derived_manifest runtime e.source_id hex size e.finalized_at e.artifact_id
        ≡ ok (derived_manifest e hex size)
  unfolding build_derived_manifest validate_manifest_shape
  manifest_built e hex size (a, d, m, s, t, f) h =
      rw
        (manifest_shaped e.source_id hex (complete_storage_uri hex) e.finalized_at e.artifact_id
          size s h (uri_present hex) f a)
        refl

  identity_report :
      (e : InputEvidence)
      → IsValid e
      → derived_report runtime e identity
        ≡ ok (
            report_of identity (
              field
                (text "artifact_id")
                (string e.artifact_id)
                (field (text "manifest_sha256") (string e.manifest_sha256) no_fields)))
  unfolding derived_report build_report build_identity validate_report_shape has_text text text_eq
  identity_report e (a, d, m, s, t, f) =
      rw (a, m, identity_shaped e.artifact_id e.manifest_sha256) refl

  integrity_report :
      (e : InputEvidence)
      → IsValid e
      → derived_report runtime e integrity_profile
        ≡ ok (
            report_of integrity_profile (
              integrity_fields e.artifact_id e.manifest_sha256 e.source_id e.byte_size
                e.digest_hex))
  unfolding derived_report build_report build_integrity validate_report_shape optional given
      has_text text text_eq
  integrity_report e (a, d, m, s, t, f) =
      rw
        (
          a,
          m,
          s,
          t,
          d,
          integrity_shaped e.artifact_id e.manifest_sha256 e.source_id e.digest_hex e.byte_size,
        )
        refl

  -- hexdigest() gives 64 lowercase hex characters.
  abbrev pub IsDigest : Type 0
  IsDigest = (bytes : List ℕ) → matches_pattern (runtime.sha256 bytes) ≡ true

  -- A plan with its digests.
  abbrev pub Planned : InputEvidence → Text → Type 0
  Planned e profile =
      (plan : DerivedPlan) × (plan_derivation runtime e profile ≡ ok plan)
      × (plan.derived_digest_hex ≡ runtime.sha256 plan.report_bytes)
      × (plan.derived_artifact_id ≡ id_prefix ++ plan.derived_digest_hex)
      × (plan.manifest_sha256 ≡ runtime.sha256 plan.manifest_bytes)

  abbrev parameters_of : Text → List ℕ
  parameters_of profile = serialize (object (field (text "profile") (string profile) no_fields))

  abbrev name_of : InputEvidence → Text → Text
  name_of e profile =
      job_uri_base
      ++ (e.digest_hex ++ slash ∷ (processor_path ++ runtime.sha256 (parameters_of profile)))

  canonical :
      (profile : Text)
      → has_text profile profiles ≡ true
      → canonical_parameters profile ≡ ok (parameters_of profile)
  unfolding canonical_parameters
  canonical profile h = rw h refl

  digested :
      (profile : Text)
      → has_text profile profiles ≡ true
      → parameters_sha256 runtime profile ≡ ok (runtime.sha256 (parameters_of profile))
  unfolding parameters_sha256
  digested profile h = then_ok _ (canonical profile h) refl

  identified :
      (e : InputEvidence) (profile : Text)
      → IsDigest
      → IsValid e
      → has_text profile profiles ≡ true
      → job_id_for runtime e.digest_hex profile ≡ ok (runtime.uuid5 (name_of e profile))
  unfolding job_id_for raised job_uri_name
  identified e profile g v h =
      then_ok _ (digested profile h) (rw (v.1, g (parameters_of profile)) refl)

  planned :
      (e : InputEvidence) (profile : Text) (report : Json)
      → IsDigest
      → IsValid e
      → has_text profile profiles ≡ true
      → derived_report runtime e profile ≡ ok report
      → Planned e profile
  unfolding plan_derivation
  planned e profile report g v h r =
      let bytes : List ℕ = serialize report in
      (
        _,
        then_ok _ (canonical profile h) (
            then_ok _ (digested profile h) (
              then_ok _ (identified e profile g v h) (
                then_ok _ r (
                  then_ok _ (manifest_built e (runtime.sha256 bytes) (length bytes) v (g bytes))
                    refl)))),
        refl,
        refl,
        refl,
      )

profile_cases :
    (profile : Text)
    → has_text profile profiles ≡ true
    → (profile ≡ identity) ⊎ (profile ≡ integrity_profile)
unfolding has_text
profile_cases profile h = elim (Bool-cases (text_eq identity profile)) [
  | inl e ↦ inl (sym (text_eq→eq identity profile e))
  | inr e ↦ inr (sym (text_eq→eq integrity_profile profile (ground arith)))
]

-- For a profile of the contract and evidence whose members pass the patterns of the contracts, with
-- hexdigest() giving 64 lowercase hex characters: plan_derivation returns, so that no shape guard
-- refuses what it has assembled, and the digests of the plan are those of its bytes.
pub plan_derivation-returns :
    (runtime : Runtime) (evidence : InputEvidence) (profile : Text)
    → IsDigest runtime
    → IsValid runtime evidence
    → has_text profile profiles ≡ true
    → Planned runtime evidence profile
plan_derivation-returns runtime evidence profile g v h = elim (profile_cases profile h) [
  | inl e ↦ subst (Planned runtime evidence) (sym e) (
      planned runtime evidence identity _ g v (subst (λ p. has_text p profiles ≡ true) e h)
        (identity_report runtime evidence v))
  | inr e ↦ subst (Planned runtime evidence) (sym e) (
      planned runtime evidence integrity_profile _ g v (subst (λ p. has_text p profiles ≡ true) e h)
        (integrity_report runtime evidence v))
]
