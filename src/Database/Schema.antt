-- ===== src/Database/Schema.antt =====
-- The constraints of migration 10 and the statements under them: a row that breaks a CHECK, a key
-- or a trigger aborts its statement (`none`).
pub mod Updates
pub mod Evolution
use edge_evidence_showcase.Prelude.{
  ℕ, zero, suc, ◌+◌, ◌≡◌, refl, Bool, true, false, not, ◌&&◌, ◌||◌, Option, none, some, List, [],
  ◌∷◌, ◌++◌, map, Text, text, text_eq, length, all, any, leb, ltb, ◌==◌, if◌then◌else◌,
}
use edge_evidence_showcase.Contracts.{matches_target_id, matches_sha256, starts_with, slash}
use edge_evidence_showcase.Contracts.Objects.{ReplicaObject, is_object_kind, object_eq}
use edge_evidence_showcase.Database.{TargetRow, ReplicaState, pending, verified, ReplicaRow, Tables}

-- substr(adapter_kind, 1, 1) GLOB '[a-z]'
is_lower : ℕ → Bool
is_lower c = leb b'a' c && leb c b'z'

-- the characters that adapter_kind NOT GLOB '*[^a-z0-9_]*' admits
is_kind_char : ℕ → Bool
unfolding is_lower
is_kind_char c = is_lower c || (leb b'0' c && leb c b'9') || c == b'_'

unfoldable pub matches_adapter_kind : Text → Bool
unfolding is_lower is_kind_char
matches_adapter_kind [] = false
matches_adapter_kind (c ∷ s) = leb (length s) 63 && is_lower c && all is_kind_char (c ∷ s)

unfoldable pub target_check : TargetRow → Bool
target_check t =
    matches_target_id t.target_id
    && matches_adapter_kind t.adapter_kind
    && matches_sha256 t.marker_sha256

-- s LIKE '%p%'
unfoldable pub contains : Text → Text → Bool
contains p [] = starts_with [] p
contains p (c ∷ s) = starts_with (c ∷ s) p || contains p s

-- s LIKE '%p'
unfoldable pub ends_with : Text → Text → Bool
ends_with p [] = text_eq [] p
ends_with p (c ∷ s) = text_eq (c ∷ s) p || ends_with p s

-- The CHECK on relative_uri. Its patterns hold no letter but those of the prefix, so that LIKE
-- folding the case of letters changes nothing.
unfoldable pub uri_check : Text → Bool
unfolding contains ends_with
uri_check uri =
    leb 6 (length uri)
    && starts_with uri (text "file:")
    && not (starts_with uri (text "file:/"))
    && not (contains (text "//") uri)
    && not (starts_with uri (text "file:../"))
    && not (starts_with uri (text "file:./"))
    && not (contains (text "/../") uri)
    && not (contains (text "/./") uri)
    && not (ends_with (text "/..") uri)
    && not (ends_with (text "/.") uri)

is_null : {A : Type 0} → Option A → Bool
is_null none = true
is_null (some _) = false

-- CHECK (last_error IS NULL OR length(last_error) <= 96)
unfoldable pub error_check : Option Text → Bool
error_check none = true
error_check (some s) = leb (length s) 96

-- (state = 'PENDING' AND verified_at IS NULL) OR
-- (state = 'VERIFIED' AND verified_at IS NOT NULL AND last_error IS NULL)
unfoldable pub state_check : ReplicaState → Option ℕ → Option Text → Bool
unfolding is_null
state_check pending verified_at last_error = is_null verified_at
state_check verified verified_at last_error = not (is_null verified_at) && is_null last_error

-- The CHECKs of one row of replica_objects.
unfoldable pub row_check : ReplicaRow → Bool
unfolding state_check error_check
row_check r =
    is_object_kind r.object_kind
    && uri_check r.relative_uri
    && matches_sha256 r.expected_sha256
    && error_check r.last_error
    && state_check r.state r.verified_at r.last_error

-- (target_id, object_kind, relative_uri)
unfoldable pub same_key : ReplicaObject → ReplicaObject → Bool
same_key a b =
    text_eq a.target_id b.target_id
    && text_eq a.object_kind b.object_kind
    && text_eq a.relative_uri b.relative_uri

-- CHECKs and the primary key.
unfoldable pub admits_target_row : TargetRow → Tables → Bool
unfolding target_check
admits_target_row t db =
    target_check t && not (any (λ u. text_eq u.target_id t.target_id) db.replica_targets)

-- INSERT INTO replica_targets
unfoldable pub insert_target_row : TargetRow → Tables → Option Tables
insert_target_row t db =
    if admits_target_row t db
    then some (record db { replica_targets = db.replica_targets ++ t ∷ [] })
    else none

-- CHECKs, the foreign key and UNIQUE (target, kind, uri), which implies the primary key.
unfoldable pub admits_replica_row : ReplicaRow → Tables → Bool
unfolding row_check same_key
admits_replica_row r db =
    row_check r
    && any (λ t. text_eq t.target_id r.target_id) db.replica_targets
    && not (any (λ s. same_key s.object r.object) db.replica_objects)

-- INSERT INTO replica_objects
unfoldable pub insert_replica_row : ReplicaRow → Tables → Option Tables
insert_replica_row r db =
    if admits_replica_row r db
    then some (record db { replica_objects = db.replica_objects ++ r ∷ [] })
    else none

is_verified : ReplicaState → Bool
is_verified pending = false
is_verified verified = true

-- The trigger replica_objects_guard_update lets the update of a row pass.
unfoldable pub guard_update : ReplicaRow → ReplicaRow → Bool
unfolding is_verified
guard_update old new =
    not (is_verified old.state)
    && object_eq new.object old.object
    && new.created_at == old.created_at
    && leb old.attempt_count new.attempt_count

-- UPDATE replica_objects SET … WHERE …: the new rows and `rowcount`.
unfoldable pub update_rows :
    (ReplicaRow → Bool) → (ReplicaRow → ReplicaRow) → List ReplicaRow → Option (List ReplicaRow × ℕ)
unfolding guard_update row_check
update_rows where_row set [] = some ([], 0)
update_rows where_row set (r ∷ rs) =
    let rest = update_rows where_row set rs in
    elim rest [
      | none ↦ none
      | some (rs', n) ↦
          if not (where_row r)
          then some (r ∷ rs', n)
          else if guard_update r (set r) && row_check (set r)
          then some (set r ∷ rs', suc n)
          else none
    ]

unfoldable pub update_replica_rows :
    (ReplicaRow → Bool) → (ReplicaRow → ReplicaRow) → Tables → Option (Tables × ℕ)
unfolding update_rows
update_replica_rows where_row set db = elim (update_rows where_row set db.replica_objects) [
  | none ↦ none
  | some (rs, n) ↦ some (record db { replica_objects = rs }, n)
]
