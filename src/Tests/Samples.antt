-- ===== src/Tests/Samples.antt =====
-- A spool, a database and a world to run on.
use edge_evidence_showcase.Prelude.{ℕ, none, some, Option, List, [], ◌∷◌, Text, text}
use edge_evidence_showcase.Contracts.Objects.{ReplicaObject}
use edge_evidence_showcase.Database.{pending, verified, ReplicaRow, Tables}
use edge_evidence_showcase.Database.Statements.{migrations}
use edge_evidence_showcase.Database.Session.{World}
use edge_evidence_showcase.Spool.{Node, file, directory, end, entry}
use edge_evidence_showcase.Tests.Memory.{marker}

abbrev pub camera : Text
camera = text "camera-1"

-- A digest for every content.
abbrev pub sample_hash : List ℕ → Text
sample_hash _ = marker

abbrev pub spool : Option Node
spool = some (directory (entry (text "a") (file (1 ∷ 2 ∷ [])) end))

abbrev pub kept_object : ReplicaObject
kept_object = record {
  target_id = camera;
  object_kind = text "recording_original";
  relative_uri = text "file:b";
  expected_byte_size = 3;
  expected_sha256 = marker;
}

abbrev pub new_object : ReplicaObject
new_object = record kept_object { relative_uri = text "file:a"; expected_byte_size = 2 }

abbrev pub kept_row : ReplicaRow
kept_row = record {
  object = kept_object;
  state = verified;
  attempt_count = 1;
  last_error = none;
  created_at = 0;
  verified_at = some 1;
}

abbrev pub waiting_row : ReplicaRow
waiting_row = record {
  object = new_object;
  state = pending;
  attempt_count = 1;
  last_error = some (text "destination_unavailable");
  created_at = 0;
  verified_at = none;
}

abbrev pub tables : Tables
tables = record {
  schema_migrations = migrations;
  replica_targets =
      record {
        target_id = camera;
        adapter_kind = text "memory";
        marker_sha256 = marker;
        created_at = 0;
      }
      ∷ [];
  replica_objects = kept_row ∷ waiting_row ∷ [];
  artifacts = [];
  capture_occurrence_assertions = [];
  recording_imports =
      record {
        recording_id = text "r1";
        storage_uri = text "file:a";
        byte_size = 2;
        digest_value = marker;
        state = text "COMPLETE";
      }
      ∷ [];
}

-- The target holds the object of the VERIFIED row only.
abbrev pub world : World (List ReplicaObject)
world = record {
  committed = tables;
  working = none;
  faults = [];
  clock = 5;
  target = kept_object ∷ [];
}
