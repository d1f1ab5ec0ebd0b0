-- ===== src/Control.antt =====
-- internal/control/model.go: the data of control requests. A Go string with a few meaningful values is
-- a data type with `other` for the rest. Error messages are left out; the codes are kept.
pub mod Paths
pub mod Validation
pub mod Store
use codexlink.Prelude.{ℕ, ◌*◌, ◌^◌, Bool, Option, List, String}
use codexlink.Prelude.Int.{ℤ}
use codexlink.Prelude.Time.{minute, hour}

abbrev pub default_ttl : ℕ
default_ttl = 2 * hour

abbrev pub min_ttl : ℕ
min_ttl = minute

abbrev pub max_ttl : ℕ
max_ttl = 4 * hour

abbrev pub retention : ℕ
retention = 30 * minute

abbrev pub max_active : ℕ
max_active = 16

-- 64 KiB and 1 MiB.
abbrev pub max_response_bytes : ℕ
max_response_bytes = 65536

abbrev pub max_state_bytes : ℕ
max_state_bytes = 1048576

pub data State : Type 0 where
  plan done blocked error : State
  other : String → State

pub data Status : Type 0 where
  pending submitted : Status
  unknown : String → Status

pub record PlanStep : Type 0 where
  pub description : String
  pub files : List String
  pub tests : List String

pub record Submission : Type 0 where
  pub request_id : String
  pub task_id : String
  pub iteration : ℤ
  pub state : State
  pub summary : String
  pub steps : List PlanStep

pub record Request : Type 0 where
  pub schema_version : ℤ
  pub workspace_id : String
  pub request_id : String
  pub task_id : String
  pub iteration : ℤ
  pub status : Status
  pub created_at : ℕ
  pub expires_at : ℕ
  pub submitted_at : Option ℕ
  pub response : Option Submission
  pub reused : Bool

pub record Receipt : Type 0 where
  pub accepted : Bool
  pub duplicate : Bool
  pub request_id : String
  pub task_id : String
  pub iteration : ℤ
  pub state : State
  pub submitted_at : ℕ
  pub expires_at : ℕ

-- The codes of `Error`; `io` is any other error, of the file system or the random source.
pub data Error : Type 0 where
  invalid_argument state_too_large capacity_exceeded : Error
  request_expired request_not_found request_mismatch response_conflict : Error
  invalid_state io : Error

-- What the store uses of encoding/json and crypto/sha256.
pub record Codec : Type 0 where
  pub marshal : Submission → List ℕ
  pub marshal_records : List Request → List ℕ
  pub sha256 : List ℕ → List ℕ
