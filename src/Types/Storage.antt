-- ===== src/Types/Storage.antt =====
-- The storage part of the desired state (api/types/desiredstate.go) and what several specs share.
use hyperv_control_plane.Prelude.{ℤ, Bool, Option, List, Text}

pub record LiveMigrationSpec : Type 0 where
  pub enabled : Bool
  pub authentication_type : Text
  pub max_concurrent : ℤ  -- int
  pub networks : List Text

pub record IsoLibrarySpec : Type 0 where
  pub path : Text
  pub credential_secret : Text

pub record CsvSourceSpec : Type 0 where
  pub serial_number : Text
  pub target_iqn : Text
  pub lun : Option ℤ

pub record IscsiStorageSpec : Type 0 where
  pub portals : List Text
  pub targets : List Text
  pub credential_secret : Text
  pub mutual_chap : Bool
  pub chap_scope : Text
  pub enable_mpio : Option Bool
