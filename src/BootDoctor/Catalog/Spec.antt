-- ===== src/BootDoctor/Catalog/Spec.antt =====
-- What the catalogue says of a code, internal/recovery/bootdoctor/catalog.go.
use effexor_win_doctor.Prelude.{String, List}

pub record CodeSpec : Type 0 where
  pub severity : String
  pub confidence : String
  pub title : String
  pub rationale : String
  pub workflows : List String
