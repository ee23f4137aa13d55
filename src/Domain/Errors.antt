-- ===== src/Domain/Errors.antt =====
-- The errors of internal/recovery/domain: a format text with the arguments
-- that name the value at fault, and a wrapped error.
use effexor_win_doctor.Prelude.{String, List, Result}

pub data Error : Type 0 where
  errorf : String → List String → Error
  wrap : String → List String → Error → Error

-- A validation: nothing, or the first error.
abbrev pub Check : Type 0
Check = Result Error (Unit {0})
