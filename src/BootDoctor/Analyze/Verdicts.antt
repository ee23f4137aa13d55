-- ===== src/BootDoctor/Analyze/Verdicts.antt =====
-- The verdicts of internal/recovery/bootdoctor on whether a repair may be tried, after suppression.
use effexor_win_doctor.Prelude.{◌≡◌, true, false, is_some}
use effexor_win_doctor.BootDoctor.Codes.{unsafe_to_attempt_boot_repair}
use effexor_win_doctor.BootDoctor.Suppress.{Drafts}
use effexor_win_doctor.BootDoctor.Suppress.Kept.{found}
use effexor_win_doctor.BootDoctor.Queries.{has_bcd_cross_disk}
use effexor_win_doctor.BootDoctor.Drafts.{is_healthy, is_incomplete}
use effexor_win_doctor.BootDoctor.Drafts.Safety.{esp_on_other_disk, storage_unsafe}
use effexor_win_doctor.BootDoctor.Analyze.{Input, kept_drafts}

-- What a consistent topology rules out.
pub record Consistent (i : Input) : Type 0 where
  pub healthy : is_healthy i.topology i.targets ≡ true
  pub esp : esp_on_other_disk i.topology ≡ false
  pub bcd : has_bcd_cross_disk i.topology ≡ false
  pub storage : storage_unsafe i.topology i.targets ≡ false
  pub complete : is_incomplete i.topology i.targets ≡ false
  pub not_unsafe : is_some (found (kept_drafts i) unsafe_to_attempt_boot_repair) ≡ false
