-- ===== src/Coordinator/Commands/BootAnalysis/Repeated.antt =====
-- A boot doctor's analysis that is committed twice, internal/recovery/coordinator/bootdoctor.go on the
-- case store of internal/recovery/casestore.
use effexor_win_doctor.CaseStore.Snapshot.{Snapshot}
use effexor_win_doctor.Coordinator.ChainStore.Reads.{}
use effexor_win_doctor.Coordinator.Commands.Analysis.{}
use effexor_win_doctor.Coordinator.Commands.BootAnalysis.Standing.{Standing}
use effexor_win_doctor.Coordinator.Commands.BootAnalysis.Committed.{}
