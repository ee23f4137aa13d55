-- ===== src/Tests/Consultations.antt =====
-- Consultations of one analysed case, and what a second try of each gives.
use effexor_win_doctor.BootDoctor.Example.{digest}
use effexor_win_doctor.Coordinator.Examples.{store, analyze}
use effexor_win_doctor.Coordinator.Commands.Consultation.Advisory.{
  Consulted, commit_agent_consultation-Consulted,
}
use effexor_win_doctor.Coordinator.Commands.Consultation.Example.{named_request, consulted_by}
use effexor_win_doctor.Tests.Computed.{computed}
use effexor_win_doctor.Tests.ComputedConsultation.{result_of}

commit_agent_consultation-Consulted_example :
    Consulted store digest analyze.0
      (consulted_by named_request).0
      named_request
      (result_of named_request)
commit_agent_consultation-Consulted_example =
    commit_agent_consultation-Consulted store digest named_request analyze.0
      (consulted_by named_request).0 (result_of named_request) computed.consultation.named
