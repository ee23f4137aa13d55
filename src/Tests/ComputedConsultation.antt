-- ===== src/Tests/ComputedConsultation.antt =====
-- A consultation on an analysed case, in the form that is computed.
use effexor_win_doctor.Prelude.{◌≡◌, false, ◌==◌, ok}
use effexor_win_doctor.BootDoctor.Example.{digest}
use effexor_win_doctor.Coordinator.Commands.Consultation.{
  ConsultationRequest, ConsultationResult, commit_agent_consultation,
}
use effexor_win_doctor.Coordinator.Commands.Consultation.Example.{
  named_request, unnamed_request, consulted_by, consultation_result,
}
use effexor_win_doctor.Coordinator.Examples.{store, analyze}

abbrev pub result_of : ConsultationRequest → ConsultationResult
result_of q = consultation_result (consulted_by q).1

abbrev pub Consults : ConsultationRequest → Type 0
Consults q =
    commit_agent_consultation store digest q analyze.0 ≡ ((consulted_by q).0, ok (result_of q))

pub record ComputedConsultation : Type 0 where
  pub named : Consults named_request
  pub named_new : (result_of named_request).idempotent ≡ false
  pub named_written : (result_of named_request).case_view.commit_info.idempotent ≡ false
  pub unnamed : Consults unnamed_request
  pub unnamed_new : (result_of unnamed_request).idempotent ≡ false
  pub unnamed_written : (result_of unnamed_request).case_view.commit_info.idempotent ≡ false
  pub unnamed_moved :
      (result_of unnamed_request).case_view.commit_info.commit_id
        == (result_of unnamed_request).consultation.source_commit_id
      ≡ false
