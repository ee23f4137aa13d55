-- ===== src/BootDoctor/Analyze/Grounded.antt =====
-- What the findings of `Analyze` rest on, internal/recovery/bootdoctor/analyze.go.
use effexor_win_doctor.Prelude.{
  suc, String, ◌≡◌, refl, ap, subst, ◌∙◌, Bool, true, ◌||◌, Option, none, some, List, [], ◌∷◌,
  elems, length, all, is_empty, contains_string, arith, ok, >>-eq-ok, >>=-eq-ok, guard-eq-ok,
  map_err-eq-ok, ok-injective, ok≢err, if_cases,
}
use effexor_win_doctor.Domain.Errors.{wrap}
use effexor_win_doctor.Domain.Evidence.{Finding, validate_finding}
use effexor_win_doctor.BootDoctor.Catalog.{CodeSpec, catalog, spec_of}
use effexor_win_doctor.BootDoctor.Suppress.{Draft, Drafts}
use effexor_win_doctor.BootDoctor.Identity.{unique_sorted}
use effexor_win_doctor.BootDoctor.Queries.{to_set}
use effexor_win_doctor.BootDoctor.Analyze.{
  Input, all_known, refs_exist, finding_of, checked_finding, make_findings, finding_before,
  insert_finding, sort_findings, kept_drafts, analyze,
}

-- Every id is in the set, unless the set is empty.
unfoldable pub known_in : List String → List String → Bool
known_in known ids = is_empty known || all (contains_string known) ids

-- A finding that is valid, of the case, and about known evidence and targets.
pub record Grounded (i : Input) (f : Finding) : Type 0 where
  pub valid : validate_finding f ≡ ok tt
  pub own : f.case_id ≡ i.case_id
  pub evidence : known_in (to_set i.known_evidence_ids) (elems f.evidence_refs) ≡ true
  pub targets : known_in (to_set i.known_target_ids) (elems f.affected_target_ids) ≡ true

abbrev pub AllGrounded : Input → List Finding → Type 0
AllGrounded i [] = Unit
AllGrounded i (f ∷ fs) = Grounded i f × AllGrounded i fs

all_known-all :
    (kind : String) (ids known : List String)
    → all_known kind ids known ≡ ok tt
    → all (contains_string known) ids ≡ true
unfolding all_known
all_known-all kind [] known h = refl
all_known-all kind (id ∷ ids) known h =
    let (h1, h2) = >>-eq-ok _ _ h in
    let rest = all_known-all kind ids known h2 in let first = guard-eq-ok _ _ h1 in ground arith

refs_exist-known_in :
    (kind : String) (ids known : List String)
    → refs_exist kind ids known ≡ ok tt
    → known_in known ids ≡ true
unfolding refs_exist known_in
refs_exist-known_in kind ids [] h = refl
refs_exist-known_in kind ids (k ∷ known) h = all_known-all kind ids (k ∷ known) h

checked_finding-Grounded :
    (sha : String → String) (i : Input) (code : String) (d : Draft) (spec : Option CodeSpec)
    (f : Finding)
    → checked_finding sha i code d spec ≡ ok f
    → Grounded i f
unfolding checked_finding finding_of
checked_finding-Grounded sha i code d none f h = ok≢err _ f h
checked_finding-Grounded sha i code d (some spec) f h =
    let (h1, h2) = >>-eq-ok _ _ h in
    let (h3, h4) = >>-eq-ok _ _ h2 in
    let (h5, h6) = >>-eq-ok _ _ h4 in
    let made = finding_of sha i code d spec in
    let same : made ≡ f = ok-injective made f h6 in
    subst (Grounded i) same (record {
      valid =
          map_err-eq-ok (wrap "bootdoctor: finding %s: %w" (code ∷ [])) (validate_finding made) tt
            h5;
      own = refl;
      evidence =
          refs_exist-known_in "evidence" (unique_sorted d.evidence) (to_set i.known_evidence_ids)
            h3;
      targets =
          refs_exist-known_in "target" (unique_sorted d.targets) (to_set i.known_target_ids) h1;
    })

make_findings-AllGrounded :
    (sha : String → String) (i : Input) (ds : Drafts) (fs : List Finding)
    → make_findings sha i ds ≡ ok fs
    → AllGrounded i fs × (length fs ≡ length ds)
unfolding make_findings
make_findings-AllGrounded sha i [] fs h =
    subst (λ l. AllGrounded i l × (length l ≡ 0)) (ok-injective _ fs h) (tt, refl)
make_findings-AllGrounded sha i ((code, d) ∷ ds) fs h =
    let (f, h1, h2) = >>=-eq-ok (checked_finding sha i code d (spec_of catalog code)) _ h in
    let (more, h3, h4) = >>=-eq-ok (make_findings sha i ds) _ h2 in
    let (g, n) = make_findings-AllGrounded sha i ds more h3 in
    subst (λ l. AllGrounded i l × (length l ≡ suc (length ds))) (ok-injective _ fs h4)
      ((checked_finding-Grounded sha i code d (spec_of catalog code) f h1, g), ap suc n)

insert_finding-AllGrounded :
    (i : Input) (f : Finding) (fs : List Finding)
    → Grounded i f
    → AllGrounded i fs
    → AllGrounded i (insert_finding f fs) × (length (insert_finding f fs) ≡ suc (length fs))
unfolding insert_finding
insert_finding-AllGrounded i f [] g h = ((g, tt), refl)
insert_finding-AllGrounded i f (e ∷ fs) g (he, h) =
    let (gs, n) = insert_finding-AllGrounded i f fs g h in
    if_cases (λ l. AllGrounded i l × (length l ≡ suc (suc (length fs)))) (finding_before e f)
      (e ∷ insert_finding f fs) (f ∷ e ∷ fs) (λ _. ((he, gs), ap suc n)) (λ _. ((g, (he, h)), refl))

sort_findings-AllGrounded :
    (i : Input) (fs : List Finding)
    → AllGrounded i fs
    → AllGrounded i (sort_findings fs) × (length (sort_findings fs) ≡ length fs)
unfolding sort_findings
sort_findings-AllGrounded i [] h = (tt, refl)
sort_findings-AllGrounded i (f ∷ fs) (hf, h) =
    let (g, n) = sort_findings-AllGrounded i fs h in
    let (g', n') = insert_finding-AllGrounded i f (sort_findings fs) hf g in (g', n' ∙ ap suc n)

-- Every finding of an analysis that passes is valid and of the case, its evidence and targets are
-- known where the known ones are given, and there is one finding for each draft that suppression
-- keeps.
pub analyze-AllGrounded :
    (sha256_hex : String → String) (i : Input) (findings : List Finding)
    → analyze sha256_hex i ≡ ok findings
    → AllGrounded i findings × (length findings ≡ length (kept_drafts i))
unfolding analyze
analyze-AllGrounded sha256_hex i findings h =
    let (_, h1) = >>-eq-ok _ _ h in
    let (fs, h2, h3) = >>=-eq-ok (make_findings sha256_hex i (kept_drafts i)) _ h1 in
    let (g, n) = make_findings-AllGrounded sha256_hex i (kept_drafts i) fs h2 in
    let (g', n') = sort_findings-AllGrounded i fs g in
    subst (λ l. AllGrounded i l × (length l ≡ length (kept_drafts i))) (ok-injective _ findings h3)
      (g', n' ∙ n)
