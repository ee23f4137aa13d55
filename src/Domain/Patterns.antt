-- ===== src/Domain/Patterns.antt =====
-- The regular expressions of internal/recovery/domain/validate_helpers.go, as tests on a text.
use effexor_win_doctor.Prelude.{
  ℕ, String, ◌-◌, ◌≡◌, refl, Bool, true, false, Option, none, some, List, [], ◌∷◌, ◌&&◌, ◌||◌, leb,
  eqb, if◌then◌else◌, all, length, codes,
}

abbrev pub is_digit : ℕ → Bool
is_digit c = leb b'0' c && leb c b'9'

abbrev is_lower : ℕ → Bool
is_lower c = leb b'a' c && leb c b'z'

abbrev is_upper : ℕ → Bool
is_upper c = leb b'A' c && leb c b'Z'

-- [a-f0-9]
abbrev pub is_lower_hex : ℕ → Bool
is_lower_hex c = is_digit c || (leb b'a' c && leb c b'f')

-- [a-fA-F0-9]
abbrev is_hex : ℕ → Bool
is_hex c = is_lower_hex c || (leb b'A' c && leb c b'F')

abbrev pub strip_prefix : List ℕ → List ℕ → Option (List ℕ)
strip_prefix [] s = some s
strip_prefix (p ∷ ps) [] = none
strip_prefix (p ∷ ps) (c ∷ s) = let rest = strip_prefix ps s in if eqb p c then rest else none

-- `class{lo,hi}` and the end of the text.
abbrev pub sized : (ℕ → Bool) → ℕ → ℕ → List ℕ → Bool
sized class lo hi s = all class s && leb lo (length s) && leb (length s) hi

abbrev pub after : Option (List ℕ) → (List ℕ → Bool) → Bool
after none test = false
after (some s) test = test s

-- `^prefix[a-f0-9]{24}$`
unfoldable pub tagged : String → String → Bool
tagged prefix s = after (strip_prefix (codes prefix) (codes s)) (sized is_lower_hex 24 24)

-- `^first rest{lo,hi}$`
headed : (ℕ → Bool) → (ℕ → Bool) → ℕ → ℕ → List ℕ → Bool
headed first rest lo hi [] = false
headed first rest lo hi (c ∷ s) = first c && sized rest lo hi s

abbrev is_name_char : ℕ → Bool
is_name_char c = is_lower c || is_digit c || eqb c b'_' || eqb c b'.' || eqb c b'-'

unfoldable pub re_case_id : String → Bool
unfolding tagged
re_case_id = tagged "case-"

unfoldable pub re_target_id : String → Bool
re_target_id s =
    after (strip_prefix (codes "target-") (codes s))
      (sized (λ c. is_lower c || is_digit c || eqb c b'-') 8 64)

unfoldable pub re_evidence_id : String → Bool
unfolding tagged
re_evidence_id = tagged "evidence-"

unfoldable pub re_finding_id : String → Bool
unfolding tagged
re_finding_id = tagged "finding-"

unfoldable pub re_plan_id : String → Bool
unfolding tagged
re_plan_id = tagged "plan-"

unfoldable pub re_operation_id : String → Bool
unfolding headed
re_operation_id s = headed is_lower is_name_char 2 63 (codes s)

unfoldable pub re_execution_id : String → Bool
unfolding tagged
re_execution_id = tagged "exec-"

unfoldable pub re_verification_id : String → Bool
unfolding tagged
re_verification_id = tagged "verify-"

unfoldable pub re_artifact_id : String → Bool
unfolding tagged
re_artifact_id = tagged "artifact-"

unfoldable pub re_coordinator_event_id : String → Bool
unfolding tagged
re_coordinator_event_id = tagged "cevt-"

unfoldable pub re_acquisition_id : String → Bool
unfolding tagged
re_acquisition_id = tagged "acq-"

unfoldable pub re_acquisition_request_id : String → Bool
unfolding tagged
re_acquisition_request_id = tagged "acqreq-"

unfoldable pub re_topology_id : String → Bool
unfolding tagged
re_topology_id = tagged "topology-"

unfoldable pub re_consultation_id : String → Bool
unfolding tagged
re_consultation_id = tagged "consult-"

unfoldable pub re_consultation_request_id : String → Bool
unfolding tagged
re_consultation_request_id = tagged "creq-"

unfoldable pub re_hypothesis_id : String → Bool
unfolding tagged
re_hypothesis_id = tagged "hyp-"

unfoldable pub re_producer_id : String → Bool
unfolding headed
re_producer_id s = headed is_lower is_name_char 1 127 (codes s)

unfoldable pub re_commit_id : String → Bool
unfolding tagged
re_commit_id = tagged "commit-"

unfoldable pub re_reason_code : String → Bool
unfolding headed
re_reason_code s = headed is_lower (λ c. is_lower c || is_digit c || eqb c b'_') 1 127 (codes s)

abbrev is_alnum : ℕ → Bool
is_alnum c = is_lower c || is_upper c || is_digit c

unfoldable pub re_command_id : String → Bool
unfolding headed
re_command_id s =
    headed is_alnum (λ c. is_alnum c || eqb c b'.' || eqb c b'_' || eqb c b'-') 0 127 (codes s)

unfoldable pub re_sha256 : String → Bool
re_sha256 s = sized is_hex 64 64 (codes s)

-- `^[0-9]+\.[0-9]+\.[0-9]+$`: `dots` are still to come, and `seen` tells whether the current
-- number has a digit.
semver_from : ℕ → Bool → List ℕ → Bool
semver_from dots seen [] = seen && eqb dots 0
semver_from dots seen (c ∷ s) =
    let digit = semver_from dots true s in
    let dot = semver_from (dots - 1) false s in
    if is_digit c then digit else seen && eqb c b'.' && leb 1 dots && dot

unfoldable pub re_semver : String → Bool
unfolding semver_from
re_semver s = semver_from 2 false (codes s)

case_test : re_case_id "case-aaaaaaaaaaaaaaaaaaaaaaaa" ≡ true
unfolding re_case_id
case_test = refl

semver_test : re_semver "1.0.12" ≡ true
unfolding re_semver
semver_test = refl
