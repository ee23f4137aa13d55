-- ===== src/BootDoctor/Suppress/Kept.antt =====
-- Which drafts suppression keeps, internal/recovery/bootdoctor/suppress.go.
use effexor_win_doctor.Prelude.{
  String, ◌≡◌, refl, ap, ◌∙◌, Bool, true, false, ◌||◌, ◌==◌, if◌then◌else◌, Option, none, some,
  List, [], ◌∷◌, ◌++◌, any, all, not, is_empty, contains_string, eq_iff, arith, Bool-cases, inl,
  inr,
}
use effexor_win_doctor.BootDoctor.Suppress.{
  Draft, Drafts, victims_of, dropped, without, apply_suppression, victims_in, suppress_when_present,
}
use effexor_win_doctor.BootDoctor.Codes.{unsafe_to_attempt_boot_repair}

-- The draft of a code.
unfoldable pub found : Drafts → String → Option Draft
found [] code = none
found ((c, d) ∷ ds) code = if c == code then some d else found ds code

-- Is a code the victim of one that is there?
unfoldable pub is_victim : Drafts → String → Bool
is_victim ds code = any (λ (e : String × Draft). contains_string (victims_of e.0) code) ds

contains_string-append :
    (vs ws : List String) (code : String)
    → contains_string (vs ++ ws) code ≡ contains_string vs code || contains_string ws code
contains_string-append [] ws code = refl
contains_string-append (v ∷ vs) ws code = ground (arith, contains_string-append vs ws code)

contains_string-dropped :
    (ds : Drafts) (code : String) → contains_string (dropped ds) code ≡ is_victim ds code
unfolding dropped is_victim
contains_string-dropped [] code = refl
contains_string-dropped ((c, d) ∷ ds) code =
    contains_string-append (victims_of c) (dropped ds) code
    ∙ ap (λ b. contains_string (victims_of c) code || b) (contains_string-dropped ds code)

found-without :
    (drop : List String) (ds : Drafts) (code : String)
    → found (without drop ds) code ≡ (if contains_string drop code then none else found ds code)
unfolding found without
found-without drop [] code = ground arith
found-without drop ((c, d) ∷ ds) code =
    let ih = found-without drop ds code in
    elim (Bool-cases (c == code)) [
      | inl same ↦
          let e : c ≡ code = (eq_iff c code).0 same in
          let k : contains_string drop c ≡ contains_string drop code =
            ap (contains_string drop) e in
          ground arith
      | inr other ↦ ground arith
    ]

-- Suppression drops a draft exactly when a code that is there names it as its victim, and leaves
-- every other draft as it was.
pub apply_suppression_lem :
    (ds : Drafts) (code : String)
    → found (apply_suppression ds) code ≡ (if is_victim ds code then none else found ds code)
unfolding apply_suppression
apply_suppression_lem ds code =
    let d = contains_string-dropped ds code in
    let w = found-without (dropped ds) ds code in
    elim (Bool-cases (is_empty (dropped ds))) [
      | inl nothing ↦ ground arith
      | inr something ↦ ground arith
    ]

victims_in-without :
    (rows : List (String × List String)) (present code : String)
    → all (λ (r : String × List String). not (contains_string r.1 code)) rows ≡ true
    → contains_string (victims_in rows present) code ≡ false
unfolding victims_in
victims_in-without [] present code h = refl
victims_in-without ((c, vs) ∷ rows) present code h =
    ground (arith, victims_in-without rows present code)

-- Nothing suppresses the warning.
pub unsafe_unsuppressed :
    (present : String) → contains_string (victims_of present) unsafe_to_attempt_boot_repair ≡ false
unfolding victims_of
unsafe_unsuppressed present =
    victims_in-without suppress_when_present present unsafe_to_attempt_boot_repair refl
