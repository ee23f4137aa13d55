-- ===== src/Coordinator/Acquire/RequestId/Matches.antt =====
-- The request ids that acquire.go of internal/recovery/coordinator takes, against the regular
-- expression of internal/recovery/domain/validate_helpers.go.
use effexor_win_doctor.Prelude.{
  ℕ, String, ◌≡◌, refl, ap, sym, subst, ◌∙◌, ◌↔◌, Bool, true, List, [], ◌∷◌, not, ◌==◌, ltb, all,
  codes, utf8, bytes_of, arith, ok, eq_iff, Bool-cases, inl, inr, >>-eq-ok, guard-eq-ok, all-append,
}
use effexor_win_doctor.Domain.Patterns.{
  re_acquisition_request_id, strip_prefix, sized, after, is_lower_hex, tagged,
}
use effexor_win_doctor.Coordinator.Acquire.RequestId.{
  same_bytes, matched, validate_acquisition_request_id,
}

-- The regular expression, on code points.
abbrev matches : List ℕ → Bool
matches cs = after (strip_prefix (codes "acqreq-") cs) (sized is_lower_hex 24 24)

abbrev is_ascii : ℕ → Bool
is_ascii c = ltb c 128

utf8_ascii : (c : ℕ) → is_ascii c ≡ true → utf8 c ≡ c ∷ []
unfolding utf8
utf8_ascii c h = ground arith

bytes_of-ascii : (cs : List ℕ) → all is_ascii cs ≡ true → bytes_of cs ≡ cs
unfolding bytes_of
bytes_of-ascii [] h = refl
bytes_of-ascii (c ∷ cs) h = ground (arith, utf8_ascii c, bytes_of-ascii cs)

ascii-utf8 : (c : ℕ) → all is_ascii (utf8 c) ≡ true → is_ascii c ≡ true
unfolding utf8
ascii-utf8 c h = ground arith

ascii-bytes_of : (cs : List ℕ) → all is_ascii (bytes_of cs) ≡ true → all is_ascii cs ≡ true
unfolding bytes_of
ascii-bytes_of [] h = refl
ascii-bytes_of (c ∷ cs) h =
    ground (arith, all-append is_ascii (utf8 c) (bytes_of cs), ascii-utf8 c, ascii-bytes_of cs)

matched-matches : (bs : List ℕ) → matched bs ≡ matches bs
unfolding matched same_bytes
matched-matches [] = refl
matched-matches (a ∷ []) = ground arith
matched-matches (a ∷ b ∷ []) = ground arith
matched-matches (a ∷ b ∷ c ∷ []) = ground arith
matched-matches (a ∷ b ∷ c ∷ d ∷ []) = ground arith
matched-matches (a ∷ b ∷ c ∷ d ∷ e ∷ []) = ground arith
matched-matches (a ∷ b ∷ c ∷ d ∷ e ∷ f ∷ []) = ground arith
matched-matches (a ∷ b ∷ c ∷ d ∷ e ∷ f ∷ g ∷ bs) = ground arith

all_hex-ascii : (bs : List ℕ) → all is_lower_hex bs ≡ true → all is_ascii bs ≡ true
all_hex-ascii [] h = refl
all_hex-ascii (b ∷ bs) h = ground (arith, all_hex-ascii bs)

strip_prefix-ascii :
    (ps bs : List ℕ)
    → all is_ascii ps ≡ true
    → after (strip_prefix ps bs) (sized is_lower_hex 24 24) ≡ true
    → all is_ascii bs ≡ true
strip_prefix-ascii [] bs hp h = all_hex-ascii bs (ground arith)
strip_prefix-ascii (p ∷ ps) [] hp h = refl
strip_prefix-ascii (p ∷ ps) (b ∷ bs) hp h = ground (arith, strip_prefix-ascii ps bs)

matches-ascii : (bs : List ℕ) → matches bs ≡ true → all is_ascii bs ≡ true
matches-ascii bs h = strip_prefix-ascii (codes "acqreq-") bs refl h

-- The hand-written test takes exactly the ids that the regular expression of acquisition requests
-- matches, whatever characters they have.
pub validate_acquisition_request_id_iff :
    (id : String)
    → (validate_acquisition_request_id id ≡ ok tt) ↔ (re_acquisition_request_id id ≡ true)
unfolding validate_acquisition_request_id re_acquisition_request_id tagged
validate_acquisition_request_id_iff id =
    let cs = codes id in
    (
      λ h.
          let (_, h1) = >>-eq-ok _ _ h in
          let m : matches (bytes_of cs) ≡ true =
            sym (matched-matches (bytes_of cs)) ∙ guard-eq-ok _ _ h1 in
          let a = ascii-bytes_of cs (matches-ascii (bytes_of cs) m) in
          sym (ap matches (bytes_of-ascii cs a)) ∙ m,
      λ h.
          let a = matches-ascii cs h in
          let m : matched (bytes_of cs) ≡ true =
            matched-matches (bytes_of cs) ∙ (ap matches (bytes_of-ascii cs a) ∙ h) in
          let e : not (id == "") ≡ true = elim (Bool-cases (id == "")) [
            | inl blank ↦
                let z : matches [] ≡ true =
                  subst (λ t. matches (codes t) ≡ true) ((eq_iff id "").0 blank) h in
                absurd (let w : ⊥ = cc in w)
            | inr set ↦ ap not set
          ] in
          ground arith,
    )
