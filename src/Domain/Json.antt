-- ===== src/Domain/Json.antt =====
-- `json.Valid` of Go's encoding/json, as evidence.go of internal/recovery/domain uses it: the
-- scanner is a state machine with a stack of the open objects and arrays, 10000 at most.
use effexor_win_doctor.Prelude.{
  ℕ, String, ◌-◌, ◌≡◌, refl, Bool, true, false, Option, none, some, List, [], ◌∷◌, ◌&&◌, ◌||◌, ltb,
  leb, eqb, if◌then◌else◌, length, codes,
}

pub data Frame : Type 0 where
  key member element : Frame

pub data Mode : Type 0 where
  value value_or_close name name_or_close text escape after_value : Mode
  minus zero_digit digits point fraction exponent exponent_sign power : Mode
  escape_hex : ℕ → Mode
  literal : List ℕ → Mode

abbrev Scan : Type 0
Scan = Option (Mode × List Frame)

abbrev is_blank : ℕ → Bool
is_blank c = eqb c 32 || eqb c 9 || eqb c 10 || eqb c 13

abbrev is_digit : ℕ → Bool
is_digit c = leb b'0' c && leb c b'9'

abbrev is_hex : ℕ → Bool
is_hex c = is_digit c || (leb b'a' c && leb c b'f') || (leb b'A' c && leb c b'F')

push : Mode → Frame → List Frame → Scan
push m f stack = if ltb (length stack) 10000 then some (m, f ∷ stack) else none

begin_value : ℕ → List Frame → Scan
unfolding push
begin_value c stack =
    if is_blank c
    then some (value, stack)
    else if eqb c b'{'
    then push name_or_close key stack
    else if eqb c b'['
    then push value_or_close element stack
    else if eqb c b'"'
    then some (text, stack)
    else if eqb c b'-'
    then some (minus, stack)
    else if eqb c b'0'
    then some (zero_digit, stack)
    else if is_digit c
    then some (digits, stack)
    else if eqb c b't'
    then some (literal (codes "rue"), stack)
    else if eqb c b'f'
    then some (literal (codes "alse"), stack)
    else if eqb c b'n'
    then some (literal (codes "ull"), stack)
    else none

-- What may stand after a whole value: by the innermost open object or array.
end_value : ℕ → List Frame → Scan
end_value c [] = if is_blank c then some (after_value, []) else none
end_value c (key ∷ stack) =
    if is_blank c
    then some (after_value, key ∷ stack)
    else if eqb c b':'
    then some (value, member ∷ stack)
    else none
end_value c (member ∷ stack) =
    if is_blank c
    then some (after_value, member ∷ stack)
    else if eqb c b','
    then some (name, key ∷ stack)
    else if eqb c b'}'
    then some (after_value, stack)
    else none
end_value c (element ∷ stack) =
    if is_blank c
    then some (after_value, element ∷ stack)
    else if eqb c b','
    then some (value, element ∷ stack)
    else if eqb c b']'
    then some (after_value, stack)
    else none

-- A closing bracket of an empty object or array takes its frame off.
close : List Frame → Scan
close [] = none
close (f ∷ stack) = some (after_value, stack)

step : Mode → ℕ → List Frame → Scan
unfolding begin_value end_value close
step value c stack = begin_value c stack
step value_or_close c stack =
    if is_blank c
    then some (value_or_close, stack)
    else if eqb c b']'
    then close stack
    else begin_value c stack
step name c stack =
    if is_blank c then some (name, stack) else if eqb c b'"' then some (text, stack) else none
step name_or_close c stack =
    if is_blank c
    then some (name_or_close, stack)
    else if eqb c b'}'
    then close stack
    else if eqb c b'"'
    then some (text, stack)
    else none
step text c stack =
    if eqb c b'"'
    then some (after_value, stack)
    else if eqb c 92
    then some (escape, stack)
    else if ltb c 32
    then none
    else some (text, stack)
step escape c stack =
    if eqb c b'u'
    then some (escape_hex 3, stack)
    else if eqb c b'b'
        || eqb c b'f'
        || eqb c b'n'
        || eqb c b'r'
        || eqb c b't'
        || eqb c 92
        || eqb c b'/'
        || eqb c b'"'
    then some (text, stack)
    else none
step (escape_hex n) c stack =
    if is_hex c then some (if eqb n 0 then text else escape_hex (n - 1), stack) else none
step after_value c stack = end_value c stack
step minus c stack =
    if eqb c b'0'
    then some (zero_digit, stack)
    else if is_digit c
    then some (digits, stack)
    else none
step zero_digit c stack =
    if eqb c b'.'
    then some (point, stack)
    else if eqb c b'e' || eqb c b'E'
    then some (exponent, stack)
    else end_value c stack
step digits c stack =
    if is_digit c
    then some (digits, stack)
    else if eqb c b'.'
    then some (point, stack)
    else if eqb c b'e' || eqb c b'E'
    then some (exponent, stack)
    else end_value c stack
step point c stack = if is_digit c then some (fraction, stack) else none
step fraction c stack =
    if is_digit c
    then some (fraction, stack)
    else if eqb c b'e' || eqb c b'E'
    then some (exponent, stack)
    else end_value c stack
step exponent c stack =
    if eqb c b'+' || eqb c b'-'
    then some (exponent_sign, stack)
    else if is_digit c
    then some (power, stack)
    else none
step exponent_sign c stack = if is_digit c then some (power, stack) else none
step power c stack = if is_digit c then some (power, stack) else end_value c stack
step (literal []) c stack = end_value c stack
step (literal (d ∷ ds)) c stack = if eqb c d then some (literal ds, stack) else none

-- At the end every bracket is closed and a value is complete.
is_complete : Mode → List Frame → Bool
is_complete after_value [] = true
is_complete zero_digit [] = true
is_complete digits [] = true
is_complete fraction [] = true
is_complete power [] = true
is_complete (literal []) [] = true
is_complete _ stack = false

scan : Scan → List ℕ → Bool
unfolding step is_complete
scan none s = false
scan (some (m, stack)) [] = is_complete m stack
scan (some (m, stack)) (c ∷ s) = scan (step m c stack) s

unfoldable pub valid : String → Bool
unfolding scan
valid s = scan (some (value, [])) (codes s)

valid_test : valid "{\"a\": [1, -2.5e3, null], \"b\": {}} " ≡ true
unfolding valid
valid_test = refl

invalid_test : valid "{\"a\": [1,]}" ≡ false
unfolding valid
invalid_test = refl
