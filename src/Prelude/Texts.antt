-- ===== src/Prelude/Texts.antt =====
-- Texts: whole comparisons on `String`, and its code points where the source walks them.
use Prim.Native.Nat.{ℕ, zero, suc, ◌+◌, ◌/◌, ◌%◌}
use Prim.Native.Char.{Char, code}
use Prim.Native.String.{String}
use mathlib.Core.Path.{◌≡◌, refl}
use mathlib.Core.Bool.{Bool, true, false, not, ◌&&◌, ◌||◌}
use mathlib.Core.List.{List, [], ◌∷◌, ◌++◌}
use text.Mathlib.Text.{◌==◌ as str_eq}
use text.Mathlib.TextPositions.{eq_refl}
use effexor_win_doctor.Prelude.Tests.{ltb, leb, eqb, if◌then◌else◌}

-- `==` on Go strings.
infix 50 ◌==◌
abbrev pub ◌==◌ : String → String → Bool
s == t = str_eq s t

pub ==_refl : (s : String) → (s == s) ≡ true
==_refl s = eq_refl s

-- The code points of a text.
abbrev pub codes : String → List ℕ
codes String.[] = []
codes (String.◌∷◌ c s) = code c ∷ codes s

-- The number of a text's code points, `len([]rune(s))`.
abbrev pub rune_count : String → ℕ
rune_count String.[] = 0
rune_count (String.◌∷◌ c s) = rune_count s + 1

-- The UTF-8 bytes of a code point, and of a text.
unfoldable pub utf8 : ℕ → List ℕ
utf8 c =
    if ltb c 128
    then c ∷ []
    else if ltb c 2048
    then (192 + c / 64) ∷ (128 + c % 64) ∷ []
    else if ltb c 65536
    then (224 + c / 4096) ∷ (128 + c / 64 % 64) ∷ (128 + c % 64) ∷ []
    else (240 + c / 262144) ∷ (128 + c / 4096 % 64) ∷ (128 + c / 64 % 64) ∷ (128 + c % 64) ∷ []

unfoldable pub bytes_of : List ℕ → List ℕ
unfolding utf8
bytes_of [] = []
bytes_of (c ∷ cs) = utf8 c ++ bytes_of cs

-- `unicode.IsSpace`.
abbrev pub is_space : ℕ → Bool
is_space c =
    (leb 9 c && leb c 13)
    || eqb c 32
    || eqb c 0x85
    || eqb c 0xa0
    || eqb c 0x1680
    || (leb 0x2000 c && leb c 0x200a)
    || eqb c 0x2028
    || eqb c 0x2029
    || eqb c 0x202f
    || eqb c 0x205f
    || eqb c 0x3000

-- `strings.TrimSpace`, from the left and from the right.
pub trim_left : String → String
trim_left String.[] = String.[]
trim_left (String.◌∷◌ c s) =
    let rest = trim_left s in if is_space (code c) then rest else String.◌∷◌ c s

abbrev keep_char : Char → String → String
keep_char c String.[] = if is_space (code c) then String.[] else String.◌∷◌ c String.[]
keep_char c (String.◌∷◌ d s) = String.◌∷◌ c (String.◌∷◌ d s)

pub trim_right : String → String
trim_right String.[] = String.[]
trim_right (String.◌∷◌ c s) = keep_char c (trim_right s)

unfoldable pub trim_space : String → String
unfolding trim_left trim_right
trim_space s = trim_right (trim_left s)

-- Membership in a Go slice of strings.
abbrev pub contains_string : List String → String → Bool
contains_string [] want = false
contains_string (v ∷ vs) want = if v == want then true else contains_string vs want

-- No text of a list comes twice.
abbrev pub no_repeats : List String → Bool
no_repeats [] = true
no_repeats (v ∷ vs) = not (contains_string vs v) && no_repeats vs

-- `strings.ToLower`, on what can give an ASCII letter: the capitals, the Kelvin sign and the dotted
-- capital I. Other characters are kept.
abbrev lower_table : List (ℕ × Char)
lower_table =
    (65, "a")
    ∷ (66, "b")
    ∷ (67, "c")
    ∷ (68, "d")
    ∷ (69, "e")
    ∷ (70, "f")
    ∷ (71, "g")
    ∷ (72, "h")
    ∷ (73, "i")
    ∷ (74, "j")
    ∷ (75, "k")
    ∷ (76, "l")
    ∷ (77, "m")
    ∷ (78, "n")
    ∷ (79, "o")
    ∷ (80, "p")
    ∷ (81, "q")
    ∷ (82, "r")
    ∷ (83, "s")
    ∷ (84, "t")
    ∷ (85, "u")
    ∷ (86, "v")
    ∷ (87, "w")
    ∷ (88, "x")
    ∷ (89, "y")
    ∷ (90, "z")
    ∷ (0x212a, "k")
    ∷ (0x130, "i")
    ∷ []

lower_char : List (ℕ × Char) → Char → Char
lower_char [] c = c
lower_char ((n, d) ∷ t) c = let rest = lower_char t c in if eqb (code c) n then d else rest

unfoldable pub to_lower : String → String
unfolding lower_char
to_lower String.[] = String.[]
to_lower (String.◌∷◌ c s) = String.◌∷◌ (lower_char lower_table c) (to_lower s)

-- `hex.EncodeToString`.
abbrev hex_table : List (ℕ × Char)
hex_table =
    (0, "0")
    ∷ (1, "1")
    ∷ (2, "2")
    ∷ (3, "3")
    ∷ (4, "4")
    ∷ (5, "5")
    ∷ (6, "6")
    ∷ (7, "7")
    ∷ (8, "8")
    ∷ (9, "9")
    ∷ (10, "a")
    ∷ (11, "b")
    ∷ (12, "c")
    ∷ (13, "d")
    ∷ (14, "e")
    ∷ []

hex_digit : List (ℕ × Char) → ℕ → Char
hex_digit [] n = "f"
hex_digit ((m, d) ∷ t) n = let rest = hex_digit t n in if eqb n m then d else rest

unfoldable pub hex_encode : List ℕ → String
unfolding hex_digit
hex_encode [] = ""
hex_encode (b ∷ bs) =
    String.◌∷◌ (hex_digit hex_table (b / 16))
      (String.◌∷◌ (hex_digit hex_table (b % 16)) (hex_encode bs))

-- `strconv.Itoa` of a number that is not negative; `n + 1` rounds are enough, since each divides by
-- ten.
itoa_onto : ℕ → ℕ → String → String
itoa_onto zero n acc = acc
itoa_onto (suc fuel) n acc =
    let acc' = String.◌∷◌ (hex_digit hex_table (n % 10)) acc in
    let rest = itoa_onto fuel (n / 10) acc' in if ltb n 10 then acc' else rest

unfoldable pub itoa : ℕ → String
unfolding itoa_onto hex_digit
itoa n = itoa_onto (n + 1) n ""

itoa_test : itoa 2026 ≡ "2026"
unfolding itoa
itoa_test = refl

lower_test : to_lower "Yes NO" ≡ "yes no"
unfolding to_lower
lower_test = refl

hex_test : hex_encode (255 ∷ 16 ∷ []) ≡ "ff10"
unfolding hex_encode
hex_test = refl

trim_test : trim_space "  a b \n" ≡ "a b"
unfolding trim_space
trim_test = refl
