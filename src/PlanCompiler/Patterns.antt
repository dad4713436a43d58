-- ===== src/PlanCompiler/Patterns.antt =====
-- The regular expressions of execution_plan.go as functions on the code points, and the tests of
-- package strings that it uses. A text is its code points.
use Prim.Native.Char.{Char, code}
use Prim.Native.String.{String, count}
use sync_bridge.Base.{
  ℕ, Bool, false, true, leb, ◌||◌, ◌==◌, ◌&&◌, if◌then◌else◌, Option, nat_keyed, string_keyed, ◌-◌,
  none, some,
}

unfoldable pub any_char : (ℕ → Bool) → String → Bool
any_char test String.[] = false
any_char test (String.◌∷◌ c s) = test (code c) || any_char test s

unfoldable pub all_chars : (ℕ → Bool) → String → Bool
all_chars test String.[] = true
all_chars test (String.◌∷◌ c s) = test (code c) && all_chars test s

abbrev pub first_char : (ℕ → Bool) → String → Bool
first_char test String.[] = false
first_char test (String.◌∷◌ c s) = test (code c)

abbrev pub between : ℕ → ℕ → ℕ → Bool
between low high c = leb low c && leb c high

abbrev pub is_digit : ℕ → Bool
is_digit c = between b'0' b'9' c

abbrev pub is_letter : ℕ → Bool
is_letter c = between b'a' b'z' c || between b'A' b'Z' c

abbrev pub is_word : ℕ → Bool
is_word c = is_letter c || is_digit c || c == b'_'

-- `^[A-Za-z_][A-Za-z0-9_]*$`
unfoldable pub is_environment_name : String → Bool
is_environment_name s = first_char (λ c. is_letter c || c == b'_') s && all_chars is_word s

abbrev pub is_account_char : ℕ → Bool
is_account_char c = is_word c || c == b'.' || c == b'-'

-- The characters behind the first, with one `$` at the end at most.
abbrev pub account_rest : String → Bool
account_rest String.[] = true
account_rest (String.◌∷◌ c s) =
    (is_account_char (code c) && account_rest s) || (code c == b'$' && s == "")

-- `^[A-Za-z_][A-Za-z0-9_.-]*[$]?$`
unfoldable pub is_account_name : String → Bool
is_account_name String.[] = false
is_account_name (String.◌∷◌ c s) = (is_letter (code c) || code c == b'_') && account_rest s

abbrev pub is_run_char : ℕ → Bool
is_run_char c = is_word c || c == b'.' || c == b':' || c == b'-'

-- `^[A-Za-z0-9][A-Za-z0-9_.:-]{0,127}$`
unfoldable pub is_run_id : String → Bool
is_run_id s =
    first_char (λ c. is_letter c || is_digit c) s && all_chars is_run_char s && leb (count s) 128

-- `^[A-Za-z0-9][A-Za-z0-9_-]{0,63}$`
unfoldable pub is_instance_id : String → Bool
is_instance_id s =
    first_char (λ c. is_letter c || is_digit c) s
    && all_chars (λ c. is_word c || c == b'-') s
    && leb (count s) 64

-- A letter of either case; the Kelvin sign folds to k as well.
abbrev pub folds : ℕ → ℕ → Bool
folds lower c = c == lower || c == lower - 32 || (lower == b'k' && c == 8490)

abbrev pub is_unit : ℕ → Bool
is_unit c =
    folds b'k' c || folds b'm' c || folds b'g' c || folds b't' c || folds b'p' c || folds b'e' c

-- `b$`, `(i?b)?$`, `[kmgtpe]?(i?b)?$`, `[0-9]*` and it, `(\.[0-9]+)?` and it: the ends of the last pattern.
abbrev pub only_b : String → Bool
only_b String.[] = false
only_b (String.◌∷◌ c s) = folds b'b' (code c) && s == ""

abbrev pub byte_end : String → Bool
byte_end String.[] = true
byte_end (String.◌∷◌ c s) = (folds b'b' (code c) && s == "") || (folds b'i' (code c) && only_b s)

abbrev pub unit_end : String → Bool
unit_end String.[] = true
unit_end (String.◌∷◌ c s) = if is_unit (code c) then byte_end s else byte_end (String.◌∷◌ c s)

abbrev pub fraction_rest : String → Bool
fraction_rest String.[] = true
fraction_rest (String.◌∷◌ c s) =
    let rest = fraction_rest s in if is_digit (code c) then rest else unit_end (String.◌∷◌ c s)

abbrev pub fraction : String → Bool
fraction s = first_char is_digit s && fraction_rest s

abbrev pub number_rest : String → Bool
number_rest String.[] = true
number_rest (String.◌∷◌ c s) =
    let rest = number_rest s in
    if is_digit (code c)
    then rest
    else if code c == b'.'
    then fraction s
    else unit_end (String.◌∷◌ c s)

-- `(?i)^[0-9]+(?:\.[0-9]+)?[kmgtpe]?(?:i?b)?$`
unfoldable pub is_bandwidth_limit : String → Bool
is_bandwidth_limit s = first_char is_digit s && number_rest s

abbrev pub nul_char : ℕ → Bool
nul_char c = c == 0

abbrev pub has_nul : String → Bool
has_nul s = any_char nul_char s

-- strings.TrimSuffix with a suffix of one character
unfoldable pub trim_last : ℕ → String → String
trim_last suffix String.[] = String.[]
trim_last suffix (String.◌∷◌ c s) =
    if code c == suffix && s == "" then String.[] else String.◌∷◌ c (trim_last suffix s)

abbrev pub ends_with : ℕ → String → Bool
ends_with suffix String.[] = false
ends_with suffix (String.◌∷◌ c s) = (code c == suffix && s == "") || ends_with suffix s

abbrev pub behind_char : Char → Option (String × String) → Option (String × String)
behind_char c none = none
behind_char c (some (name, value)) = some (String.◌∷◌ c name, value)

-- strings.Cut: the text before the first such character, and the one behind it.
unfoldable pub cut : ℕ → String → Option (String × String)
cut separator String.[] = none
cut separator (String.◌∷◌ c s) =
    let rest = cut separator s in
    if code c == separator then some (String.[], s) else behind_char c rest
