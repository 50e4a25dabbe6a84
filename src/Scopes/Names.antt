-- ===== src/Scopes/Names.antt =====
-- The texts of project ids: `normalizeProjectId` and `deriveProjectId` of src/scope-resolver.ts. A text
-- is read by code points; the regular expressions of the source read UTF-16 units, and a character of
-- two units becomes two dashes there, which the next replacement makes one.
pub mod Safe
use agent_recall.Common.{
  ℕ, suc, zero, ◌-◌, String, Bool, true, false, ◌&&◌, ◌||◌, not, Option, none, some, List, [], ◌∷◌,
  leb, ◌==◌, str_eq, if◌then◌else◌,
}
use Prim.Native.Char.{Char, char, code}
use Prim.Native.String

abbrev pub dash : Char
dash = char 45 tt

abbrev pub is_alphanumeric : ℕ → Bool
is_alphanumeric n =
    (leb b'A' n && leb n b'Z') || (leb b'a' n && leb n b'z') || (leb b'0' n && leb n b'9')

-- `[A-Za-z0-9_.-]`
abbrev pub is_safe : ℕ → Bool
is_safe n = is_alphanumeric n || n == b'_' || n == b'.' || n == b'-'

abbrev pub safe_char : Char → Char
safe_char c = if is_safe (code c) then c else dash

-- `replace(/[^A-Za-z0-9_.-]/g, "-")`
unfoldable pub replace_unsafe : String → String
replace_unsafe String.[] = ""
replace_unsafe (String.◌∷◌ c text) = String.◌∷◌ (safe_char c) (replace_unsafe text)

abbrev pub starts_with_dash : String → Bool
starts_with_dash String.[] = false
starts_with_dash (String.◌∷◌ c text) = code c == b'-'

-- `replace(/-+/g, "-")`
unfoldable pub join_dashes : String → String
join_dashes String.[] = ""
join_dashes (String.◌∷◌ c text) =
    let after = join_dashes text in
    if code c == b'-' && starts_with_dash after then after else String.◌∷◌ c after

-- `slice(0, n)`
unfoldable pub first_chars : ℕ → String → String
first_chars zero text = ""
first_chars (suc n) String.[] = ""
first_chars (suc n) (String.◌∷◌ c text) = String.◌∷◌ c (first_chars n text)

-- some character satisfies the test
unfoldable pub any_char : (ℕ → Bool) → String → Bool
any_char p String.[] = false
any_char p (String.◌∷◌ c text) = p (code c) || any_char p text

-- `endsWith(".")`
unfoldable pub ends_with_dot : String → Bool
ends_with_dot String.[] = false
ends_with_dot (String.◌∷◌ c String.[]) = code c == b'.'
ends_with_dot (String.◌∷◌ c (String.◌∷◌ d text)) = ends_with_dot (String.◌∷◌ d text)

-- `split(".")[0]`
unfoldable pub before_dot : String → String
before_dot String.[] = ""
before_dot (String.◌∷◌ c text) =
    let rest = before_dot text in if code c == b'.' then "" else String.◌∷◌ c rest

-- the number of an ASCII letter in upper case
abbrev pub upper_code : ℕ → ℕ
upper_code n = if leb b'a' n && leb n b'z' then n - 32 else n

-- the text is `name`, a word of capitals, whatever its case
unfoldable pub is_word : String → String → Bool
is_word String.[] String.[] = true
is_word String.[] (String.◌∷◌ d name) = false
is_word (String.◌∷◌ c text) String.[] = false
is_word (String.◌∷◌ c text) (String.◌∷◌ d name) = upper_code (code c) == code d && is_word text name

-- the text is `name` and one digit from 1 to 9
unfoldable pub is_numbered : String → String → Bool
is_numbered (String.◌∷◌ c String.[]) String.[] = leb b'1' (code c) && leb (code c) b'9'
is_numbered (String.◌∷◌ c text) (String.◌∷◌ d name) =
    upper_code (code c) == code d && is_numbered text name
is_numbered _ _ = false

-- `WINDOWS_RESERVED_BASENAMES`
unfoldable pub is_reserved : String → Bool
unfolding is_word is_numbered
is_reserved name =
    is_word name "CON"
    || is_word name "PRN"
    || is_word name "AUX"
    || is_word name "NUL"
    || is_numbered name "COM"
    || is_numbered name "LPT"

unfoldable pub is_windows_unsafe : String → Bool
unfolding ends_with_dot before_dot is_reserved
is_windows_unsafe id = ends_with_dot id || is_reserved (before_dot id)

-- `trim` is the platform's
module _ (trim : String → String) where
  unfoldable pub sanitize_project_id : String → String
  unfolding replace_unsafe join_dashes first_chars
  sanitize_project_id value = first_chars 96 (join_dashes (replace_unsafe (trim value)))

  unfoldable pub normalize_project_id : String → Option String
  unfolding sanitize_project_id any_char is_windows_unsafe
  normalize_project_id value =
      let sanitized = sanitize_project_id value in
      if any_char is_alphanumeric sanitized && not (is_windows_unsafe sanitized)
      then some sanitized
      else none
