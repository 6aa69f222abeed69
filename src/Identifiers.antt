-- ===== src/Identifiers.antt =====
-- types/src/identifiers.rs: which texts are names, roles, ids and log file names. A character is its
-- code point.
pub mod Paths
use Prim.Native.Char.{code}
use Prim.Native.String
use janitor.Base.{
  String, ℕ, List, [], ◌∷◌, Bool, true, false, not, ◌&&◌, ◌||◌, ◌==◌, leb, ltb, all, any,
}

-- `chars()`
abbrev pub codes : String → List ℕ
codes String.[] = []
codes (String.◌∷◌ c s) = code c ∷ codes s

unfoldable pub is_ascii_lowercase : ℕ → Bool
is_ascii_lowercase c = leb 97 c && leb c 122

unfoldable pub is_ascii_uppercase : ℕ → Bool
is_ascii_uppercase c = leb 65 c && leb c 90

unfoldable pub is_ascii_digit : ℕ → Bool
is_ascii_digit c = leb 48 c && leb c 57

unfoldable pub is_ascii_control : ℕ → Bool
is_ascii_control c = ltb c 32 || c == 127

-- A character of a name after the first: '+', '-' and '.' too.
unfoldable pub is_name_char : ℕ → Bool
is_name_char c = is_ascii_lowercase c || is_ascii_digit c || c == 43 || c == 46 || c == 45

unfoldable pub is_valid_name : List ℕ → Bool
is_valid_name [] = false
is_valid_name (c ∷ []) = false
is_valid_name (c ∷ d ∷ rest) =
    (is_ascii_lowercase c || is_ascii_digit c) && all is_name_char (d ∷ rest)

unfoldable pub is_role_char : ℕ → Bool
is_role_char c = is_ascii_lowercase c || c == 45

unfoldable pub is_valid_role : List ℕ → Bool
is_valid_role [] = false
is_valid_role (c ∷ rest) = is_ascii_lowercase c && all is_role_char rest

-- Letters, digits, '-' and '_'.
unfoldable pub is_id_char : ℕ → Bool
is_id_char c =
    is_ascii_lowercase c || is_ascii_uppercase c || is_ascii_digit c || c == 45 || c == 95

unfoldable pub is_valid_id : List ℕ → Bool
is_valid_id [] = false
is_valid_id (c ∷ rest) = all is_id_char (c ∷ rest)

-- Whether the text is ".", or "..".
unfoldable pub is_dots : List ℕ → Bool
is_dots (c ∷ []) = c == 46
is_dots (c ∷ d ∷ []) = c == 46 && d == 46
is_dots _ = false

unfoldable pub is_path_char : ℕ → Bool
is_path_char c = not (c == 47 || is_ascii_control c)

unfoldable pub is_valid_log_filename : List ℕ → Bool
is_valid_log_filename [] = false
is_valid_log_filename (c ∷ rest) = not (is_dots (c ∷ rest)) && all is_path_char (c ∷ rest)
