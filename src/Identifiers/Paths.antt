-- ===== src/Identifiers/Paths.antt =====
-- Identifiers as parts of paths (types/src/identifiers.rs).
use janitor.Base.{ℕ, ◌≡◌, refl, List, [], ◌∷◌, Bool, true, false, ◌&&◌, ◌||◌, ◌==◌, arith, all}
use janitor.Identifiers.{
  is_ascii_lowercase, is_ascii_uppercase, is_ascii_digit, is_ascii_control, is_name_char,
  is_valid_name, is_id_char, is_valid_id, is_dots, is_path_char, is_valid_log_filename,
}

all-weaken :
    (p q : ℕ → Bool)
    → ((c : ℕ) → p c ≡ true → q c ≡ true)
    → (cs : List ℕ) → all p cs ≡ true
    → all q cs ≡ true
all-weaken p q f [] e = refl
all-weaken p q f (c ∷ rest) e = ground (arith, e, f c, all-weaken p q f rest)

id_char_path : (c : ℕ) → is_id_char c ≡ true → is_path_char c ≡ true
unfolding is_id_char is_path_char is_ascii_lowercase is_ascii_uppercase is_ascii_digit
    is_ascii_control
id_char_path c e = ground (arith, e)

name_char_path : (c : ℕ) → is_name_char c ≡ true → is_path_char c ≡ true
unfolding is_name_char is_path_char is_ascii_lowercase is_ascii_digit is_ascii_control
name_char_path c e = ground (arith, e)

first_char :
    (c : ℕ)
    → (is_ascii_lowercase c || is_ascii_digit c) ≡ true
    → (is_path_char c ≡ true) × ((c == 46) ≡ false)
unfolding is_path_char is_ascii_lowercase is_ascii_digit is_ascii_control
first_char c e = (ground (arith, e), ground (arith, e))

and_left : (a b : Bool) → (a && b) ≡ true → a ≡ true
and_left a b e = ground (arith, e)

and_right : (a b : Bool) → (a && b) ≡ true → b ≡ true
and_right a b e = ground (arith, e)

-- The name of a codebase or campaign is a single component of a path: it is not "." or "..", and has
-- neither a slash nor a control character.
pub name_is_one_component :
    (text : List ℕ) → is_valid_name text ≡ true → is_valid_log_filename text ≡ true
unfolding is_valid_name is_valid_log_filename is_dots
name_is_one_component [] e = absurd (cc e)
name_is_one_component (c ∷ []) e = absurd (cc e)
name_is_one_component (c ∷ d ∷ []) e =
    let start = first_char c (and_left _ (all is_name_char (d ∷ [])) e) in
    let later =
      all-weaken is_name_char is_path_char name_char_path (d ∷ [])
        (and_right (is_ascii_lowercase c || is_ascii_digit c) _ e) in
    ground (arith, start.0, start.1, later)
name_is_one_component (c ∷ d ∷ x ∷ rest) e =
    let start = first_char c (and_left _ (all is_name_char (d ∷ x ∷ rest)) e) in
    let later =
      all-weaken is_name_char is_path_char name_char_path (d ∷ x ∷ rest)
        (and_right (is_ascii_lowercase c || is_ascii_digit c) _ e) in
    rw start.0 later

-- So is the id of a run, a change set or a publish attempt.
pub id_is_one_component :
    (text : List ℕ) → is_valid_id text ≡ true → is_valid_log_filename text ≡ true
unfolding is_valid_id is_valid_log_filename is_dots is_id_char is_ascii_lowercase is_ascii_uppercase
    is_ascii_digit
id_is_one_component [] e = absurd (cc e)
id_is_one_component (c ∷ []) e =
    let all_path = all-weaken is_id_char is_path_char id_char_path (c ∷ []) e in
    ground (arith, all_path, e)
id_is_one_component (c ∷ d ∷ []) e =
    let all_path = all-weaken is_id_char is_path_char id_char_path (c ∷ d ∷ []) e in
    ground (arith, all_path, e)
id_is_one_component (c ∷ d ∷ x ∷ rest) e =
    all-weaken is_id_char is_path_char id_char_path (c ∷ d ∷ x ∷ rest) e
