-- ===== src/GitStore/Texts.antt =====
-- Operations of Rust's `str` that the git store uses. A text is the list of its bytes: what it looks
-- for is ASCII, which stands for itself in UTF-8.
use janitor.Base.{
  ℕ, ◌+◌, ◌-◌, Option, none, some, List, [], ◌∷◌, ◌++◌, Bool, true, false, ◌&&◌, ◌||◌, ◌==◌, leb,
  if◌then◌else◌,
}
use janitor.Identifiers.{is_ascii_lowercase, is_ascii_uppercase, is_ascii_digit}

abbrev pub Text : Type 0
Text = List ℕ

unfoldable pub text_eq : Text → Text → Bool
text_eq [] [] = true
text_eq [] (d ∷ t) = false
text_eq (c ∷ s) [] = false
text_eq (c ∷ s) (d ∷ t) = (c == d) && text_eq s t

-- `s.starts_with(prefix)`
unfoldable pub starts_with : Text → Text → Bool
starts_with [] s = true
starts_with (p ∷ prefix) [] = false
starts_with (p ∷ prefix) (c ∷ s) = (p == c) && starts_with prefix s

-- `s.contains(needle)`
unfoldable pub contains_text : Text → Text → Bool
contains_text needle [] = starts_with needle []
contains_text needle (c ∷ s) = starts_with needle (c ∷ s) || contains_text needle s

-- `s.strip_prefix(prefix)`
unfoldable pub strip_prefix : Text → Text → Option Text
strip_prefix [] s = some s
strip_prefix (p ∷ prefix) [] = none
strip_prefix (p ∷ prefix) (c ∷ s) =
    let rest = strip_prefix prefix s in if p == c then rest else none

-- `s.find(needle).map(|i| &s[..i])`
unfoldable pub before : Text → Text → Option Text
before needle [] = if starts_with needle [] then some [] else none
before needle (c ∷ s) =
    let rest = before needle s in
    if starts_with needle (c ∷ s)
    then some []
    else elim rest [ none ↦ none | some t ↦ some (c ∷ t) ]

-- `s.split(c)`, which always has a first part.
unfoldable pub split : ℕ → Text → Text × List Text
split c [] = ([], [])
split c (d ∷ s) =
    let rest = split c s in if d == c then ([], rest.0 ∷ rest.1) else (d ∷ rest.0, rest.1)

-- `parts.join("/")`
unfoldable pub join : List Text → Text
join [] = []
join (s ∷ []) = s
join (s ∷ t ∷ rest) = s ++ 47 ∷ join (t ∷ rest)

-- `s.split_once(c)`
unfoldable pub split_once : ℕ → Text → Option (Text × Text)
split_once c [] = none
split_once c (d ∷ s) =
    let rest = split_once c s in
    if d == c then some ([], s) else elim rest [ none ↦ none | some (a, b) ↦ some (d ∷ a, b) ]

-- `s.rsplit_once(c)`
unfoldable pub rsplit_once : ℕ → Text → Option (Text × Text)
rsplit_once c [] = none
rsplit_once c (d ∷ s) = elim (rsplit_once c s) [
  | some (a, b) ↦ some (d ∷ a, b)
  | none ↦ if d == c then some ([], s) else none
]

-- `s.trim_start_matches('/')`
unfoldable pub trim_slashes : Text → Text
trim_slashes [] = []
trim_slashes (c ∷ s) = let rest = trim_slashes s in if c == 47 then rest else c ∷ s

unfoldable pub to_ascii_lowercase : Text → Text
to_ascii_lowercase [] = []
to_ascii_lowercase (c ∷ s) = (if is_ascii_uppercase c then c + 32 else c) ∷ to_ascii_lowercase s

unfoldable pub to_ascii_uppercase : Text → Text
to_ascii_uppercase [] = []
to_ascii_uppercase (c ∷ s) = (if is_ascii_lowercase c then c - 32 else c) ∷ to_ascii_uppercase s

unfoldable pub is_ascii_hexdigit : ℕ → Bool
is_ascii_hexdigit c = is_ascii_digit c || leb 65 c && leb c 70 || leb 97 c && leb c 102
