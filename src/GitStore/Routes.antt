-- ===== src/GitStore/Routes.antt =====
-- The resolution of the path of a request (git-store/src/git_http.rs).
use janitor.Base.{
  ℕ, ◌≡◌, refl, ap, sym, none, List, [], ◌∷◌, ◌++◌, Bool, true, false, ◌==◌, all, arith, ok,
  Bool-cases, inl, inr,
}
use janitor.Identifiers.{codes, is_valid_name, is_name_char, is_ascii_lowercase, is_ascii_digit}
use janitor.GitStore.Texts.{
  Text, text_eq, starts_with, strip_prefix, before, split, join, trim_slashes,
}
use janitor.GitStore.Paths.{strip_branch_segment}
use janitor.GitStore.Backend.{AppRole, admin, public, mount, path_trimmed, resolve, parse_codebase}

-- A part without slashes is split off whole.
split-first :
    (a s : Text)
    → all is_name_char a ≡ true
    → split 47 (a ++ 47 ∷ s) ≡ (a, (split 47 s).0 ∷ (split 47 s).1)
unfolding split is_name_char is_ascii_lowercase is_ascii_digit
split-first [] s e = refl
split-first (c ∷ a) s e =
    let own : (c == 47) ≡ false = ground (arith, e) in
    let rest : all is_name_char a ≡ true = ground (arith, e) in rw (own, split-first a s rest) refl

join-longer : (c : ℕ) (a : Text) (parts : List Text) → join ((c ∷ a) ∷ parts) ≡ c ∷ join (a ∷ parts)
unfolding join
join-longer c a [] = refl
join-longer c a (p ∷ parts) = refl

join-split : (s : Text) → join ((split 47 s).0 ∷ (split 47 s).1) ≡ s
unfolding split join
join-split [] = refl
join-split (c ∷ s) = elim (Bool-cases (c == 47)) [
  | inl e ↦ rw (e, join-split s) (ap (λ x. x ∷ s) (sym (ground (arith, e))))
  | inr e ↦ rw (e, join-longer c (split 47 s).0 (split 47 s).1, join-split s) refl
]

differs : (p : ℕ → Bool) (m c : ℕ) → p m ≡ false → p c ≡ true → (m == c) ≡ false
differs p m c d e = elim (Bool-cases (m == c)) [
  | inl h ↦ let same : m ≡ c = ground (arith, h) in absurd (cc (d, e, same))
  | inr h ↦ h
]

-- A text of name characters contains no marker that starts with a ',' or a '%'.
before_name :
    (m : ℕ) (needle s : Text)
    → is_name_char m ≡ false
    → all is_name_char s ≡ true
    → before (m ∷ needle) s ≡ none
unfolding before starts_with
before_name m needle [] d e = refl
before_name m needle (c ∷ s) d e =
    let rest : all is_name_char s ≡ true = ground (arith, e) in
    let own : (m == c) ≡ false = differs is_name_char m c d (ground (arith, e)) in
    rw (own, before_name m needle s d rest) refl

name_chars : (s : Text) → is_valid_name s ≡ true → all is_name_char s ≡ true
unfolding is_valid_name is_name_char
name_chars [] e = refl
name_chars (c ∷ []) e = absurd (cc e)
name_chars (c ∷ d ∷ s) e = ground (arith, e)

strip_branch_segment-name : (s : Text) → is_valid_name s ≡ true → strip_branch_segment s ≡ s
unfolding strip_branch_segment is_name_char is_ascii_lowercase is_ascii_digit
strip_branch_segment-name s e =
    let comma = before_name 44 (codes "branch=") s refl (name_chars s e) in
    let upper = before_name 37 (codes "2Cbranch%3D") s refl (name_chars s e) in
    let lower = before_name 37 (codes "2cbranch%3d") s refl (name_chars s e) in
    rw (strip_branch_segment, comma, upper, lower) refl

-- A valid name other than "git" does not look like the optional prefix.
strip_git :
    (name sub : Text)
    → is_valid_name name ≡ true
    → text_eq name (codes "git") ≡ false
    → strip_prefix (codes "git/") (name ++ 47 ∷ sub) ≡ none
unfolding strip_prefix text_eq is_valid_name is_name_char is_ascii_lowercase is_ascii_digit
strip_git [] sub e d = absurd (cc e)
strip_git (c ∷ []) sub e d = absurd (cc e)
strip_git (c ∷ f ∷ []) sub e d = ground (arith, e, d)
strip_git (c ∷ f ∷ g ∷ []) sub e d = ground (arith, e, d)
strip_git (c ∷ f ∷ g ∷ h ∷ rest) sub e d = ground (arith, e, d)

trim-name : (name s : Text) → is_valid_name name ≡ true → trim_slashes (name ++ s) ≡ name ++ s
unfolding trim_slashes is_valid_name is_ascii_lowercase is_ascii_digit
trim-name [] s e = absurd (cc e)
trim-name (c ∷ []) s e = absurd (cc e)
trim-name (c ∷ d ∷ rest) s e = let own : (c == 47) ≡ false = ground (arith, e) in rw own refl

-- A name that the admin routes cannot carry: there `git/` is taken for the optional prefix.
abbrev pub is_shadowed : AppRole → Text → Bool
is_shadowed admin name = text_eq name (codes "git")
is_shadowed public name = false

path_trimmed-mount :
    (role : AppRole) (name sub : Text)
    → is_valid_name name ≡ true
    → is_shadowed role name ≡ false
    → path_trimmed (mount role ++ name ++ 47 ∷ sub) ≡ name ++ 47 ∷ sub
unfolding path_trimmed mount trim_slashes strip_prefix
path_trimmed-mount admin name sub e d =
    rw (trim-name name (47 ∷ sub) e, strip_git name sub e d) refl
path_trimmed-mount public name sub e d = refl

name_not_empty : (name : Text) → is_valid_name name ≡ true → text_eq name [] ≡ false
unfolding text_eq is_valid_name
name_not_empty [] e = absurd (cc e)
name_not_empty (c ∷ name) e = refl

-- The path that the routes of a role give a codebase with a valid name, and any path below it, is read
-- back as that codebase and that path, unless the role is admin and the codebase is called "git".
pub resolve-mount :
    (role : AppRole) (name sub : Text)
    → is_valid_name name ≡ true
    → is_shadowed role name ≡ false
    → resolve (mount role ++ name ++ 47 ∷ sub) ≡ ok (name, sub)
unfolding resolve parse_codebase
resolve-mount role name sub e d =
    rw
      (
        path_trimmed-mount role name sub e d,
        split-first name sub (name_chars name e),
        name_not_empty name e,
        strip_branch_segment-name name e,
        e,
        join-split sub,
      )
      refl
