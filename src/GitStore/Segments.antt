-- ===== src/GitStore/Segments.antt =====
-- The parts of a path that the check of a git command lets through (git-store/src/git_http.rs).
use janitor.Base.{ℕ, ◌≡◌, refl, inl, inr, List, [], ◌∷◌, true, false, ◌==◌, any, arith, Bool-cases}
use janitor.GitStore.Texts.{Text, text_eq, starts_with, contains_text, split, trim_slashes}

-- No part of a text is "..".
abbrev pub NoParent : Text × List Text → Type 0
NoParent parts =
    (text_eq (46 ∷ 46 ∷ []) parts.0 ≡ false) × (any (text_eq (46 ∷ 46 ∷ [])) parts.1 ≡ false)

-- A first part that starts with a dot is the text's.
first-dot :
    (s : Text) → starts_with (46 ∷ []) (split 47 s).0 ≡ true → starts_with (46 ∷ []) s ≡ true
unfolding starts_with split
first-dot [] e = e
first-dot (c ∷ s) e = ground (arith, e)

dot_start : (s : Text) → text_eq (46 ∷ []) s ≡ true → starts_with (46 ∷ []) s ≡ true
unfolding starts_with text_eq
dot_start [] e = e
dot_start (c ∷ s) e = ground (arith, e)

second-dot :
    (c : ℕ) (s : Text)
    → contains_text (46 ∷ 46 ∷ []) (c ∷ s) ≡ false
    → text_eq (46 ∷ 46 ∷ []) (c ∷ (split 47 s).0) ≡ false
unfolding contains_text starts_with text_eq
second-dot c s e = elim (Bool-cases (text_eq (46 ∷ []) (split 47 s).0)) [
  | inl t ↦
      let dot = first-dot s (dot_start (split 47 s).0 t) in
      let c_not_dot : (46 == c) ≡ false = ground (arith, e, dot) in rw c_not_dot refl
  | inr t ↦ rw t (ground arith)
]

pub split-NoParent : (s : Text) → contains_text (46 ∷ 46 ∷ []) s ≡ false → NoParent (split 47 s)
unfolding contains_text starts_with split text_eq
split-NoParent [] e = (refl, refl)
split-NoParent (c ∷ s) e =
    let later = split-NoParent s (ground (arith, e)) in
    let own = second-dot c s e in
    elim (Bool-cases (c == 47)) [
      | inl h ↦ rw h (refl, ground (arith, later.0, later.1))
      | inr h ↦ rw h (own, later.1)
    ]

pub trim_relative : (s : Text) → starts_with (47 ∷ []) s ≡ false → trim_slashes s ≡ s
unfolding starts_with trim_slashes
trim_relative [] e = refl
trim_relative (c ∷ s) e = ground (arith, e)
