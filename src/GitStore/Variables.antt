-- ===== src/GitStore/Variables.antt =====
-- The variables that git is started with (git-store/src/git_http.rs).
use janitor.Base.{
  ◌≡◌, refl, Option, none, some, List, [], ◌∷◌, true, false, arith, Bool-cases, inl, inr,
}
use janitor.Identifiers.{codes}
use janitor.GitStore.Texts.{Text, text_eq, starts_with}
use janitor.GitStore.Paths.{is_hop_by_hop}
use janitor.GitStore.Backend.{
  GitRequest, GitEnvironment, Variables, variable, set_variable, remove_variable, http_name,
  forward_request_headers, own_variables, is_post, all_variables,
}

text_eq→same : (a b : Text) → text_eq a b ≡ true → a ≡ b
unfolding text_eq
text_eq→same [] [] e = refl
text_eq→same [] (d ∷ b) e = absurd (cc e)
text_eq→same (c ∷ a) [] e = absurd (cc e)
text_eq→same (c ∷ a) (d ∷ b) e =
    let rest : text_eq a b ≡ true = ground (arith, e) in
    let own : c ≡ d = ground (arith, e) in rw (own, text_eq→same a b rest) refl

variable-set_variable :
    (written read value : Text) (vars : Variables)
    → text_eq written read ≡ false
    → variable read (set_variable written value vars) ≡ variable read vars
unfolding variable set_variable
variable-set_variable written read value [] d = rw d refl
variable-set_variable written read value ((name, old) ∷ rest) d =
    elim (Bool-cases (text_eq name written)) [
      | inl e ↦
          let other : text_eq name read ≡ false = rw (text_eq→same name written e) d in
          rw (e, other) refl
      | inr e ↦ rw (e, variable-set_variable written read value rest d) refl
    ]

variable-remove_variable :
    (removed read : Text) (vars : Variables)
    → text_eq removed read ≡ false
    → variable read (remove_variable removed vars) ≡ variable read vars
unfolding variable remove_variable
variable-remove_variable removed read [] d = refl
variable-remove_variable removed read ((name, old) ∷ rest) d =
    elim (Bool-cases (text_eq name removed)) [
      | inl e ↦
          let other : text_eq name read ≡ false = rw (text_eq→same name removed e) d in
          rw (e, other, variable-remove_variable removed read rest d) refl
      | inr e ↦ rw (e, variable-remove_variable removed read rest d) refl
    ]

h_differs : (a read : Text) → starts_with (72 ∷ []) read ≡ false → text_eq (72 ∷ a) read ≡ false
unfolding starts_with text_eq
h_differs a [] d = refl
h_differs a (c ∷ read) d = ground (arith, d)

-- A forwarded header replaces no variable whose name does not start with "H".
variable-forward_request_headers :
    (read : Text) (headers : List (Text × Option Text)) (vars : Variables)
    → starts_with (72 ∷ []) read ≡ false
    → variable read (forward_request_headers headers vars) ≡ variable read vars
unfolding forward_request_headers http_name
variable-forward_request_headers read [] vars d = refl
variable-forward_request_headers read ((name, none) ∷ rest) vars d =
    variable-forward_request_headers read rest vars d
variable-forward_request_headers read ((name, some value) ∷ rest) vars d =
    elim (Bool-cases (is_hop_by_hop name)) [
      | inl e ↦ rw e (variable-forward_request_headers read rest vars d)
      | inr e ↦
          rw
            (
              e,
              variable-forward_request_headers read rest (set_variable (http_name name) value vars)
                  d,
            )
            (variable-set_variable (http_name name) read value vars (h_differs _ read d))
    ]

-- Whatever the headers are, a variable that does not start with "H" is the handler's own.
pub variable-all_variables :
    (env : GitEnvironment) (r : GitRequest) (codebase subpath read : Text)
    → starts_with (72 ∷ []) read ≡ false
    → variable read (all_variables env r codebase subpath)
      ≡ variable read (own_variables env r codebase subpath)
unfolding all_variables
variable-all_variables env r codebase subpath read d =
    let forwarded =
      variable-forward_request_headers read r.headers (own_variables env r codebase subpath) d in
    elim (Bool-cases (is_post r.method)) [
      | inl e ↦ rw (e, forwarded) refl
      | inr e ↦
          let kept =
            variable-remove_variable (codes "HTTP_CONTENT_ENCODING") read
              (forward_request_headers r.headers (own_variables env r codebase subpath))
              (h_differs _ read d) in
          rw (e, kept, forwarded) refl
    ]
