-- ===== src/GitStore/Checks.antt =====
-- What the checks of a request let through (git-store/src/git_http.rs, web.rs).
use janitor.Base.{
  ◌≡◌, refl, ap, sym, ◌∙◌, ◌⊎◌, inl, inr, Option, none, some, [], ◌∷◌, true, false, arith, Outcome,
  ok, err, panic, Bool-cases, Option-cases, ◌>>=◌,
}
use janitor.Identifiers.{codes, is_valid_name}
use janitor.GitStore.Texts.{Text, text_eq, starts_with, contains_text, split, join}
use janitor.GitStore.Paths.{
  GitStoreError, strip_branch_segment, AuthContext, validate_git_service, validate_git_command,
}
use janitor.GitStore.Backend.{
  AppRole, admin, public, GitRequest, GitEnvironment, credentials, is_worker_request,
  worker_context, extract_auth_context, parse_codebase, resolve, path_trimmed,
}

-- A chain that succeeds has a first part that does.
pub bind-ok :
    {E A B : Type 0} (o : Outcome E A) (f : A → Outcome E B) (b : B)
    → (o >>= f) ≡ ok b
    → (a : A) × (o ≡ ok a) × (f a ≡ ok b)
bind-ok (ok a) f b e = (a, refl, e)
bind-ok (err x) f b e = absurd (cc e)
bind-ok panic f b e = absurd (cc e)

-- The caller is let in by the admin application, or names a worker with its password.
abbrev pub IsWriter : GitEnvironment → GitRequest → Type 0
IsWriter env r =
    (env.role ≡ admin)
    ⊎ ((user : Text) × (password : Text) × (name : Text) × (credentials env r.headers
          ≡ some (user, password))
        × (env.is_worker user password ≡ ok (some name)))

validated_service :
    (auth : AuthContext) (u : Unit {0})
    → validate_git_service (codes "git-receive-pack") auth ≡ ok u
    → auth.allow_writes ≡ true
unfolding validate_git_service text_eq
validated_service auth u e = ground (arith, e)

-- What the check of the command lets through.
pub record IsValidated (service : Option Text) (path : Text) (auth : AuthContext) : Type 0 where
  pub no_parent : contains_text (46 ∷ 46 ∷ []) path ≡ false
  pub relative : starts_with (47 ∷ []) path ≡ false
  pub writes : service ≡ some (codes "git-receive-pack") → auth.allow_writes ≡ true

pub validate_git_command-IsValidated :
    (service : Option Text) (path : Text) (auth : AuthContext) (u : Unit {0})
    → validate_git_command service path auth ≡ ok u
    → IsValidated service path auth
unfolding validate_git_command
validate_git_command-IsValidated none path auth u e = record {
  no_parent = ground (arith, e);
  relative = ground (arith, e);
  writes = λ k. absurd (cc k);
}
validate_git_command-IsValidated (some service) path auth u e = record {
  no_parent = ground (arith, e);
  relative = ground (arith, e);
  writes = λ k.
      let same : service ≡ codes "git-receive-pack" = cc k in
      let asked : validate_git_service service auth ≡ ok u = ground (arith, e) in
      validated_service auth u (ap (λ t. validate_git_service t auth) (sym same) ∙ asked);
}

worker_context-writes :
    (o : Outcome GitStoreError (Option Text)) (auth : AuthContext)
    → (o >>= λ name. ok (worker_context name)) ≡ ok auth
    → auth.allow_writes ≡ true
    → (name : Text) × (o ≡ ok (some name))
unfolding worker_context
worker_context-writes (ok none) auth e w = absurd (cc (e, w))
worker_context-writes (ok (some name)) auth e w = (name, refl)
worker_context-writes (err x) auth e w = absurd (cc e)
worker_context-writes panic auth e w = absurd (cc e)

is_worker_request-credentials :
    (env : GitEnvironment) (r : GitRequest) (name : Text)
    → is_worker_request env r.headers ≡ ok (some name)
    → IsWriter env r
unfolding is_worker_request
is_worker_request-credentials env r name e = elim (Option-cases (credentials env r.headers)) [
  | inl n ↦ absurd (cc (n, e))
  | inr ((user, password), c) ↦ inr (
    user,
    password,
    name,
    c,
    let asked : is_worker_request env r.headers ≡ env.is_worker user password =
          rw (is_worker_request, c) refl in
        sym asked ∙ e,
  )
]

pub extract_auth_context-IsWriter :
    (env : GitEnvironment) (r : GitRequest) (auth : AuthContext) (role : AppRole)
    → env.role ≡ role
    → extract_auth_context env r.headers ≡ ok auth
    → auth.allow_writes ≡ true
    → IsWriter env r
unfolding extract_auth_context worker_context is_worker_request
extract_auth_context-IsWriter env r auth admin p e w = inl p
extract_auth_context-IsWriter env r auth public p e w =
    let asked : extract_auth_context env r.headers
        ≡ (is_worker_request env r.headers >>= λ name. ok (worker_context name)) =
      rw p refl in
    let found = worker_context-writes (is_worker_request env r.headers) auth (sym asked ∙ e) w in
    is_worker_request-credentials env r found.0 found.1

parse_codebase-named :
    (name codebase : Text) → parse_codebase name ≡ ok codebase → is_valid_name codebase ≡ true
unfolding parse_codebase
parse_codebase-named name codebase e = elim (Bool-cases (is_valid_name name)) [
  | inl v ↦ let same : name ≡ codebase = ground (arith, e, v) in rw⁻¹ same v
  | inr v ↦ absurd (cc (v, e))
]

abbrev pair_with : Text → Text → Outcome GitStoreError (Text × Text)
pair_with path c = ok (c, join (split 47 (path_trimmed path)).1)

-- The codebase that a path is resolved to has a valid name.
pub resolve-named :
    (path codebase subpath : Text)
    → resolve path ≡ ok (codebase, subpath)
    → is_valid_name codebase ≡ true
unfolding resolve
resolve-named path codebase subpath e =
    let first = (split 47 (path_trimmed path)).0 in
    elim (Bool-cases (text_eq first [])) [
      | inl v ↦ absurd (cc (v, e))
      | inr v ↦
          let parsed : (parse_codebase (strip_branch_segment first) >>= pair_with path)
              ≡ ok (codebase, subpath) =
            let ran : resolve path
                ≡ (parse_codebase (strip_branch_segment first) >>= pair_with path) =
              rw (resolve, v) refl in
            sym ran ∙ e in
          let found =
            bind-ok (parse_codebase (strip_branch_segment first)) (pair_with path)
              (codebase, subpath) parsed in
          let same : found.0 ≡ codebase = cc found.2 in
          rw⁻¹ same (parse_codebase-named (strip_branch_segment first) found.0 found.1)
    ]
