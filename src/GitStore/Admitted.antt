-- ===== src/GitStore/Admitted.antt =====
-- The requests that git receives, and what it is told (git-store/src/git_http.rs).
use janitor.Base.{
  ◌≡◌, refl, ap, sym, ◌∙◌, inl, inr, some, List, ◌∷◌, Bool, true, false, Outcome, ok, err, panic,
  Bool-cases, Outcome-cases, ◌>>=◌,
}
use janitor.Identifiers.{codes, is_valid_name}
use janitor.GitStore.Texts.{Text, text_eq, starts_with, split}
use janitor.GitStore.Paths.{GitStoreError, is_git_http_subpath, AuthContext, validate_git_command}
use janitor.GitStore.Backend.{
  GitRequest, GitEnvironment, extract_auth_context, resolve, BackendCall, variable, own_variables,
  all_variables, open_or_create, serve, git_backend,
}
use janitor.GitStore.Segments.{NoParent, split-NoParent, trim_relative}
use janitor.GitStore.Checks.{
  bind-ok, IsWriter, validate_git_command-IsValidated, extract_auth_context-IsWriter, resolve-named,
}
use janitor.GitStore.Variables.{variable-all_variables}

-- What holds of a request that reaches git.
pub record IsAdmitted (env : GitEnvironment) (r : GitRequest) (call : BackendCall) : Type 0 where
  pub resolved : resolve r.path ≡ ok (call.codebase, call.subpath)
  pub known : env.codebase_exists call.codebase ≡ ok true
  pub named : is_valid_name call.codebase ≡ true
  pub listed : is_git_http_subpath r.method call.subpath ≡ true
  pub below : NoParent (split 47 call.subpath)
  pub writer : call.receive_pack ≡ true → IsWriter env r
  pub push_allowed :
      env.service_of r.query ≡ some (codes "git-receive-pack") → call.receive_pack ≡ true
  pub told_path : variable (codes "PATH_INFO") call.variables ≡ some (47 ∷ call.subpath)

-- What `serve` answers for a known codebase.
abbrev answer :
    GitEnvironment
    → GitRequest
    → Text
    → Text
    → AuthContext
    → Unit {0}
    → Outcome GitStoreError BackendCall
answer env r codebase subpath auth u =
    validate_git_command (env.service_of r.query) subpath auth >>= λ v. ok (record {
      receive_pack = auth.allow_writes;
      codebase = codebase;
      subpath = subpath;
      variables = all_variables env r codebase subpath;
    })

validated-IsAdmitted :
    (env : GitEnvironment) (r : GitRequest) (codebase subpath : Text) (auth : AuthContext)
    (u : Unit {0}) (call : BackendCall)
    → resolve r.path ≡ ok (codebase, subpath)
    → is_git_http_subpath r.method subpath ≡ true
    → extract_auth_context env r.headers ≡ ok auth
    → env.codebase_exists codebase ≡ ok true
    → answer env r codebase subpath auth u ≡ ok call
    → IsAdmitted env r call
unfolding own_variables variable text_eq starts_with
validated-IsAdmitted env r codebase subpath auth u call resolved listed allowed known e =
    let passed = bind-ok (validate_git_command (env.service_of r.query) subpath auth) _ call e in
    let checked =
      validate_git_command-IsValidated (env.service_of r.query) subpath auth passed.0 passed.1 in
    let own = variable-all_variables env r codebase subpath (codes "PATH_INFO") refl in
    let trimmed = trim_relative subpath checked.relative in
    let same : (record {
      receive_pack = auth.allow_writes;
      codebase = codebase;
      subpath = subpath;
      variables = all_variables env r codebase subpath;
    })
        ≡ call =
      cc passed.2 in
    rw⁻¹ same (record {
      resolved = resolved;
      known = known;
      named = resolve-named r.path codebase subpath resolved;
      listed = listed;
      below = split-NoParent subpath checked.no_parent;
      writer = extract_auth_context-IsWriter env r auth env.role refl allowed;
      push_allowed = checked.writes;
      told_path = own ∙ ap (λ t. some (47 ∷ t)) trimmed;
    })

serve-IsAdmitted :
    (env : GitEnvironment) (r : GitRequest) (repositories : List Text) (codebase subpath : Text)
    (auth : AuthContext) (call : BackendCall) (o : Outcome GitStoreError Bool)
    → env.codebase_exists codebase ≡ o
    → resolve r.path ≡ ok (codebase, subpath)
    → is_git_http_subpath r.method subpath ≡ true
    → extract_auth_context env r.headers ≡ ok auth
    → (serve env r repositories codebase subpath auth).1 ≡ ok call
    → IsAdmitted env r call
unfolding serve
serve-IsAdmitted env r repositories codebase subpath auth call (ok true) q resolved listed allowed
      e =
    let opened = open_or_create env repositories codebase in
    let ran : (serve env r repositories codebase subpath auth).1
        ≡ (opened.1 >>= answer env r codebase subpath auth) =
      rw (serve, q) refl in
    let made = bind-ok opened.1 (answer env r codebase subpath auth) call (sym ran ∙ e) in
    validated-IsAdmitted env r codebase subpath auth made.0 call resolved listed allowed q made.2
serve-IsAdmitted env r repositories codebase subpath auth call (ok false) q resolved listed allowed
      e =
    absurd (cc (q, e))
serve-IsAdmitted env r repositories codebase subpath auth call (err x) q resolved listed allowed e =
    absurd (cc (q, e))
serve-IsAdmitted env r repositories codebase subpath auth call panic q resolved listed allowed e =
    absurd (cc (q, e))

-- Whenever a request reaches git, its path was read as the codebase and the path below it that git is
-- called for; the codebase has a valid name and is in the table; the path below is one of git's HTTP
-- protocol for the method of the request, has no part "..", and is what git is told as `PATH_INFO`
-- whatever the headers are. Pushes are enabled only for the admin application or for a worker with its
-- password, and always if the query names the service `git-receive-pack`.
pub git_backend-IsAdmitted :
    (env : GitEnvironment) (r : GitRequest) (repositories : List Text) (call : BackendCall)
    → (git_backend env r repositories).1 ≡ ok call
    → IsAdmitted env r call
unfolding git_backend
git_backend-IsAdmitted env r repositories call e = elim (Outcome-cases (resolve r.path)) [
  | inr (inl (x, q)) ↦ absurd (cc (q, e))
  | inr (inr q) ↦ absurd (cc (q, e))
  | inl ((codebase, subpath), q) ↦ elim (Bool-cases (is_git_http_subpath r.method subpath)) [
    | inr l ↦ absurd (cc (q, l, e))
    | inl l ↦ elim (Outcome-cases (extract_auth_context env r.headers)) [
      | inr (inl (x, w)) ↦ absurd (cc (q, l, w, e))
      | inr (inr w) ↦ absurd (cc (q, l, w, e))
      | inl (auth, w) ↦
          let served : (git_backend env r repositories)
              ≡ serve env r repositories codebase subpath auth =
            rw (git_backend, q, l, w) refl in
          serve-IsAdmitted env r repositories codebase subpath auth call
            (env.codebase_exists codebase) refl q l w (sym (ap (λ x. x.1) served) ∙ e)
    ]
  ]
]
