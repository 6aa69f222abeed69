-- ===== src/GitStore/Anonymous.antt =====
-- Requests without credentials for the refs of a repository (git-store/src/git_http.rs, web.rs).
use janitor.Base.{
  ◌≡◌, refl, ap, ◌∙◌, Option, none, some, List, ◌∷◌, ◌++◌, Bool, true, false, any, ok, err,
}
use janitor.Identifiers.{codes, is_valid_name}
use janitor.GitStore.Texts.{Text, text_eq, contains_text, starts_with}
use janitor.GitStore.Paths.{
  authentication_failed, into_response, get, is_git_http_subpath, AuthContext, validate_git_service,
  validate_git_command,
}
use janitor.GitStore.Routes.{is_shadowed, resolve-mount}
use janitor.GitStore.Backend.{
  AppRole, admin, public, mount, GitRequest, GitEnvironment, header, credentials, is_worker_request,
  worker_context, extract_auth_context, resolve, BackendCall, open_or_create, serve, all_variables,
  git_backend,
}

-- Only the admin application lets a caller without credentials write.
abbrev pub anonymous_writes : AppRole → Bool
anonymous_writes admin = true
anonymous_writes public = false

abbrev anonymous : AppRole → AuthContext
anonymous role = record { allow_writes = anonymous_writes role; worker_name = none }

extract_auth_context-anonymous :
    (env : GitEnvironment) (headers : List (Text × Option Text)) (role : AppRole)
    → env.role ≡ role
    → header (codes "authorization") headers ≡ none
    → extract_auth_context env headers ≡ ok (anonymous role)
unfolding extract_auth_context worker_context is_worker_request credentials
extract_auth_context-anonymous env headers admin p h = rw (extract_auth_context, p) refl
extract_auth_context-anonymous env headers public p h =
    rw (extract_auth_context, p, is_worker_request, credentials, h) refl

-- A request for the refs of an existing repository of a known codebase, without credentials.
pub record AsksRefs (env : GitEnvironment) (r : GitRequest) (repositories : List Text) (name : Text)
    : Type 0 where
  pub valid : is_valid_name name ≡ true
  pub reachable : is_shadowed env.role name ≡ false
  pub path : r.path ≡ mount env.role ++ name ++ 47 ∷ codes "info/refs"
  pub method : r.method ≡ get
  pub no_credentials : header (codes "authorization") r.headers ≡ none
  pub known : env.codebase_exists name ≡ ok true
  pub on_disk : any (text_eq name) repositories ≡ true

refs_listed : is_git_http_subpath get (codes "info/refs") ≡ true
unfolding is_git_http_subpath text_eq
refs_listed = refl

git_backend-serve :
    (env : GitEnvironment) (r : GitRequest) (repositories : List Text) (name : Text)
    → AsksRefs env r repositories name
    → git_backend env r repositories
      ≡ serve env r repositories name (codes "info/refs") (anonymous env.role)
unfolding git_backend
git_backend-serve env r repositories name a =
    let found : resolve r.path ≡ ok (name, codes "info/refs") =
      ap resolve a.path ∙ resolve-mount env.role name (codes "info/refs") a.valid a.reachable in
    let listed : is_git_http_subpath r.method (codes "info/refs") ≡ true =
      rw a.method refs_listed in
    let auth = extract_auth_context-anonymous env r.headers env.role refl a.no_credentials in
    rw (git_backend, found, listed, auth) refl

-- A request without credentials for the refs of an existing repository of a known codebase, to fetch, is
-- passed to git for that very codebase; git may then receive pushes only under the role admin.
pub fetch_served :
    (env : GitEnvironment) (r : GitRequest) (repositories : List Text) (name : Text)
    → AsksRefs env r repositories name
    → env.service_of r.query ≡ some (codes "git-upload-pack")
    → (call : BackendCall) × ((git_backend env r repositories).1 ≡ ok call)
      × (call.codebase ≡ name)
      × (call.receive_pack ≡ anonymous_writes env.role)
unfolding serve open_or_create validate_git_command validate_git_service contains_text starts_with
    text_eq
fetch_served env r repositories name a s =
    let served = git_backend-serve env r repositories name a in
    let call : BackendCall = record {
      receive_pack = anonymous_writes env.role;
      codebase = name;
      subpath = codes "info/refs";
      variables = all_variables env r name (codes "info/refs");
    } in
    let ran : (git_backend env r repositories).1 ≡ ok call =
      rw (served, serve, a.known, a.on_disk, s) refl in
    (call, ran, refl, refl)

-- On the public application, a request without credentials for the refs of an existing repository of a
-- known codebase, to push, fails with the status 401 and a challenge for credentials, and leaves the
-- repositories as they are.
pub push_refused :
    (env : GitEnvironment) (r : GitRequest) (repositories : List Text) (name : Text)
    → AsksRefs env r repositories name
    → env.role ≡ public
    → env.service_of r.query ≡ some (codes "git-receive-pack")
    → (git_backend env r repositories ≡ (repositories, err authentication_failed))
      × (into_response authentication_failed ≡ (401, true))
unfolding serve open_or_create validate_git_command validate_git_service contains_text starts_with
    text_eq into_response
push_refused env r repositories name a p s =
    let served = git_backend-serve env r repositories name a in
    (rw (served, serve, a.known, a.on_disk, s, p) refl, refl)
