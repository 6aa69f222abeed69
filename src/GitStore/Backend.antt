-- ===== src/GitStore/Backend.antt =====
-- git-store/src/git_http.rs, web.rs: `git_backend`, up to the start of `git http-backend`.
use janitor.Base.{
  Option, none, some, List, [], ◌∷◌, ◌++◌, map, Bool, true, false, not, ◌==◌, if◌then◌else◌, any,
  unwrap_or, is_some, Outcome, ok, err, panic, ◌>>=◌,
}
use janitor.Identifiers.{codes, is_valid_name}
use janitor.GitStore.Texts.{
  Text, text_eq, strip_prefix, split, join, split_once, trim_slashes, to_ascii_uppercase,
}
use janitor.GitStore.Paths.{
  GitStoreError, http_error, bad_request, repository_not_found, git_path_not_found, Method, get,
  post, other_method, is_git_http_subpath, strip_branch_segment, AuthContext, validate_git_command,
  is_hop_by_hop,
}

pub data AppRole : Type 0 where
  admin : AppRole
  public : AppRole

-- web.rs: what the routes of the role have before the codebase.
unfoldable pub mount : AppRole → Text
mount admin = codes "/"
mount public = codes "/git/"

-- The headers in the order of the map, each with its value when that is visible ASCII (`to_str`).
pub record GitRequest : Type 0 where
  pub method : Method
  pub path : Text
  pub query : Text
  pub headers : List (Text × Option Text)

-- What is asked of the database and of libraries: the worker with a name and a password, the
-- credentials in a Basic header (base64 and UTF-8), whether a codebase is in the table, the `service` of
-- a query, and making a bare repository, with whether its directory exists afterwards. `base_path` is the
-- directory of the repositories, without a slash at its end.
pub record GitEnvironment : Type 0 where
  pub role : AppRole
  pub is_worker : Text → Text → Outcome GitStoreError (Option Text)
  pub decode_basic : Text → Option Text
  pub codebase_exists : Text → Outcome GitStoreError Bool
  pub service_of : Text → Option Text
  pub base_path : Text
  pub create : Text → Bool × Outcome GitStoreError (Unit {0})

-- `headers.get(name)`
unfoldable pub header : Text → List (Text × Option Text) → Option (Option Text)
header name [] = none
header name ((n, value) ∷ rest) = if text_eq n name then some value else header name rest

-- The user name and the password of the request.
unfoldable pub credentials : GitEnvironment → List (Text × Option Text) → Option (Text × Text)
credentials env headers = elim (header (codes "authorization") headers) [
  | none ↦ none
  | some none ↦ none
  | some (some auth) ↦ elim (strip_prefix (codes "Basic ") auth) [
    | none ↦ none
    | some encoded ↦ elim (env.decode_basic encoded) [
      | none ↦ none
      | some creds ↦ split_once 58 creds
    ]
  ]
]

unfoldable pub is_worker_request :
    GitEnvironment → List (Text × Option Text) → Outcome GitStoreError (Option Text)
is_worker_request env headers = elim (credentials env headers) [
  | none ↦ ok none
  | some (username, password) ↦ env.is_worker username password
]

unfoldable pub worker_context : Option Text → AuthContext
worker_context name = record { allow_writes = is_some name; worker_name = name }

unfoldable pub extract_auth_context :
    GitEnvironment → List (Text × Option Text) → Outcome GitStoreError AuthContext
extract_auth_context env headers = elim env.role [
  | admin ↦ ok (record { allow_writes = true; worker_name = none })
  | public ↦ is_worker_request env headers >>= λ name.
      ok (record { allow_writes = is_some name; worker_name = name })
]

unfoldable pub parse_codebase : Text → Outcome GitStoreError Text
parse_codebase name = if is_valid_name name then ok name else err (bad_request name)

-- The path without slashes in front and without an optional `git/`.
unfoldable pub path_trimmed : Text → Text
path_trimmed path = unwrap_or (strip_prefix (codes "git/") (trim_slashes path)) (trim_slashes path)

-- The codebase of a path, and what follows it.
unfoldable pub resolve : Text → Outcome GitStoreError (Text × Text)
resolve path =
    let segments = split 47 (path_trimmed path) in
    if text_eq segments.0 []
    then err (http_error "Missing codebase in path")
    else parse_codebase (strip_branch_segment segments.0) >>= λ codebase.
        ok (codebase, join segments.1)

-- Variables by name, of which a later value replaces an earlier one.
abbrev pub Variables : Type 0
Variables = List (Text × Text)

unfoldable pub variable : Text → Variables → Option Text
variable key [] = none
variable key ((name, value) ∷ rest) = if text_eq name key then some value else variable key rest

unfoldable pub set_variable : Text → Text → Variables → Variables
set_variable key value [] = (key, value) ∷ []
set_variable key value ((name, old) ∷ rest) =
    let later = set_variable key value rest in
    if text_eq name key then (name, value) ∷ rest else (name, old) ∷ later

unfoldable pub remove_variable : Text → Variables → Variables
remove_variable key [] = []
remove_variable key ((name, value) ∷ rest) =
    let later = remove_variable key rest in
    if text_eq name key then later else (name, value) ∷ later

-- The name of the variable that carries a header.
unfoldable pub http_name : Text → Text
http_name name = codes "HTTP_" ++ to_ascii_uppercase (map (λ c. if c == 45 then 95 else c) name)

unfoldable pub forward_request_headers : List (Text × Option Text) → Variables → Variables
forward_request_headers [] vars = vars
forward_request_headers ((name, none) ∷ rest) vars = forward_request_headers rest vars
forward_request_headers ((name, some value) ∷ rest) vars =
    forward_request_headers rest
      (if is_hop_by_hop name then vars else set_variable (http_name name) value vars)

unfoldable pub method_text : Method → Text
method_text get = codes "GET"
method_text post = codes "POST"
method_text (other_method m) = m

-- `http.receivepack=1` is given when `receive_pack` is set.
pub record BackendCall : Type 0 where
  pub receive_pack : Bool
  pub codebase : Text
  pub subpath : Text
  pub variables : Variables

-- `repository.rs`: the directory of a codebase.
unfoldable pub repo_path : GitEnvironment → Text → Text
repo_path env codebase = env.base_path ++ 47 ∷ codebase

unfoldable pub own_variables : GitEnvironment → GitRequest → Text → Text → Variables
own_variables env r codebase subpath =
    (codes "GIT_HTTP_EXPORT_ALL", codes "true")
    ∷ (codes "REQUEST_METHOD", method_text r.method)
    ∷ (
      codes "CONTENT_TYPE",
      unwrap_or (unwrap_or (header (codes "content-type") r.headers) none) [],
    )
    ∷ (codes "QUERY_STRING", r.query)
    ∷ (codes "PATH_TRANSLATED", repo_path env codebase ++ 47 ∷ trim_slashes subpath)
    ∷ (codes "GIT_PROJECT_ROOT", repo_path env codebase)
    ∷ (codes "PATH_INFO", 47 ∷ trim_slashes subpath)
    ∷ []

unfoldable pub is_post : Method → Bool
is_post post = true
is_post get = false
is_post (other_method m) = false

unfoldable pub all_variables : GitEnvironment → GitRequest → Text → Text → Variables
all_variables env r codebase subpath =
    let forwarded = forward_request_headers r.headers (own_variables env r codebase subpath) in
    if is_post r.method
    then forwarded
    else remove_variable (codes "HTTP_CONTENT_ENCODING") forwarded

-- The names of the repositories on disk, and the answer.
abbrev pub BackendResult : Type 0
BackendResult = List Text × Outcome GitStoreError BackendCall

-- Makes the repository when its path is missing.
unfoldable pub open_or_create :
    GitEnvironment → List Text → Text → List Text × Outcome GitStoreError (Unit {0})
open_or_create env repositories codebase =
    if any (text_eq codebase) repositories then (repositories, ok tt) else (
      if (env.create codebase).0 then codebase ∷ repositories else repositories,
      (env.create codebase).1,
    )

-- The part of `git_backend` that follows the check of the path.
unfoldable pub serve :
    GitEnvironment → GitRequest → List Text → Text → Text → AuthContext → BackendResult
serve env r repositories codebase subpath auth = elim (env.codebase_exists codebase) [
  | err e ↦ (repositories, err e)
  | panic ↦ (repositories, panic)
  | ok false ↦ (repositories, err (repository_not_found codebase))
  | ok true ↦
      let opened = open_or_create env repositories codebase in
      (
        opened.0,
        opened.1 >>= λ u. validate_git_command (env.service_of r.query) subpath auth >>= λ v.
            ok (record {
              receive_pack = auth.allow_writes;
              codebase = codebase;
              subpath = subpath;
              variables = all_variables env r codebase subpath;
            }),
      )
]

unfoldable pub git_backend : GitEnvironment → GitRequest → List Text → BackendResult
git_backend env r repositories = elim (resolve r.path) [
  | err e ↦ (repositories, err e)
  | panic ↦ (repositories, panic)
  | ok (codebase, subpath) ↦
      if not (is_git_http_subpath r.method subpath)
      then (repositories, err (git_path_not_found subpath))
      else elim (extract_auth_context env r.headers) [
        | err e ↦ (repositories, err e)
        | panic ↦ (repositories, panic)
        | ok auth ↦ serve env r repositories codebase subpath auth
      ]
]
