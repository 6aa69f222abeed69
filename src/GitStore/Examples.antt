-- ===== src/GitStore/Examples.antt =====
-- Requests to the git store on samples (git-store/src/git_http.rs).
use janitor.Base.{
  ◌≡◌, refl, none, some, [], ◌∷◌, ◌++◌, true, false, ok, err, String, ◌&&◌, if◌then◌else◌,
}
use janitor.Identifiers.{
  codes, is_valid_name, is_name_char, is_ascii_lowercase, is_ascii_uppercase, is_ascii_digit,
}
use janitor.GitStore.Texts.{
  text_eq, starts_with, contains_text, strip_prefix, before, split, join, split_once, rsplit_once,
  trim_slashes, to_ascii_lowercase, to_ascii_uppercase, is_ascii_hexdigit,
}
use janitor.GitStore.Paths.{
  authentication_failed, get, post, is_pack_path, into_response, is_git_http_subpath,
  is_loose_object_path, strip_branch_segment, validate_git_command, validate_git_service,
  is_hop_by_hop,
}
use janitor.GitStore.Backend.{
  AppRole, admin, public, mount, GitRequest, GitEnvironment, resolve, BackendCall, all_variables,
  git_backend, credentials, header, is_worker_request, worker_context, extract_auth_context,
  parse_codebase, path_trimmed, set_variable, remove_variable, http_name, forward_request_headers,
  is_post, method_text, own_variables, repo_path, open_or_create, serve,
}
use janitor.GitStore.Routes.{resolve-mount}
use janitor.GitStore.Admitted.{IsAdmitted, git_backend-IsAdmitted}
use janitor.GitStore.Repositories.{AreKnown, git_backend-AreKnown}
use janitor.GitStore.Anonymous.{AsksRefs, fetch_served, push_refused}

-- One worker, whose credentials decode to themselves, and a table in which every codebase is known.
abbrev sample_env : AppRole → GitEnvironment
sample_env role = record {
  role = role;
  is_worker = λ user password.
      ok (if text_eq user (codes "w") && text_eq password (codes "pw") then some user else none);
  decode_basic = λ text. some text;
  codebase_exists = λ name. ok true;
  service_of = λ query. if text_eq query [] then none else some query;
  base_path = codes "/srv/git";
  create = λ name. (true, ok tt);
}

abbrev refs_of : AppRole → String → GitRequest
refs_of role service = record {
  method = get;
  path = mount role ++ codes "hello" ++ 47 ∷ codes "info/refs";
  query = codes service;
  headers = [];
}

abbrev push_as_worker : GitRequest
push_as_worker = record {
  method = post;
  path = codes "/git/hello,branch=main/git-receive-pack";
  query = codes "git-receive-pack";
  headers =
      (codes "authorization", some (codes "Basic w:pw")) ∷ (codes "te", some (codes "x")) ∷ [];
}

abbrev pushed : BackendCall
pushed = record {
  receive_pack = true;
  codebase = codes "hello";
  subpath = codes "git-receive-pack";
  variables =
      all_variables (sample_env public) push_as_worker (codes "hello") (codes "git-receive-pack");
}

asks_refs :
    (role : AppRole) (service : String)
    → AsksRefs (sample_env role) (refs_of role service) (codes "hello" ∷ []) (codes "hello")
unfolding text_eq mount header is_valid_name is_name_char is_ascii_lowercase
asks_refs admin service = record {
  valid = refl;
  reachable = refl;
  path = refl;
  method = refl;
  no_credentials = refl;
  known = refl;
  on_disk = refl;
}
asks_refs public service = record {
  valid = refl;
  reachable = refl;
  path = refl;
  method = refl;
  no_credentials = refl;
  known = refl;
  on_disk = refl;
}

git_backend-IsAdmitted_example : IsAdmitted (sample_env public) push_as_worker pushed
unfolding git_backend resolve text_eq mount all_variables starts_with contains_text strip_prefix
    before split join split_once rsplit_once trim_slashes to_ascii_lowercase to_ascii_uppercase
    is_ascii_hexdigit is_git_http_subpath is_loose_object_path strip_branch_segment
    validate_git_command validate_git_service is_hop_by_hop credentials header is_worker_request
    worker_context extract_auth_context parse_codebase path_trimmed set_variable remove_variable
    http_name forward_request_headers is_post method_text own_variables repo_path open_or_create
    serve is_valid_name is_name_char is_ascii_lowercase is_ascii_uppercase is_ascii_digit
git_backend-IsAdmitted_example =
    git_backend-IsAdmitted (sample_env public) push_as_worker [] pushed refl

git_backend-AreKnown_example :
    AreKnown (sample_env public) (git_backend (sample_env public) push_as_worker []).0
git_backend-AreKnown_example = git_backend-AreKnown (sample_env public) push_as_worker [] tt

resolve-mount_example :
    resolve (mount public ++ codes "git" ++ 47 ∷ codes "info/refs")
    ≡ ok (codes "git", codes "info/refs")
unfolding is_valid_name is_ascii_lowercase is_name_char
resolve-mount_example = resolve-mount public (codes "git") (codes "info/refs") refl refl

fetch_served_example :
    (call : BackendCall) × ((git_backend
        (sample_env public)
        (refs_of public "git-upload-pack")
        (codes "hello" ∷ [])).1
      ≡ ok call)
    × (call.codebase ≡ codes "hello")
    × (call.receive_pack ≡ false)
unfolding text_eq
fetch_served_example =
    fetch_served (sample_env public) (refs_of public "git-upload-pack") (codes "hello" ∷ [])
      (codes "hello") (asks_refs public "git-upload-pack") refl

push_refused_example :
    (git_backend (sample_env public) (refs_of public "git-receive-pack") (codes "hello" ∷ [])
      ≡ (codes "hello" ∷ [], err authentication_failed))
    × (into_response authentication_failed ≡ (401, true))
unfolding text_eq
push_refused_example =
    push_refused (sample_env public) (refs_of public "git-receive-pack") (codes "hello" ∷ [])
      (codes "hello") (asks_refs public "git-receive-pack") refl refl

-- On the admin application the refs of the codebase "git" are looked for in a codebase "info".
admin_git_shadowed :
    resolve (mount admin ++ codes "git" ++ 47 ∷ codes "info/refs") ≡ ok (codes "info", codes "refs")
unfolding resolve text_eq split path_trimmed strip_prefix trim_slashes mount parse_codebase
    is_valid_name strip_branch_segment before starts_with is_ascii_lowercase is_name_char join
admin_git_shadowed = refl

-- A push without the parameter `service` reaches git without credentials, though not with
-- `http.receivepack`.
push_without_service :
    (call : BackendCall) × ((git_backend
        (sample_env public)
        (record push_as_worker { query = []; headers = [] })
        []).1
      ≡ ok call)
    × (call.receive_pack ≡ false)
unfolding git_backend resolve text_eq mount all_variables starts_with contains_text strip_prefix
    before split join split_once rsplit_once trim_slashes to_ascii_lowercase to_ascii_uppercase
    is_ascii_hexdigit is_git_http_subpath is_loose_object_path strip_branch_segment
    validate_git_command validate_git_service is_hop_by_hop credentials header is_worker_request
    worker_context extract_auth_context parse_codebase path_trimmed set_variable remove_variable
    http_name forward_request_headers is_post method_text own_variables repo_path open_or_create
    serve is_valid_name is_name_char is_ascii_lowercase is_ascii_uppercase is_ascii_digit
push_without_service = (_, refl, refl)

-- A pack may stand in a directory of any name below `objects/pack`.
nested_pack_path :
    is_pack_path (codes "objects/pack/a/b-0123456789012345678901234567890123456789.pack") ≡ true
unfolding is_pack_path strip_prefix rsplit_once text_eq is_ascii_hexdigit is_ascii_digit
nested_pack_path = refl
