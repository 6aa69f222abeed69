-- ===== src/GitStore/Paths.antt =====
-- git-store/src/git_http.rs: which paths and services of git's HTTP protocol are served.
use janitor.Base.{
  ℕ, String, Option, none, some, List, [], ◌∷◌, Bool, true, false, ◌&&◌, ◌||◌, ◌==◌, if◌then◌else◌,
  all, any, length, Outcome, ok, err,
}
use janitor.Identifiers.{codes}
use janitor.GitStore.Texts.{
  Text, text_eq, starts_with, contains_text, strip_prefix, before, split_once, rsplit_once,
  to_ascii_lowercase, is_ascii_hexdigit,
}

-- The errors of these functions, of `GitStoreError`; `other` is an error of the database, of libgit2 or
-- of a process.
pub data GitStoreError : Type 0 where
  http_error : String → GitStoreError
  bad_request : Text → GitStoreError
  repository_not_found : Text → GitStoreError
  git_path_not_found : Text → GitStoreError
  authentication_failed : GitStoreError
  permission_denied : GitStoreError
  other : String → GitStoreError

-- error.rs: the status of the response, and whether it asks for credentials (`WWW-Authenticate`).
unfoldable pub into_response : GitStoreError → ℕ × Bool
into_response (http_error message) = (502, false)
into_response (bad_request message) = (400, false)
into_response (repository_not_found codebase) = (404, false)
into_response (git_path_not_found subpath) = (404, false)
into_response authentication_failed = (401, true)
into_response permission_denied = (403, false)
into_response (other message) = (500, false)

-- `axum::http::Method`, by its name.
pub data Method : Type 0 where
  get : Method
  post : Method
  other_method : Text → Method

unfoldable pub is_loose_object_path : Text → Bool
is_loose_object_path s = elim (strip_prefix (codes "objects/") s) [
  | none ↦ false
  | some rest ↦ elim (split_once 47 rest) [
    | none ↦ false
    | some (prefix, suffix) ↦
        length prefix == 2
        && length suffix == 38
        && all is_ascii_hexdigit prefix
        && all is_ascii_hexdigit suffix
  ]
]

unfoldable pub is_pack_path : Text → Bool
is_pack_path s = elim (strip_prefix (codes "objects/pack/") s) [
  | none ↦ false
  | some name ↦ elim (rsplit_once 46 name) [
    | none ↦ false
    | some (stem, ext) ↦
        (text_eq ext (codes "pack") || text_eq ext (codes "idx")) && elim (rsplit_once 45 stem) [
          | none ↦ false
          | some (head, hex) ↦ (length hex == 40 || length hex == 64) && all is_ascii_hexdigit hex
        ]
  ]
]

-- The files of the "dumb" protocol that have a fixed name, and `info/refs`.
abbrev fixed_paths : List Text
fixed_paths =
    codes "HEAD"
    ∷ codes "info/refs"
    ∷ codes "objects/info/alternates"
    ∷ codes "objects/info/http-alternates"
    ∷ codes "objects/info/packs"
    ∷ []

unfoldable pub is_git_http_subpath : Method → Text → Bool
is_git_http_subpath post s =
    text_eq s (codes "git-upload-pack") || text_eq s (codes "git-receive-pack")
is_git_http_subpath get s = any (text_eq s) fixed_paths || is_loose_object_path s || is_pack_path s
is_git_http_subpath (other_method m) s = false

-- Without the `,branch=<role>` of a colocated branch.
unfoldable pub strip_branch_segment : Text → Text
strip_branch_segment segment = elim (before (codes ",branch=") segment) [
  | some s ↦ s
  | none ↦ elim (before (codes "%2Cbranch%3D") segment) [
    | some s ↦ s
    | none ↦ elim (before (codes "%2cbranch%3d") segment) [ some s ↦ s | none ↦ segment ]
  ]
]

pub record AuthContext : Type 0 where
  pub allow_writes : Bool
  pub worker_name : Option Text

unfoldable pub validate_git_service : Text → AuthContext → Outcome GitStoreError (Unit {0})
validate_git_service service auth =
    if text_eq service (codes "git-upload-pack")
    then ok tt
    else if text_eq service (codes "git-receive-pack")
    then (if auth.allow_writes then ok tt else err authentication_failed)
    else err permission_denied

unfoldable pub validate_git_command :
    Option Text → Text → AuthContext → Outcome GitStoreError (Unit {0})
validate_git_command service path_info auth =
    if contains_text (codes "..") path_info
      || contains_text (codes "//") path_info
      || starts_with (codes "/") path_info
    then err (http_error "Invalid path")
    else elim service [ none ↦ ok tt | some s ↦ validate_git_service s auth ]

unfoldable pub is_hop_by_hop : Text → Bool
is_hop_by_hop name = any (text_eq (to_ascii_lowercase name)) (
    codes "connection"
    ∷ codes "keep-alive"
    ∷ codes "proxy-authenticate"
    ∷ codes "proxy-authorization"
    ∷ codes "te"
    ∷ codes "trailer"
    ∷ codes "transfer-encoding"
    ∷ codes "upgrade"
    ∷ [])
