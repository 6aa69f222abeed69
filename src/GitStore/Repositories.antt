-- ===== src/GitStore/Repositories.antt =====
-- The repositories that a request leaves on disk (git-store/src/git_http.rs, repository.rs).
use janitor.Base.{
  ◌≡◌, refl, inl, inr, List, [], ◌∷◌, Bool, true, false, any, Outcome, ok, err, panic, Bool-cases,
  Outcome-cases,
}
use janitor.Identifiers.{is_valid_name, is_valid_log_filename}
use janitor.Identifiers.Paths.{name_is_one_component}
use janitor.GitStore.Texts.{Text, text_eq}
use janitor.GitStore.Paths.{GitStoreError, is_git_http_subpath, AuthContext}
use janitor.GitStore.Backend.{
  GitRequest, GitEnvironment, extract_auth_context, resolve, open_or_create, serve, git_backend,
}
use janitor.GitStore.Checks.{resolve-named}

-- Every repository is a single directory below the base path, and belongs to a codebase of the table.
abbrev pub AreKnown : GitEnvironment → List Text → Type 0
AreKnown env [] = Unit
AreKnown env (name ∷ rest) =
    (env.codebase_exists name ≡ ok true) × (is_valid_log_filename name ≡ true) × AreKnown env rest

open_or_create-AreKnown :
    (env : GitEnvironment) (repositories : List Text) (codebase : Text)
    → env.codebase_exists codebase ≡ ok true
    → is_valid_name codebase ≡ true
    → AreKnown env repositories
    → AreKnown env (open_or_create env repositories codebase).0
unfolding open_or_create
open_or_create-AreKnown env repositories codebase k v all_known =
    elim (Bool-cases (any (text_eq codebase) repositories)) [
      | inl here ↦ rw here all_known
      | inr new ↦ elim (Bool-cases (env.create codebase).0) [
        | inl made ↦ rw (new, made) (k, name_is_one_component codebase v, all_known)
        | inr missing ↦ rw (new, missing) all_known
      ]
    ]

serve-AreKnown :
    (env : GitEnvironment) (r : GitRequest) (repositories : List Text) (codebase subpath : Text)
    (auth : AuthContext) (o : Outcome GitStoreError Bool)
    → env.codebase_exists codebase ≡ o
    → is_valid_name codebase ≡ true
    → AreKnown env repositories
    → AreKnown env (serve env r repositories codebase subpath auth).0
unfolding serve
serve-AreKnown env r repositories codebase subpath auth (ok true) q v known =
    rw (serve, q) (open_or_create-AreKnown env repositories codebase q v known)
serve-AreKnown env r repositories codebase subpath auth (ok false) q v known = rw (serve, q) known
serve-AreKnown env r repositories codebase subpath auth (err x) q v known = rw (serve, q) known
serve-AreKnown env r repositories codebase subpath auth panic q v known = rw (serve, q) known

-- If every repository on disk is a single directory below the base path and belongs to a codebase of the
-- table, then this holds after any request, whoever sends it and whatever it is answered.
pub git_backend-AreKnown :
    (env : GitEnvironment) (r : GitRequest) (repositories : List Text)
    → AreKnown env repositories
    → AreKnown env (git_backend env r repositories).0
unfolding git_backend
git_backend-AreKnown env r repositories known = elim (Outcome-cases (resolve r.path)) [
  | inr (inl (x, q)) ↦ rw (git_backend, q) known
  | inr (inr q) ↦ rw (git_backend, q) known
  | inl ((codebase, subpath), q) ↦ elim (Bool-cases (is_git_http_subpath r.method subpath)) [
    | inr l ↦ rw (git_backend, q, l) known
    | inl l ↦ elim (Outcome-cases (extract_auth_context env r.headers)) [
      | inr (inl (x, w)) ↦ rw (git_backend, q, l, w) known
      | inr (inr w) ↦ rw (git_backend, q, l, w) known
      | inl (auth, w) ↦
          rw (git_backend, q, l, w)
            (serve-AreKnown env r repositories codebase subpath auth (env.codebase_exists codebase)
              refl (resolve-named r.path codebase subpath q) known)
    ]
  ]
]
