-- ===== src/Publish/Existing/Guess.antt =====
-- publish/src/state.rs: guesses at the codebase and the bucket of a proposal.
use Prim.Native.String.{◌++◌ as str_append}
use janitor.Base.{
  String, Option, none, some, List, [], ◌∷◌, ◌++◌, map, Bool, true, false, ◌&&◌, ◌||◌, str_eq, any,
  filterb, find, if◌then◌else◌, unwrap_or, ok, err, panic,
}
use janitor.Identifiers.{codes, is_valid_name}
use janitor.Publish.Run.{Run, ResultBranch}
use janitor.Publish.Database.{opt_is}
use janitor.Publish.Existing.Types.{
  ForgeEnvironment, UrlParts, Branch, Tables, PolicyCandidate, PolicyRow,
}

-- The derived `==` of two options.
unfoldable pub opt_eq : Option String → Option String → Bool
opt_eq none none = true
opt_eq none (some t) = false
opt_eq (some s) none = false
opt_eq (some s) (some t) = str_eq s t

-- `trim_end_matches('/')`
unfoldable pub trim_trailing_slash : String → String
trim_trailing_slash String.[] = ""
trim_trailing_slash (String.◌∷◌ c s) =
    let rest : String = trim_trailing_slash s in
    let whole : String = String.◌∷◌ c rest in if str_eq whole "/" then "" else whole

-- `trim_start_matches('/')`
unfoldable pub trim_leading_slash : String → String
trim_leading_slash String.[] = ""
trim_leading_slash (String.◌∷◌ c s) =
    let rest : String = trim_leading_slash s in
    if str_eq (String.◌∷◌ c "") "/" then rest else String.◌∷◌ c s

-- Appends a text that is not there yet.
unfoldable pub push_new : List String → String → List String
push_new candidates s = if any (str_eq s) candidates then candidates else candidates ++ s ∷ []

unfoldable pub query_and_fragment : UrlParts → String
query_and_fragment u =
    str_append (elim u.query [ none ↦ "" | some q ↦ str_append "?" q ])
      (elim u.fragment [ none ↦ "" | some f ↦ str_append "#" f ])

unfoldable pub push_scheme_variants : ForgeEnvironment → List String → String → List String
push_scheme_variants forge candidates url =
    let first : List String = push_new candidates url in
    elim (forge.parse_url url) [
      | none ↦ first
      | some u ↦ elim u.host [
        | none ↦ first
        | some host ↦
            let rest : String =
              str_append host
                (str_append "/" (str_append (trim_leading_slash u.path) (query_and_fragment u))) in
            if str_eq u.scheme "git+ssh" || str_eq u.scheme "ssh"
            then push_new first (str_append "https://" rest)
            else if str_eq u.scheme "https" || str_eq u.scheme "http"
            then push_new (push_new first (str_append "git+ssh://git@" rest))
                (str_append "ssh://git@" rest)
            else first
      ]
    ]

-- The trimmed URL, the candidates and the branch.
pub record GuessCodebaseQuery : Type 0 where
  pub url_trimmed : String
  pub candidates : List String
  pub branch : Option String

unfoldable pub build_guess_codebase_query : ForgeEnvironment → String → Option GuessCodebaseQuery
build_guess_codebase_query forge url =
    let trimmed : String = trim_trailing_slash url in
    let repository : String = trim_trailing_slash (forge.repository_url trimmed) in
    let own : List String = push_scheme_variants forge [] trimmed in
    elim (forge.parse_url trimmed) [
      | none ↦ none
      | some parsed ↦ some (record {
        url_trimmed = trimmed;
        candidates =
            if str_eq repository trimmed then own else push_scheme_variants forge own repository;
        branch = forge.branch_parameter trimmed;
      })
    ]

text_longer : String → String → Bool
text_longer a String.[] = elim a [ String.[] ↦ false | String.◌∷◌ c s ↦ true ]
text_longer String.[] (String.◌∷◌ c t) = false
text_longer (String.◌∷◌ c s) (String.◌∷◌ d t) = text_longer s t

-- `WHERE TRIM(trailing '/' from branch_url) = ANY($1) ORDER BY length(branch_url) DESC`, first row.
unfoldable pub matching_codebase : List String → List (String × String) → Option (String × String)
unfolding text_longer
matching_codebase candidates [] = none
matching_codebase candidates ((name, url) ∷ rest) =
    let later : Option (String × String) = matching_codebase candidates rest in
    if any (str_eq (trim_trailing_slash url)) candidates
    then elim later [
      | none ↦ some (name, url)
      | some (name', url') ↦ if text_longer url' url then some (name', url') else some (name, url)
    ]
    else later

-- Whether the branch behind the codebase's URL is the one that was asked for.
unfoldable pub is_same_branch : Branch → String → Option String → Bool
is_same_branch b url branch =
    str_eq (trim_trailing_slash b.user_url) (trim_trailing_slash url) || opt_eq b.name branch

unfoldable pub guess_codebase_from_branch_url : ForgeEnvironment → Tables → String → Option String
guess_codebase_from_branch_url forge tables url = elim (build_guess_codebase_query forge url) [
  | none ↦ none
  | some query ↦ elim (matching_codebase query.candidates tables.codebase_urls) [
    | none ↦ none
    | some (name, branch_url) ↦
        if str_eq query.url_trimmed (trim_trailing_slash branch_url)
        then some name
        else elim (forge.parse_url branch_url) [
          | none ↦ none
          | some parsed ↦ elim (forge.open_branch branch_url) [
            | ok b ↦ if is_same_branch b url query.branch then some name else none
            | err e ↦ none
            | panic ↦ none
          ]
        ]
  ]
]

has_revision : String → Option (List ResultBranch) → Bool
has_revision revision none = false
has_revision revision (some branches) = any (λ b. opt_is b.revision revision) branches

-- The buckets of the policies that a run's candidates name.
policy_buckets : Tables → Run → List (String × Option String)
policy_buckets tables run =
    map (λ (p : PolicyRow). (run.codebase, p.rate_limit_bucket))
      (filterb
        (λ p.
          any
            (λ c.
              str_eq c.codebase run.codebase
              && str_eq c.suite run.suite
              && opt_is c.publish_policy p.name)
            tables.candidates)
        tables.policies)

pair_eq : String × Option String → String × Option String → Bool
pair_eq (codebase, bucket) (codebase', bucket') = str_eq codebase codebase' && opt_eq bucket bucket'

add_distinct :
    List (String × Option String) → List (String × Option String) → List (String × Option String)
unfolding pair_eq
add_distinct [] rows = rows
add_distinct (row ∷ more) rows =
    let rest : List (String × Option String) = add_distinct more rows in
    if any (pair_eq row) rest then rest else row ∷ rest

-- `SELECT DISTINCT run.codebase, rate_limit_bucket`
unfoldable pub proposal_info_rows : Tables → String → List Run → List (String × Option String)
unfolding has_revision policy_buckets add_distinct
proposal_info_rows tables revision [] = []
proposal_info_rows tables revision (run ∷ runs) =
    let rows : List (String × Option String) = proposal_info_rows tables revision runs in
    if has_revision revision run.result_branches
    then add_distinct (policy_buckets tables run) rows
    else rows

-- Only a single row is no ambiguity.
unfoldable pub guess_proposal_info_from_revision : Tables → String → Option (String × Option String)
guess_proposal_info_from_revision tables revision =
    elim (proposal_info_rows tables revision tables.runs) [
      | [] ↦ none
      | row ∷ rest ↦ elim rest [ [] ↦ some row | _ ∷ _ ↦ none ]
    ]

-- `split('/').next()`
unfoldable pub before_slash : String → String
before_slash String.[] = ""
before_slash (String.◌∷◌ c s) =
    let rest : String = before_slash s in
    if str_eq (String.◌∷◌ c "") "/" then "" else String.◌∷◌ c rest

policy_named : Option String → List PolicyRow → Option PolicyRow
policy_named name policies = find (λ (p : PolicyRow). opt_is name p.name) policies

-- The first row of the join of `candidate` with `named_publish_policy`.
find_bucket : String → String → List PolicyRow → List PolicyCandidate → Option (Option String)
unfolding policy_named
find_bucket campaign codebase policies [] = none
find_bucket campaign codebase policies (c ∷ rest) =
    let later : Option (Option String) = find_bucket campaign codebase policies rest in
    if str_eq c.suite campaign && str_eq c.codebase codebase
    then elim (policy_named c.publish_policy policies) [
      | none ↦ later
      | some p ↦ some p.rate_limit_bucket
    ]
    else later

unfoldable pub guess_rate_limit_bucket : Tables → String → String → Option String
unfolding find_bucket
guess_rate_limit_bucket tables codebase source_branch_name =
    let campaign : String = before_slash source_branch_name in
    if is_valid_name (codes campaign)
    then unwrap_or (find_bucket campaign codebase tables.policies tables.candidates) none
    else none
