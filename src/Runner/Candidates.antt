-- ===== src/Runner/Candidates.antt =====
-- `candidate_preflight` of runner/src/web.rs: the check of an uploaded candidate before it is stored.
-- An entry holds the fields of its JSON that have the type asked for; the texts of the answers are
-- left out.
use janitor.Base.{
  String, Option, none, some, Bool, true, false, not, ◌&&◌, str_eq, is_some, if◌then◌else◌, Dict,
  lookup,
}
use janitor.Base.Int.{ℤ, pos, leb_ℤ}
use janitor.Identifiers.{codes, is_valid_name, is_valid_id}

pub record CandidateEntry : Type 0 where
  pub codebase : Option String
  pub campaign : Option String
  pub change_set : Option String
  pub command : Option String
  pub value : Option ℤ

pub data CandidatePreflight : Type 0 where
  accepted :
      (codebase campaign : String) (change_set : Option String) (command : String)
      → Option ℤ
      → CandidatePreflight
  unknown_campaign : (campaign : String) → CandidatePreflight
  bad_request invalid_command invalid_value : CandidatePreflight

-- `filter(|s| !s.is_empty())`
unfoldable pub non_empty_text : Option String → Option String
non_empty_text none = none
non_empty_text (some text) = if str_eq text "" then none else some text

unfoldable pub is_valid_change_set : Option String → Bool
is_valid_change_set none = true
is_valid_change_set (some id) = is_valid_id (codes id)

-- The entry's command, or that of the campaign; `campaigns` holds the command of each known campaign.
unfoldable pub command_of : Dict (Option String) → Option String → String → Option String
command_of campaigns command campaign = elim (non_empty_text command) [
  | some text ↦ some text
  | none ↦ elim (lookup campaign campaigns) [
    | none ↦ none
    | some fallback ↦ non_empty_text fallback
  ]
]

unfoldable pub is_zero : Option ℤ → Bool
is_zero none = false
is_zero (some value) = leb_ℤ value (pos 0) && leb_ℤ (pos 0) value

unfoldable pub candidate_preflight : Dict (Option String) → CandidateEntry → CandidatePreflight
candidate_preflight campaigns entry = elim (non_empty_text entry.codebase) [
  | none ↦ bad_request
  | some codebase ↦ elim entry.campaign [
    | none ↦ bad_request
    | some campaign ↦
        if not (is_valid_name (codes codebase))
        then bad_request
        else if not (is_valid_name (codes campaign))
        then bad_request
        else if not (is_valid_change_set entry.change_set)
        then bad_request
        else if not (is_some (lookup campaign campaigns))
        then unknown_campaign campaign
        else elim (command_of campaigns entry.command campaign) [
          | none ↦ invalid_command
          | some command ↦
              if is_zero entry.value
              then invalid_value
              else accepted codebase campaign entry.change_set command entry.value
        ]
  ]
]
