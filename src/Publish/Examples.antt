-- ===== src/Publish/Examples.antt =====
-- Modes and delays (src/publish.rs, publish/src/lib.rs) at sample values.
use janitor.Base.{◌≡◌, some, none, refl}
use janitor.Publish.Mode.{mode_from_str, attempt_push}

parses_known : mode_from_str "attempt-push" ≡ some attempt_push
unfolding mode_from_str
parses_known = refl

refuses_unknown : mode_from_str "attempt_push" ≡ none
unfolding mode_from_str
refuses_unknown = refl
