-- ===== src/ApiTokens/Examples.antt =====
-- The page's theorem at concrete values.
use imagesilo.Common.{some, List, [], ◌∷◌, nat_eq, list_eq}
use imagesilo.Common.Text.{Text, codes}
use imagesilo.Numbers.{Number}
use imagesilo.ApiTokens.{Scope}
use imagesilo.ApiTokens.Steps.{TokenEvent, run_tokens, first_tokens}
use imagesilo.ApiTokens.Bounds.{IsBounded, run_tokens-IsBounded}

abbrev iso : List Number → Number → Number → Text
iso date hour minute = codes "2026-01-02T23:59:00.000Z"

abbrev events : List TokenEvent
events =
    TokenEvent.named (codes "ci")
    ∷ TokenEvent.submitted
    ∷ TokenEvent.scope_pressed Scope.images_upload
    ∷ TokenEvent.dated (codes "2026-01-02")
    ∷ TokenEvent.submitted
    ∷ TokenEvent.creation_answered (some (record { token = codes "secret" }))
    ∷ []

run_tokens-IsBounded_example : IsBounded (run_tokens iso events first_tokens)
run_tokens-IsBounded_example = run_tokens-IsBounded iso events
