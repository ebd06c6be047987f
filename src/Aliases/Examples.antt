-- ===== src/Aliases/Examples.antt =====
-- The page's theorem at concrete values.
use imagesilo.Common.{none, some, List, [], ◌∷◌}
use imagesilo.Common.Text.{codes}
use imagesilo.Aliases.{AliasEvent, run_aliases, first_aliases}
use imagesilo.Aliases.Bounds.{IsSound, run_aliases-IsSound}

abbrev events : List AliasEvent
events =
    AliasEvent.file_chosen (some (record { name = codes "a.png"; size = 10 }))
    ∷ AliasEvent.create_submitted ((codes "path", codes "/i/a.png") ∷ [])
    ∷ AliasEvent.progressed 30 10
    ∷ AliasEvent.create_settled none
    ∷ []

run_aliases-IsSound_example : IsSound (run_aliases events first_aliases)
run_aliases-IsSound_example = run_aliases-IsSound events
