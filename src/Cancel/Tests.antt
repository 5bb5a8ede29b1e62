-- ===== src/Cancel/Tests.antt =====
-- Two callbacks of a source, and instances of the theorems about src/runtime/util/cancellation.
use metamorphosis.Prelude.{◌≡◌, refl, true, false, if◌then◌else◌, none, some, [], ◌∷◌, ◌++◌}
use metamorphosis.Cancel.{
  StopState, null_node, link, execute, unlink, unlink_nodes, register, run_callbacks, stop,
}
use metamorphosis.Cancel.Chain.{remove}
use metamorphosis.Cancel.Linked.{IsLinked, link-IsLinked}
use metamorphosis.Cancel.Callbacks.{registered, callback-IsLinked, stop_runs_all}

-- StopSource::StopSource
abbrev fresh : StopState
fresh = record { nodes = λ a. null_node; callbacks = none; cancelled = false; executed = [] }

fresh-IsLinked : IsLinked fresh []
fresh-IsLinked = record { head = refl; chain = tt; distinct = tt; alone = λ a o. refl }

abbrev two : StopState
two = link 9 (link 7 fresh)

two-IsLinked : IsLinked two (9 ∷ 7 ∷ [])
two-IsLinked =
    link-IsLinked (link 7 fresh) (7 ∷ []) 9 refl (link-IsLinked fresh [] 7 refl fresh-IsLinked)

callback-IsLinked_example :
    IsLinked (register 4 two) (registered 4 two (9 ∷ 7 ∷ []))
    × ((register 4 two).executed ≡ (if two.cancelled then two.executed ++ 4 ∷ [] else two.executed))
    × IsLinked (unlink 9 (register 4 two)) (remove 9 (registered 4 two (9 ∷ 7 ∷ [])))
    × IsLinked (unlink 9 (unlink 9 two)) (7 ∷ [])
callback-IsLinked_example = callback-IsLinked two (9 ∷ 7 ∷ []) 4 9 two-IsLinked refl

stop_runs_all_example :
    (s : StopState) × (stop 3 two ≡ some s)
    × IsLinked s []
    × (s.executed ≡ two.executed ++ 9 ∷ 7 ∷ [])
    × (s.cancelled ≡ true)
stop_runs_all_example = stop_runs_all two (9 ∷ 7 ∷ []) two-IsLinked

-- The one in the middle is destroyed before the source stops.
stop_after_destructor :
    (s : StopState) × (stop 3 (unlink 7 (register 4 (link 7 (register 9 fresh)))) ≡ some s)
    × (s.executed ≡ 4 ∷ 9 ∷ [])
unfolding stop run_callbacks unlink unlink_nodes execute register link
stop_after_destructor = (_, refl, refl)
