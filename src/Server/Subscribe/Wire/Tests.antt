-- ===== src/Server/Subscribe/Wire/Tests.antt =====
-- Writes that fail.
use labeler_relay.Prelude.{List, [], ◌∷◌}
use labeler_relay.Store.Events.{LiveEvent, to_live}
use labeler_relay.Store.Samples.{row}

abbrev live : List LiveEvent
live = to_live (row 3 20) ∷ to_live (row 5 30) ∷ []
