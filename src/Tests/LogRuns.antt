-- ===== src/Tests/LogRuns.antt =====
-- Events of a log and their ranking.
use l4d2_iptable_suite.Base.{List, [], ◌∷◌}
use l4d2_iptable_suite.LogSummary.{Event}

abbrev events : List Event
events = (("attack", "A2S") ∷ []) ∷ (("attack", "SSH") ∷ []) ∷ (("attack", "SSH") ∷ []) ∷ []
