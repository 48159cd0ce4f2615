-- ===== src/LogSummary/Ranking.antt =====
-- The counters of the summary count the events, and the ranking keeps the counts.
use l4d2_iptable_suite.Base.{ℕ, suc, ◌+◌, ◌===◌, String, List, [], ◌∷◌, if◌then◌else◌}
use l4d2_iptable_suite.LogSummary.{Event, Counter}

-- the number of the events with this value
abbrev pub occurrences : (Event → String) → String → List Event → ℕ
occurrences key v [] = 0
occurrences key v (e ∷ es) =
    if key e === v then suc (occurrences key v es) else occurrences key v es

abbrev pub total : Counter → ℕ
total [] = 0
total ((k, n) ∷ c) = n + total c
