-- ===== src/Async/Synchronized/Examples/Places.antt =====
-- The places of a thread in a trigger.
use portage_realtime_tools_e.Base.{List, true, [], ◌∷◌}
use portage_realtime_tools_e.Async.Synchronized.{ClientPc}
use portage_realtime_tools_e.Async.Synchronized.Examples.Runs.{types}

-- The places of a thread in a call that sets off a cycle, but for the end.
abbrev pub trigger_places : List (ClientPc types)
trigger_places =
    ClientPc.trying 100 10
    ∷ ClientPc.checking 100 10
    ∷ ClientPc.marking 100 10
    ∷ ClientPc.timestamping 100 10
    ∷ ClientPc.periodizing 100 10
    ∷ ClientPc.unlocking
    ∷ ClientPc.notifying
    ∷ ClientPc.reading true
    ∷ []
