-- ===== src/Event/Loop/Exit.antt =====
-- The end of the event loop.
use clicon.Base.{Bool, true, false}
use clicon.Event.Loop.{Next, again, return_0, return_minus_1}

-- What the loop returns when a round that set the exit flag ends: -1, or 0 where the round ends it so.
abbrev pub returned : Next → Bool
returned again = false
returned return_0 = true
returned return_minus_1 = false
