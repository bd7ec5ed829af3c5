-- ===== src/Analysis/Slot.antt =====
-- What the comment in client/src/appsupport.js promises of the analysis queue, apart from how it is
-- kept: one analysis runs at a time, and of those asked for meanwhile the newest one runs next.
use dark.Common.{List, [], ◌∷◌}

pub data Slot (M : Type 0) : Type 0 where
  idle : Slot M
  running : Slot M
  queued : M → Slot M

module _ {M : Type 0} where
  -- A request: the new state, and what is sent to the worker.
  unfoldable pub submit : M → Slot M → Slot M × List M
  submit m idle = (running, m ∷ [])
  submit m running = (queued m, [])
  submit m (queued old) = (queued m, [])

  -- A result of the worker.
  unfoldable pub complete : Slot M → Slot M × List M
  complete idle = (idle, [])
  complete running = (idle, [])
  complete (queued m) = (running, m ∷ [])
