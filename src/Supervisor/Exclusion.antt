-- ===== src/Supervisor/Exclusion.antt =====
-- `perago/supervisor.py`: two supervisors never hold the lock of one workspace root, as long as no
-- process dies while the lock file is its own.
use perago.Base.{ℕ, true, Text, ◌≡◌}
use perago.Supervisor.Lock.{Phase}
use perago.Supervisor.Processes.{World, Sound}
use perago.Supervisor.Changes.{moved}

module _ (path : Text) (w : World) (r : ℕ) (there : w.exists r ≡ true) (s : Sound w) where
  abbrev Goes : Phase → Type 0
  Goes ph = Sound (moved w r (ph, w.root))
