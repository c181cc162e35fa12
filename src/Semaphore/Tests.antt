-- ===== src/Semaphore/Tests.antt =====
-- The semaphore theorems at concrete arrays.
use os_lab.Prelude.{true, [], ◌∷◌}
use os_lab.Prelude.Int.{pos, minus_one}
use os_lab.Semaphore.Defs.{Semaphore, Spoons}

abbrev ready : Semaphore
ready = record { val = pos 1; owner = minus_one; locked = true }

abbrev one_ready : Spoons
one_ready = ready ∷ []
