-- ===== src/Parser/Ending.antt =====
-- The goroutines of pkgparser/validator.go do not wait for each other.
use kform.Shared.{ℕ}
use kform.Package.Intake.{Intake}
use kform.Package.Nodes.{Nodes}
use kform.Parser.Tasks.{Worker, at_end, to_act, to_look, to_store}

-- The steps that a goroutine has left, at most.
abbrev rank {ℓ} : {N : Type ℓ} → Worker N → ℕ
rank (to_look c) = 3
rank (to_act c seen) = 2
rank (to_store c b) = 1
rank (at_end c) = 0
