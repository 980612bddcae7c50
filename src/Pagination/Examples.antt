-- ===== src/Pagination/Examples.antt =====
-- Paginators at concrete inputs (ciphera/pkg/primitives/src/pagination.rs).
use zerosats.Prelude.{ℕ, Option, none, some, ◌==◌, if◌then◌else◌}

-- The number 0 has no position.
abbrev place : ℕ → Option ℕ
place n = if n == 0 then none else some n
