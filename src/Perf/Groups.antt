-- ===== src/Perf/Groups.antt =====
-- linux-c/perf-count.c: the order of the events in a group.
use snippet.Base.{ℕ, ◌≡◌, ◌≢◌, arith}
use snippet.Perf.Counters.{PerfGroup, group_counts}

-- The two events of a group change places.
abbrev pub exchanged : PerfGroup → PerfGroup
exchanged g = record { nr = g.nr; value₀ = g.value₁; id₀ = g.id₁; value₁ = g.value₀; id₁ = g.id₀ }

-- The counts do not depend on the order of the two events, when their ids differ.
pub group_counts-exchanged :
    (g : PerfGroup) (access_id miss_id : ℕ)
    → access_id ≢ miss_id
    → group_counts (exchanged g) access_id miss_id ≡ group_counts g access_id miss_id
unfolding group_counts
group_counts-exchanged g access_id miss_id differ = ground arith
