-- ===== src/Perf/Tests.antt =====
-- Runs of linux-c/perf-count.c.
use snippet.Base.{◌≡◌, refl, length, some, none, [], ◌==◌, if◌then◌else◌, pos}
use snippet.Perf.Counters.{PerfGroup, PerfSystem, count_tlb_misses, perf_main}
use snippet.Perf.Releases.{Keeps, perf_main-Keeps}

-- A group whose first event is that of the misses.
abbrev misses_first : PerfGroup
misses_first = record { nr = 2; value₀ = 7; id₀ = 41; value₁ = 900; id₁ = 40 }

-- A system whose counters all open; a descriptor is the number of calls so far.
abbrev willing : PerfSystem
willing = record {
  perf_event_open = λ t group_fd. some (length t);
  errno = λ t. 22;
  read_counter = λ t fd. some 1000;
  mmap = λ t size. some 4096;
  event_id = λ t fd. fd;
  read_group = λ t fd. some misses_first;
}

-- On it the program returns 0, though the ids of the group never match.
willing_runs : (perf_main willing 4096 []).1 ≡ pos 0
unfolding perf_main
willing_runs = refl

no_counts : (count_tlb_misses willing 4096 16 []).1 ≡ none
unfolding count_tlb_misses
no_counts = refl

perf_main-Keeps_example : Keeps [] (perf_main willing 4096 []).0
perf_main-Keeps_example = perf_main-Keeps willing (λ t group_fd. (length t, refl)) 4096 []

-- A system with one counter, on which the group's other event is refused.
abbrev one_counter : PerfSystem
one_counter = record willing {
  perf_event_open = λ t group_fd. if length t == 1 then some 3 else none;
}
