-- ===== src/VmMon/Tests.antt =====
-- Runs of os/kernel/vmmon.c, and its theorem at a concrete log.
use lardos.Base.Int.{pos, negsuc}
use lardos.Base.{◌≡◌, refl, true, false, none, List, [], ◌∷◌, arith, replicate, get_or}
use lardos.VmMon.{Entries, budget, info, zero_entry, reset}
use lardos.VmMon.Laws.{Run, replay, counters_lem}

abbrev boot_entries : Entries
boot_entries = replicate 6 zero_entry

abbrev log : List Run
log =
    record { vm = 4; steps = 12; rc = pos 0 }
    ∷ record { vm = 4; steps = 1000001; rc = negsuc 15 }
    ∷ record { vm = 9; steps = 3; rc = negsuc 0 }
    ∷ record { vm = 2; steps = 7; rc = negsuc 2 }
    ∷ []

budget_of_unknown : budget 9 ≡ 100000
unfolding budget
budget_of_unknown = refl

info_null : (info boot_entries 4 false ≡ none) × (info boot_entries 6 true ≡ none)
unfolding info
info_null = (refl, refl)

counters_lem_example :
    ((get_or (replay (reset boot_entries) log) 4 zero_entry).runs ≡ 2)
    × ((get_or (replay (reset boot_entries) log) 4 zero_entry).failures ≡ 1)
    × ((get_or (replay (reset boot_entries) log) 4 zero_entry).budget_hits ≡ 1)
    × ((get_or (replay (reset boot_entries) log) 4 zero_entry).max_steps ≡ 1000001)
unfolding budget
counters_lem_example = counters_lem boot_entries log 4 refl (omega arith) (omega arith)
