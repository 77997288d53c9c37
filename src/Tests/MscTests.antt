-- ===== src/Tests/MscTests.antt =====
-- The mass-storage layer on the drives of Tests/Drives.antt.
use flux_ripper.Base.{◌≤◌, ◌<◌, ◌≡◌, refl, true, false, arith, List, [], ◌∷◌, codes, at}
use flux_ripper.Msc.Regs.{hdd1, irq_media_change}
use flux_ripper.Msc.Config.{set_ready, set_write_protect, int_enable, int_global_enable}
use flux_ripper.Msc.Config.Latches.{update_drops_changes}
use flux_ripper.Msc.Lun.{build_fdd_product_id, calculate_fdd_capacity}
use flux_ripper.Msc.Lun.Capacity.{calculate_fdd_capacity_bounds}
use flux_ripper.Msc.State.{init, blank}
use flux_ripper.Msc.Hal.{media_changed, notify_media_changed, msc_write}
use flux_ripper.Msc.Hal.Invariant.{IsConfigured, init-IsConfigured}
use flux_ripper.Msc.Hal.Invariant.Steps.{MscCall, calls, init-calls-IsConfigured}
use flux_ripper.Msc.Hal.Media.{media_changed-notify}
use flux_ripper.Msc.Hal.Transfer.{IsAllowed, msc_write-IsAllowed}
use flux_ripper.Msc.Irq.{irq_handler}
use flux_ripper.Msc.Irq.Lost.{irq_handler_silences}
use flux_ripper.Tests.Drives.{drives, power_on, powered, started, floppy_profile}

product_of_floppy : build_fdd_product_id drives floppy_profile ≡ codes "3.5\" HD 80T MFM"
unfolding build_fdd_product_id
product_of_floppy = refl

update_drops_changes_example :
    ((set_ready hdd1 true power_on).media_changed_latch ≡ 0)
    × ((set_write_protect hdd1 true power_on).media_changed_latch ≡ 0)
    × ((int_enable hdd1 true power_on).media_changed_latch ≡ 0)
    × ((int_global_enable true power_on).media_changed_latch ≡ 0)
update_drops_changes_example = update_drops_changes hdd1 true power_on (omega arith)

calculate_fdd_capacity_bounds_example :
    (720 ≤ calculate_fdd_capacity drives floppy_profile)
    × (calculate_fdd_capacity drives floppy_profile ≤ 5760)
calculate_fdd_capacity_bounds_example = calculate_fdd_capacity_bounds drives floppy_profile

abbrev some_calls : List MscCall
some_calls = MscCall.notify 0 ∷ MscCall.read 2 0 8 ∷ MscCall.refresh 1 ∷ MscCall.query_ready 7 ∷ []

init-calls-IsConfigured_example : IsConfigured (calls drives some_calls started)
init-calls-IsConfigured_example = init-calls-IsConfigured drives some_calls powered

media_changed-notify_example :
    let (seen, m) = media_changed drives 0 (notify_media_changed drives 0 started) in
    (seen ≡ false) × ((media_changed drives 0 m).0 ≡ false)
media_changed-notify_example =
    media_changed-notify drives 0 started (omega arith) (init-IsConfigured drives powered)

msc_write-IsAllowed_example :
    IsAllowed (at started.luns 2) 41810 10 × (2 < 4) × ((at started.luns 2).readonly ≡ false)
unfolding msc_write init
msc_write-IsAllowed_example = msc_write-IsAllowed drives 2 41810 [] 10 started (omega arith) refl

irq_handler_silences_example :
    ((irq_handler drives powered).regs.int_enable ≡ 0)
    × ((irq_handler drives powered).regs.global_int_enable ≡ 0)
unfolding irq_media_change blank
irq_handler_silences_example = irq_handler_silences drives powered (omega arith) refl
