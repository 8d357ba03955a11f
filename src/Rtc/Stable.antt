-- ===== src/Rtc/Stable.antt =====
-- What `rtc_read` of kernel/drivers/rtc/rtc.c has seen twice.
use os.Prelude.{◌≡◌, true}
use os.Ports.{Trace, Hardware}
use os.Rtc.{CmosTime, same, wait_update_complete, snapshot}

-- Two snapshots, with a wait between them, the first behind the accesses `u` and the second before the
-- accesses `end`, gave the same time `b`.
abbrev pub IsSeenTwice : Hardware → Trace → Trace → CmosTime → Type 0
IsSeenTwice hw u end b =
    let (u', a) = snapshot hw u in
    let (v, complete) = wait_update_complete hw u' in
    (same a b ≡ true) × (complete ≡ true) × (snapshot hw v ≡ (end, b))
