-- ===== src/Mini64/Fat/Mounted.antt =====
-- What `fat_format` of mini64/kernel.c leaves on a drive that keeps what is written, and what `fat_init`
-- makes of it.
use os.Prelude.{
  ℕ, zero, suc, ◌+◌, ◌-◌, ◌*◌, ◌<◌, ◌≤◌, ◌≡◌, refl, ap, ◌∙◌, Bool, true, false, ◌&&◌, if◌then◌else◌,
  ltb, leb, ◌==◌, arith, inl, inr, Bool-cases,
}
use os.Prelude.Array.{Array, put}
use os.Mini64.Disk.{Drive, IsBytes, most_sectors, Reliable, Volume, Mini}
use os.Mini64.Disk.Calls.{
  Returns, Returns-statics, Returns-assign, Returns-print, Returns-then, Returns-now,
  Returns-weaken, content_of, disk_write-Returns, disk_flush-Returns,
}
use os.Prelude.CString.{codes}
use os.Mini64.Fat.{home_start, cluster_lba}
use os.Mini64.Fat.Bytes.{put-IsBytes, w16-IsBytes, w32-IsBytes, put_text-IsBytes}
use os.Mini64.Fat.Format.{
  volume_label, signed_sector, master_record, boot_sector, info_sector, label_sector, table_sector,
  formatted, clear_table_from, fat_format,
}

-- The sectors that `fat_format` writes, over what was there.
abbrev pub layout : Volume → (ℕ → Array) → ℕ → Array
layout v before k i =
    if k == cluster_lba v 2
    then label_sector i
    else if leb 3073 k && ltb k 4066
    then table_sector (k - 3073) i
    else if leb 2080 k && ltb k 3073
    then table_sector (k - 2080) i
    else if k == 2055
    then info_sector i
    else if k == 2049
    then info_sector i
    else if k == 2054
    then boot_sector i
    else if k == 2048
    then boot_sector i
    else if k == 0
    then master_record i
    else before k i

under : (b : Bool) (x : ℕ) {y z : ℕ} → y ≡ z → (if b then x else y) ≡ (if b then x else z)
under b x e = ap (λ w. if b then x else w) e

-- A round and those behind it.
one_more :
    (lo s n k i now before : ℕ)
    → now ≡ (if k == lo + s then table_sector s i else before)
    → (if leb (lo + (s + 1)) k && ltb k (lo + (s + 1) + n) then table_sector (k - lo) i else now)
      ≡ (if leb (lo + s) k && ltb k (lo + s + suc n) then table_sector (k - lo) i else before)
one_more lo s n k i now before e = elim (Bool-cases (k == lo + s)) [
  | inl y ↦
      let place : k - lo ≡ s = ground (arith, y) in
      let behind : (leb (lo + (s + 1)) k && ltb k (lo + (s + 1) + n)) ≡ false = ground (arith, y) in
      let here : (leb (lo + s) k && ltb k (lo + s + suc n)) ≡ true = ground (arith, y) in
      rw (behind, here, place) (e ∙ rw y refl)
  | inr z ↦
      let same : (leb (lo + (s + 1)) k && ltb k (lo + (s + 1) + n))
          ≡ (leb (lo + s) k && ltb k (lo + s + suc n)) =
        ground (arith, z) in
      let kept : now ≡ before = e ∙ rw z refl in rw (same, kept) refl
]

-- All sectors that are written are bytes.
zeros-IsBytes : IsBytes (λ i. 0)
zeros-IsBytes i lt = omega arith

signed-IsBytes : (b : Array) → IsBytes b → IsBytes (signed_sector b)
signed-IsBytes b h =
    put-IsBytes (put b 510 0x55) 511 0xaa (put-IsBytes b 510 0x55 h (omega arith)) (omega arith)

master-IsBytes : IsBytes master_record
master-IsBytes = signed-IsBytes _ (
    w32-IsBytes _ 474 131072 (
      w32-IsBytes _ 470 131072 (
        put-IsBytes _ 466 0x7f
          (w32-IsBytes _ 458 129024
            (w32-IsBytes _ 454 2048 (put-IsBytes _ 450 0x0c zeros-IsBytes (omega arith))))
          (omega arith))))

boot-IsBytes : IsBytes boot_sector
boot-IsBytes =
    let start =
      put-IsBytes _ 2 0x90
        (put-IsBytes _ 1 0x58 (put-IsBytes _ 0 0xeb zeros-IsBytes (omega arith)) (omega arith))
        (omega arith) in
    let named = put_text-IsBytes 3 (codes "OS64FAT ") _ start refl in
    let sizes =
      put-IsBytes _ 16 2
        (w16-IsBytes _ 14 32 (put-IsBytes _ 13 1 (w16-IsBytes _ 11 512 named) (omega arith)))
        (omega arith) in
    let shape =
      w16-IsBytes _ 26 16 (w16-IsBytes _ 24 63 (put-IsBytes _ 21 0xf8 sizes (omega arith))) in
    let table =
      w32-IsBytes _ 44 2
        (w32-IsBytes _ 36 993 (w32-IsBytes _ 32 129024 (w32-IsBytes _ 28 2048 shape))) in
    let marks =
      put-IsBytes _ 66 0x29
        (put-IsBytes _ 64 0x80 (w16-IsBytes _ 50 6 (w16-IsBytes _ 48 1 table)) (omega arith))
        (omega arith) in
    let label = put_text-IsBytes 71 volume_label _ (w32-IsBytes _ 67 0x64060001 marks) refl in
    signed-IsBytes _ (put_text-IsBytes 82 (codes "FAT32   ") _ label refl)

info-IsBytes : IsBytes info_sector
info-IsBytes = w32-IsBytes _ 508 0xaa550000 (
    w32-IsBytes _ 492 3 (
      w32-IsBytes _ 488 126997
        (w32-IsBytes _ 484 0x61417272 (w32-IsBytes _ 0 0x41615252 zeros-IsBytes))))

label-IsBytes : IsBytes label_sector
label-IsBytes =
    put-IsBytes _ 11 8 (put_text-IsBytes 0 volume_label _ zeros-IsBytes refl) (omega arith)

table-IsBytes : (s : ℕ) → IsBytes (table_sector s)
table-IsBytes s = elim (Bool-cases (s == 0)) [
  | inl e ↦ rw e (
      w32-IsBytes _ 8 0x0FFFFFFF
        (w32-IsBytes _ 4 0xFFFFFFFF (w32-IsBytes _ 0 0x0FFFFFF8 zeros-IsBytes)))
  | inr e ↦ rw e zeros-IsBytes
]

module _ {d : Drive} (r : Reliable d) where
  clear_table_from-Returns :
      (n f s pbar : ℕ) (x : Mini d.State)
      → f < 2
      → s + n ≤ 993
      → Returns (clear_table_from d n f s pbar) x (λ p t.
        t.volume ≡ x.volume
        × ((k i : ℕ)
            → i < 512
            → content_of r t k i ≡ (
                if leb (2080 + f * 993 + s) k && ltb k (2080 + f * 993 + s + n)
                then table_sector (k - (2080 + f * 993)) i
                else content_of r x k i)))
  unfolding clear_table_from
  clear_table_from-Returns zero f s pbar x two few =
      Returns-now pbar x refl (refl, λ k i lt. ground arith)
  clear_table_from-Returns (suc n) f s pbar x two few =
      Returns-then
        (disk_write-Returns r (home_start + 32 + f * 993 + s) (table_sector s) x
          (omega (arith, two, few)) (table-IsBytes s))
        (λ y t (v, h). Returns-print _ _ (
          Returns-weaken (clear_table_from-Returns n f (s + 1) _ _ two (omega (arith, few)))
            (λ p u (v', h').
              (v' ∙ v, λ k i lt. h' k i lt ∙ one_more (2080 + f * 993) s n k i _ _ (h k i lt)))))

  pub fat_format-Returns :
      (s : Mini d.State)
      → cluster_lba s.volume 2 < most_sectors
      → Returns (fat_format d) s (λ x t.
        t.volume ≡ formatted s.volume
        × ((k i : ℕ) → i < 512 → content_of r t k i ≡ layout s.volume (content_of r s) k i))
  unfolding fat_format
  fat_format-Returns s inside =
      Returns-then (disk_write-Returns r 0 master_record s (omega arith) master-IsBytes)
        (λ x1 s1 (v1, h1).
          Returns-then (disk_write-Returns r 2048 boot_sector s1 (omega arith) boot-IsBytes)
            (λ x2 s2 (v2, h2).
              Returns-then (disk_write-Returns r 2054 boot_sector s2 (omega arith) boot-IsBytes)
                (λ x3 s3 (v3, h3).
                  Returns-then (disk_write-Returns r 2049 info_sector s3 (omega arith) info-IsBytes)
                    (λ x4 s4 (v4, h4).
                      Returns-then
                        (disk_write-Returns r 2055 info_sector s4 (omega arith) info-IsBytes)
                        (λ x5 s5 (v5, h5). Returns-print _ _ (
                          Returns-then
                            (clear_table_from-Returns 993 0 0 0 _ (omega arith) (omega arith))
                            (λ bar6 s6 (v6, h6).
                              Returns-then
                                (clear_table_from-Returns 993 1 0 bar6 s6 (omega arith)
                                  (omega arith))
                                (λ bar7 s7 (v7, h7). Returns-print _ _ (
                                  Returns-statics _ (
                                    Returns-then
                                      (disk_write-Returns r (cluster_lba s7.volume 2) label_sector _
                                        (let e =
                                            ap (λ w. cluster_lba w 2)
                                              (v7 ∙ v6 ∙ v5 ∙ v4 ∙ v3 ∙ v2 ∙ v1) in
                                          omega (arith, e, inside))
                                        label-IsBytes)
                                      (λ x8 s8 (v8, h8). Returns-assign _ _ (
                                        Returns-weaken (disk_flush-Returns r _) (λ x9 s9 (v9, h9).
                                          let v = v7 ∙ v6 ∙ v5 ∙ v4 ∙ v3 ∙ v2 ∙ v1 in
                                          (
                                            v9 ∙ ap formatted (v8 ∙ v),
                                            λ k i lt.
                                                h9 k i lt
                                                ∙ h8 k i lt
                                                ∙ ap
                                                    (λ w.
                                                      if k == cluster_lba w 2
                                                      then label_sector i
                                                      else content_of r s7 k i)
                                                    v
                                                ∙ under (k == cluster_lba s.volume 2)
                                                    (label_sector i)
                                                    (h7 k i lt
                                                      ∙ under (leb 3073 k && ltb k 4066)
                                                          (table_sector (k - 3073) i)
                                                          (h6 k i lt
                                                            ∙ under (leb 2080 k && ltb k 3073)
                                                            (table_sector (k - 2080) i)
                                                            (h5 k i lt
                                                            ∙ under (k == 2055) (info_sector i) (
                                                            h4 k i lt
                                                            ∙ under (k == 2049) (info_sector i) (
                                                            h3 k i lt
                                                            ∙ under (k == 2054) (boot_sector i) (
                                                            h2 k i lt
                                                            ∙ under (k == 2048) (boot_sector i)
                                                            (h1 k i lt))))))),
                                          ))))))))))))))
