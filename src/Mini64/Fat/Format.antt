-- ===== src/Mini64/Fat/Format.antt =====
-- `fat_init`, `fat_check` and `fat_format` of mini64/kernel.c.
use os.Prelude.{
  ℕ, zero, suc, ◌+◌, ◌-◌, ◌*◌, ◌/◌, ◌%◌, ◌^◌, List, [], ◌∷◌, Option, none, some, Bool, true, not,
  ◌&&◌, ◌||◌, if◌then◌else◌, ltb, leb, ◌==◌, replicate,
}
use os.Prelude.Array.{Array, put}
use os.Prelude.CString.{codes}
use os.Mini64.Disk.{
  Drive, Volume, Step, pure, attempt, statics, assign, require, print, ◌>>=◌, ◌>>◌, disk_read,
  disk_write, disk_flush,
}
use os.Mini64.Fat.{home_start, home_sectors, r16, r32, w16, w32, cluster_lba, fat_get}

-- `b[510] == 0x55 && b[511] == 0xAA`
abbrev pub is_signed : Array → Bool
is_signed b = (b 510 == 0x55) && (b 511 == 0xaa)

abbrev pub is_fat_partition : Array → Bool
is_fat_partition b = (b 450 == 0x0c) || (b 450 == 0x0b)

abbrev pub is_fat32 : Array → Bool
is_fat32 b = (r16 b 11 == 512) && (r32 b 82 == 0x33544146)

-- The volume that a boot sector describes.
abbrev pub described : Array → Volume → Volume
described b v = record v {
  sectors_per_cluster = b 13;
  reserved = r16 b 14;
  fat_count = b 16;
  fat_sectors = r32 b 36;
  root_cluster = r32 b 44;
  data_start = (r16 b 14 + b 16 * r32 b 36) % 2 ^ 32;
  next_free_cluster = 3;
}

-- The hint of the FSInfo sector, when it could be read.
abbrev pub hinted : Option Array → Volume → Volume
hinted none v = v
hinted (some b) v = record v {
  next_free_cluster = if leb 3 (r32 b 492) then r32 b 492 else v.next_free_cluster;
}

-- `buf[o + i] = text[i]`
abbrev pub put_text : ℕ → List ℕ → Array → Array
put_text o [] b = b
put_text o (c ∷ cs) b = put_text (o + 1) cs (put b o c)

abbrev pub volume_label : List ℕ
volume_label = codes "OS64 HOME  "

abbrev pub signed_sector : Array → Array
signed_sector b = put (put b 510 0x55) 511 0xaa

-- The sectors that `fat_format` builds from zeros.
abbrev pub master_record : Array
master_record =
    let b = put (λ i. 0) 450 0x0c in
    let b = w32 b 454 home_start in
    let b = w32 b 458 home_sectors in
    let b = put b 466 0x7f in
    let b = w32 b 470 (home_start + home_sectors) in signed_sector (w32 b 474 131072)

abbrev pub boot_sector : Array
boot_sector =
    let b = put (put (put (λ i. 0) 0 0xeb) 1 0x58) 2 0x90 in
    let b = put_text 3 (codes "OS64FAT ") b in
    let b = put (w16 (put (w16 b 11 512) 13 1) 14 32) 16 2 in
    let b = w16 (w16 (put b 21 0xf8) 24 63) 26 16 in
    let b = w32 (w32 (w32 (w32 b 28 home_start) 32 home_sectors) 36 993) 44 2 in
    let b = put (put (w16 (w16 b 48 1) 50 6) 64 0x80) 66 0x29 in
    let b = put_text 71 volume_label (w32 b 67 0x64060001) in
    signed_sector (put_text 82 (codes "FAT32   ") b)

abbrev pub info_sector : Array
info_sector =
    let b = w32 (w32 (λ i. 0) 0 0x41615252) 484 0x61417272 in
    w32 (w32 (w32 b 488 126997) 492 3) 508 0xaa550000

abbrev pub first_table_sector : Array
first_table_sector = w32 (w32 (w32 (λ i. 0) 0 0x0FFFFFF8) 4 0xFFFFFFFF) 8 0x0FFFFFFF

abbrev pub label_sector : Array
label_sector = put (put_text 0 volume_label (λ i. 0)) 11 8

-- The volume that `fat_format` leaves in the statics.
abbrev pub formatted : Volume → Volume
formatted v = record v {
  vol_start = home_start;
  reserved = 32;
  fat_count = 2;
  fat_sectors = 993;
  sectors_per_cluster = 1;
  root_cluster = 2;
  data_start = 2018;
  next_free_cluster = 3;
  fat_mounted = true;
}

-- Sector `s` of a copy of the table, and the sign count of the progress bar behind it in copy `f`.
abbrev pub table_sector : ℕ → Array
table_sector s = if s == 0 then first_table_sector else λ i. 0

abbrev pub bar_wanted : ℕ → ℕ → ℕ
bar_wanted f s = (f * 993 + s + 1) * 40 / (2 * 993)

module _ (d : Drive) where
  unfoldable pub fat_init : Step d.State (Unit {0})
  fat_init = do
    b ← disk_read d 0
    require (is_signed b)
    require (is_fat_partition b)
    assign (λ v. record v { vol_start = r32 b 454 })
    b ← disk_read d (r32 b 454)
    require (is_signed b)
    require (is_fat32 b)
    assign (described b)
    v ← statics
    b ← attempt (disk_read d ((v.vol_start + 1) % 2 ^ 32))
    assign (hinted b)
    assign (λ v. record v { fat_mounted = true })
    disk_flush d

  unfoldable fat_check : Step d.State (Unit {0})
  fat_check = do
    fat_init
    v ← statics
    b ← disk_read d ((v.vol_start + 1) % 2 ^ 32)
    require ((r32 b 0 == 0x41615252) && (r32 b 484 == 0x61417272) && (r32 b 508 == 0xaa550000))
    root ← fat_get d v.root_cluster
    require (not (root == 0) && not (root == 0x0FFFFFF7))

  -- The rounds from sector `s` on, with the number that is left.
  unfoldable pub clear_table_from : ℕ → ℕ → ℕ → ℕ → Step d.State ℕ
  clear_table_from zero f s pbar = pure pbar
  clear_table_from (suc n) f s pbar = do
    disk_write d (home_start + 32 + f * 993 + s) (table_sector s)
    print (replicate (bar_wanted f s - pbar) 35)
    clear_table_from n f (s + 1) (if ltb pbar (bar_wanted f s) then bar_wanted f s else pbar)

  unfoldable pub fat_format : Step d.State (Unit {0})
  fat_format = do
    disk_write d 0 master_record
    disk_write d home_start boot_sector
    disk_write d (home_start + 6) boot_sector
    disk_write d (home_start + 1) info_sector
    disk_write d (home_start + 7) info_sector
    print (codes "[")
    pbar ← clear_table_from 993 0 0 0
    pbar ← clear_table_from 993 1 0 pbar
    print (codes "]100%\n")
    v ← statics
    disk_write d (cluster_lba v 2) label_sector
    assign formatted
    disk_flush d
