-- ===== src/Mini64/Fat.antt =====
-- The FAT32 volume of mini64/kernel.c: numbers in a sector, the table, and the search for a free cluster.
pub mod Bytes
pub mod Format
pub mod Entries
pub mod Store
pub mod Table
pub mod Search
pub mod Allocate
pub mod Mounted
pub mod Mount
pub mod Fresh
pub mod View
pub mod Chain
pub mod Entry
pub mod Stored
use os.Prelude.{
  ℕ, zero, suc, ◌+◌, ◌-◌, ◌*◌, ◌/◌, ◌%◌, ◌^◌, List, [], ◌∷◌, ◌++◌, Option, none, some, Bool, true,
  false, not, ◌&&◌, ◌||◌, if◌then◌else◌, ltb, leb, ◌==◌, sub32,
}
use os.Prelude.Array.{Array, put}
use os.Mini64.Disk.{
  Drive, Volume, Step, pure, fail, attempt, statics, assign, require, print, ◌>>=◌, ◌>>◌, disk_read,
  disk_write,
}

abbrev pub home_start : ℕ
home_start = 2048

abbrev pub home_sectors : ℕ
home_sectors = 129024

-- The bytes of a buffer are below 256, so that the parts that `|` joins do not overlap.
abbrev pub r16 : Array → ℕ → ℕ
r16 b o = b o + b (o + 1) * 2 ^ 8

abbrev pub r32 : Array → ℕ → ℕ
r32 b o = r16 b o + r16 b (o + 2) * 2 ^ 16

abbrev pub w16 : Array → ℕ → ℕ → Array
w16 b o v = put (put b o (v % 256)) (o + 1) (v / 2 ^ 8 % 256)

abbrev pub w32 : Array → ℕ → ℕ → Array
w32 b o v = w16 (w16 b o v) (o + 2) (v / 2 ^ 16)

-- `zero(b + o, n)`
abbrev pub zero_from : ℕ → ℕ → Array → Array
zero_from o n b k = if leb o k && ltb k (o + n) then 0 else b k

abbrev pub cluster_lba : Volume → ℕ → ℕ
cluster_lba v c = (v.vol_start + v.data_start + sub32 c 2 * v.sectors_per_cluster) % 2 ^ 32

-- The sector of the entry of a cluster in copy `f` of the table, and the entry's place in the sector.
abbrev pub table_lba : Volume → ℕ → ℕ → ℕ
table_lba v f c = (v.vol_start + v.reserved + f * v.fat_sectors + c * 4 % 2 ^ 32 / 512) % 2 ^ 32

abbrev pub table_pos : ℕ → ℕ
table_pos c = c * 4 % 2 ^ 32 % 512

-- Where the numbers of the clusters end; `sectors_per_cluster` is not 0.
abbrev pub cluster_limit : Volume → ℕ
cluster_limit v = sub32 home_sectors v.data_start / v.sectors_per_cluster + 2

module _ (d : Drive) where
  unfoldable pub fat_get : ℕ → Step d.State ℕ
  fat_get c = do
    v ← statics
    b ← attempt (disk_read d (table_lba v 0 c))
    pure (elim b [ none ↦ 0x0FFFFFFF | some b ↦ r32 b (table_pos c) % 2 ^ 28 ])

  -- The copies from `f` on, with the number that is left.
  unfoldable pub fat_set_from : ℕ → ℕ → ℕ → ℕ → Step d.State (Unit {0})
  fat_set_from zero f c value = pure tt
  fat_set_from (suc n) f c value = do
    v ← statics
    b ← disk_read d (table_lba v f c)
    disk_write d (table_lba v f c) (w32 b (table_pos c) value)
    fat_set_from n (f + 1) c value

  unfoldable pub fat_set : ℕ → ℕ → Step d.State (Unit {0})
  fat_set c value = do v ← statics; fat_set_from v.fat_count 0 c value

  -- A free cluster is marked as the end of a chain and cleared.
  unfoldable pub take_cluster : ℕ → Step d.State ℕ
  take_cluster c = do
    marked ← attempt (fat_set c 0x0FFFFFFF)
    v ← statics
    disk_write d (cluster_lba v c) (λ i. 0)
    assign (λ w. record w { next_free_cluster = c + 1 })
    pure c

  -- `for (c = ...; n rounds; c++) if (fat_get(c) == 0) ...`, and what follows the loop.
  unfoldable pub search_from : ℕ → ℕ → Step d.State ℕ → Step d.State ℕ
  search_from zero c next = next
  search_from (suc n) c next = do
    value ← fat_get c
    let rest = search_from n (c + 1) next
    if value == 0 then take_cluster c else rest

  unfoldable pub allocate_cluster : Step d.State ℕ
  allocate_cluster = do
    v ← statics
    let max = cluster_limit v
    let start =
        if ltb v.next_free_cluster 3 || leb max v.next_free_cluster then 3 else v.next_free_cluster
    assign (λ w. record w { next_free_cluster = start })
    search_from (max - start) start (search_from (start - 3) 3 fail)
