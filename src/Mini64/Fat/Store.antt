-- ===== src/Mini64/Fat/Store.antt =====
-- `disk_store_large` of mini64/kernel.c.
use os.Prelude.{
  ℕ, zero, suc, ◌+◌, ◌-◌, ◌*◌, ◌/◌, ◌%◌, ◌^◌, List, ◌++◌, Option, none, some, ◌&&◌, ◌||◌,
  if◌then◌else◌, ltb, leb, ◌==◌, replicate,
}
use os.Prelude.Array.{Array, put}
use os.Prelude.CString.{codes}
use os.Mini64.Print.{pnum}
use os.Mini64.Disk.{
  Drive, Step, pure, fail, attempt, statics, print, ◌>>=◌, ◌>>◌, disk_read, disk_write, disk_flush,
}
use os.Mini64.Fat.{
  w16, w32, zero_from, cluster_lba, cluster_limit, fat_get, fat_set, allocate_cluster,
}
use os.Mini64.Fat.Format.{put_text}
use os.Mini64.Fat.Entries.{name83, find_entry, free_slot, first_cluster}

-- The buffer with the bytes of the data from byte `written` on.
abbrev pub chunk_at : Array → ℕ → ℕ → Array
chunk_at bytes size written i =
    if ltb i 512 && ltb i (size - written) then bytes (written + i) else 0

-- The sign count of the progress bar behind `written` bytes.
abbrev pub bar_after : ℕ → ℕ → ℕ → ℕ
bar_after total written pbar =
    let want = written / 512 * 40 / total in
    if total == 0 then pbar else if ltb pbar want then want else pbar

-- The entry of a file in the directory.
abbrev pub put_entry : ℕ → List ℕ → ℕ → ℕ → Array → Array
put_entry slot name size first root =
    let o = slot * 32 in
    let e = put (put_text o (name83 name) (zero_from o 32 root)) (o + 11) 0x20 in
    w16 (w16 (w32 e (o + 28) size) (o + 20) (first / 2 ^ 16)) (o + 26) first

module _ (d : Drive) where
  -- The loop that frees the clusters of the old file, with the rounds left.
  unfoldable pub free_chain : ℕ → ℕ → ℕ → Step d.State (Unit {0})
  free_chain zero limit cluster = pure tt
  free_chain (suc n) limit cluster =
      let go_on = (do
        next ← fat_get d cluster
        freed ← fat_set d cluster 0
        let rest = free_chain n limit next
        if leb 0x0FFFFFF8 next || ltb next 2 then pure tt else rest) in
      if leb 2 cluster && ltb cluster limit then go_on else pure tt

  abbrev pub remove_old : Option (Array × ℕ) → Step d.State (Unit {0})
  remove_old none = pure tt
  remove_old (some (root, slot)) = do
    v ← statics
    freed ← free_chain (cluster_limit v) (cluster_limit v) (first_cluster root slot)
    disk_write d (cluster_lba v v.root_cluster) (put root (slot * 32) 0xe5)

  -- The loop that writes the data, with the rounds left: `tail` is the last cluster of the chain.
  unfoldable pub write_chunks : ℕ → Array → ℕ → ℕ → ℕ → ℕ → ℕ → Step d.State ℕ
  write_chunks zero bytes size total tail written pbar = pure pbar
  write_chunks (suc n) bytes size total tail written pbar =
      let after = written + 512 in
      let bar = bar_after total after pbar in
      let go_on = (do
        next ← allocate_cluster d
        linked ← attempt (fat_set d tail next)
        write_chunks n bytes size total next after bar) in
      let store = (do
        v ← statics
        disk_write d (cluster_lba v tail) (chunk_at bytes size written)
        print (replicate (bar - pbar) 35)
        if ltb after size then go_on else pure bar) in
      if ltb written size then store else pure pbar

  -- Each round writes 512 bytes, and no volume has the clusters for more than 2^32 - 512 bytes.
  unfoldable pub disk_store_large : List ℕ → Array → ℕ → Step d.State (Unit {0})
  disk_store_large name bytes size = do
    found ← attempt (find_entry d name)
    removed ← remove_old found
    v ← statics
    root ← disk_read d (cluster_lba v v.root_cluster)
    slot ← elim (free_slot 16 0 root) [ none ↦ fail | some slot ↦ pure slot ]
    first ← allocate_cluster d
    print (codes "[")
    pbar ← write_chunks (size / 512 + 1) bytes size ((size + 511) % 2 ^ 32 / 512) first 0 0
    print (replicate (40 - pbar) 35 ++ codes "]" ++ pnum 100 ++ codes "%\n")
    v ← statics
    disk_write d (cluster_lba v v.root_cluster) (put_entry slot name size first root)
    disk_flush d
