-- ===== src/Mini64/Fat/Search.antt =====
-- `allocate_cluster` of mini64/kernel.c on a drive that keeps what is written.
use os.Prelude.{
  ℕ, ◌+◌, ◌-◌, ◌*◌, ◌/◌, ◌%◌, ◌^◌, ◌≤◌, ◌<◌, ◌≡◌, ◌≢◌, refl, sym, ap, ◌∙◌, true, false,
  if◌then◌else◌, ◌==◌, sub32, arith, inl, inr, Bool-cases,
}
use native.Mathlib.Nat.{mul-le-mul_right, div-mul-le_self}
use os.Mini64.Disk.{Drive, most_sectors, Reliable, Volume, Mini}
use os.Mini64.Disk.Calls.{
  Returns, Returns-statics, Returns-assign, Returns-then, Returns-now, Returns-attempt, content_of,
  SameDisk, disk_write-Returns,
}
use os.Mini64.Fat.{
  home_sectors, r32, w32, table_lba, table_pos, cluster_lba, cluster_limit, take_cluster,
}
use os.Mini64.Fat.Bytes.{r32_ext}
use os.Mini64.Fat.Table.{
  HasEntry, is_copy, entry, entry_same, fat_set-Returns, after_set, copy_inside, table_pos_inside,
  is_copy_at,
}

-- The layout of a volume: the table has an entry for each cluster, and the clusters lie behind it and
-- before the end of the partition.
pub record IsLaidOut (v : Volume) : Type 0 where
  pub copies : 0 < v.fat_count
  pub per : 0 < v.sectors_per_cluster
  pub behind : v.reserved + v.fat_count * v.fat_sectors ≤ v.data_start
  pub before_end : v.data_start ≤ home_sectors
  pub numbered : v.vol_start + home_sectors ≤ most_sectors
  pub entries : cluster_limit v * 4 ≤ v.fat_sectors * 512

pub entry_of : (v : Volume) → IsLaidOut v → (c : ℕ) → c < cluster_limit v → HasEntry v c
entry_of v l c lt =
    let first : 1 * v.fat_sectors ≤ v.fat_count * v.fat_sectors =
      mul-le-mul_right v.fat_sectors l.copies in
    let behind = l.behind in
    let before = l.before_end in
    let numbered = l.numbered in
    let entries = l.entries in
    (
      l.copies,
      omega (arith, first, behind, before, entries, lt),
      omega (arith, lt, entries),
      omega (arith, behind, before, numbered),
    )

-- A cluster is a sector behind the table.
pub cluster_at :
    (v : Volume)
    → IsLaidOut v
    → (c : ℕ) → 2 ≤ c
    → c < cluster_limit v
    → cluster_lba v c ≡ v.vol_start + v.data_start + (c - 2) * v.sectors_per_cluster
      × cluster_lba v c < most_sectors
cluster_at v l c two lt =
    let room = div-mul-le_self (sub32 home_sectors v.data_start) v.sectors_per_cluster in
    let few : (c - 2 + 1) * v.sectors_per_cluster
        ≤ sub32 home_sectors v.data_start / v.sectors_per_cluster * v.sectors_per_cluster =
      mul-le-mul_right v.sectors_per_cluster (omega (arith, lt)) in
    let before = l.before_end in
    let numbered = l.numbered in
    let small = (entry_of v l c lt).1 in
    let next : (c - 2 + 1) * v.sectors_per_cluster
        ≡ (c - 2) * v.sectors_per_cluster + v.sectors_per_cluster =
      omega arith in
    let per = l.per in
    let d : sub32 home_sectors v.data_start ≡ home_sectors - v.data_start = omega (arith, before) in
    let wrap : sub32 c 2 ≡ c - 2 = omega (arith, small) in
    rw wrap (omega (arith, room, few, next, per, d, before, numbered), omega arith)

pub table_before :
    (v : Volume) (c c' : ℕ)
    → IsLaidOut v
    → 2 ≤ c
    → c < cluster_limit v
    → c' < cluster_limit v
    → (table_lba v 0 c' == cluster_lba v c) ≡ false
table_before v c c' l two lt lt' =
    let (place, below) = cluster_at v l c two lt in
    let (t, before) = copy_inside v 0 c' (entry_of v l c' lt') l.copies in
    let behind = l.behind in
    let differs : table_lba v 0 c' ≢ cluster_lba v c =
      λ same. absurd (omega (arith, place, before, behind, same)) in
    ground (arith, differs)

module _ {d : Drive} (r : Reliable d) where
  -- What the taking of a cluster leaves: its entry is the end of a chain, the other entries stay, its
  -- sector is zero, and no sector outside the table and this one changes.
  pub record IsTaken (c : ℕ) (s t : Mini d.State) : Type 0 where
    pub volume : t.volume ≡ record (s.volume) { next_free_cluster = c + 1 }
    pub marked :
        (c' : ℕ)
        → c' < cluster_limit s.volume
        → entry r t c' ≡ (if c' == c then 0x0FFFFFFF else entry r s c')
    pub zeroed : (i : ℕ) → i < 512 → content_of r t (cluster_lba s.volume c) i ≡ 0
    pub others :
        (k i : ℕ)
        → s.volume.vol_start + s.volume.data_start ≤ k
        → (k == cluster_lba s.volume c) ≡ false
        → i < 512
        → content_of r t k i ≡ content_of r s k i

  -- The table's sectors come before the clusters.
  pub not_copy :
      (v : Volume) (c k : ℕ)
      → IsLaidOut v
      → c < cluster_limit v
      → v.vol_start + v.data_start ≤ k
      → is_copy v v.fat_count 0 c k ≡ false
  not_copy v c k l lt le = elim (Bool-cases (is_copy v v.fat_count 0 c k)) [
    | inl y ↦
        let (g, lo, hi, at) = is_copy_at v v.fat_count 0 c k y in
        let (t, before) = copy_inside v g c (entry_of v l c lt) (omega (arith, hi)) in
        let behind = l.behind in absurd (omega (arith, before, at, behind, le))
    | inr n ↦ n
  ]

  -- The state after both writes.
  taken :
      (c : ℕ) (s t u : Mini d.State)
      → IsLaidOut s.volume
      → 2 ≤ c
      → c < cluster_limit s.volume
      → t.volume ≡ s.volume
      → ((k i : ℕ)
          → i < 512
          → content_of r t k i ≡ (
              if is_copy s.volume s.volume.fat_count 0 c k
              then w32 (content_of r s k) (table_pos c) 0x0FFFFFFF i
              else content_of r s k i))
      → u.volume ≡ t.volume
      → ((k i : ℕ)
          → i < 512
          → content_of r u k i ≡ (if k == cluster_lba t.volume c then 0 else content_of r t k i))
      → IsTaken c s (record u { volume = record (u.volume) { next_free_cluster = c + 1 } })
  taken c s t u l two lt v h v' h' =
      let sectors : (k i : ℕ)
          → i < 512
          → content_of r u k i ≡ (if k == cluster_lba s.volume c then 0 else content_of r t k i) =
        λ k i lt. h' k i lt ∙ ap (λ w. if k == cluster_lba w c then 0 else content_of r t k i) v in
      record {
        volume =
            ap {A = Volume} {B = Volume} (λ w. record w { next_free_cluster = c + 1 }) (v' ∙ v);
        marked = λ c' lt'.
            let elsewhere = table_before s.volume c c' l two lt lt' in
            ap (λ w. r32 (content_of r u (table_lba w 0 c')) (table_pos c') % 2 ^ 28) (v' ∙ v)
            ∙ ap (λ x. x % 2 ^ 28)
                (r32_ext (content_of r u (table_lba s.volume 0 c'))
                  (content_of r t (table_lba s.volume 0 c')) (table_pos c') (table_pos_inside c')
                  (λ i lt. sectors (table_lba s.volume 0 c') i lt ∙ rw elsewhere refl))
            ∙ ap (λ w. r32 (content_of r t (table_lba w 0 c')) (table_pos c') % 2 ^ 28) (sym v)
            ∙ after_set r c c' 0x0FFFFFFF s t (entry_of s.volume l c lt)
                (entry_of s.volume l c' lt') (omega arith) v h;
        zeroed = λ i lt.
            let here : (cluster_lba s.volume c == cluster_lba s.volume c) ≡ true = ground arith in
            sectors (cluster_lba s.volume c) i lt ∙ rw here refl;
        others = λ k i behind elsewhere lt'.
            let outside = not_copy s.volume c k l lt behind in
            sectors k i lt' ∙ rw elsewhere (h k i lt' ∙ rw outside refl);
      }

  pub take_cluster-Returns :
      (c : ℕ) (s : Mini d.State)
      → IsLaidOut s.volume
      → 2 ≤ c
      → c < cluster_limit s.volume
      → Returns (take_cluster d c) s (λ x t. x ≡ c × IsTaken c s t)
  unfolding take_cluster
  take_cluster-Returns c s l two lt =
      Returns-then (Returns-attempt (fat_set-Returns r c 0x0FFFFFFF s (entry_of s.volume l c lt)))
        (λ o t (x, e, (v, h)). Returns-statics _ (
          Returns-then
            (disk_write-Returns r (cluster_lba t.volume c) (λ i. 0) t
              (let same = ap (λ w. cluster_lba w c) v in
                let below = (cluster_at s.volume l c two lt).1 in omega (arith, same, below))
              (λ i lt. omega arith))
            (λ y u (v', h').
              Returns-assign _ _ (Returns-now c _ refl (refl, taken c s t u l two lt v h v' h')))))

  pub IsTaken-same : (c : ℕ) (s u t : Mini d.State) → SameDisk r s u → IsTaken c u t → IsTaken c s t
  IsTaken-same c s u t (v, h) taken = record {
    volume =
        taken.volume ∙ ap {A = Volume} {B = Volume} (λ w. record w { next_free_cluster = c + 1 }) v;
    marked = λ c' lt.
        taken.marked c' (let e = ap cluster_limit v in omega (arith, e, lt))
        ∙ ap (λ x. if c' == c then 0x0FFFFFFF else x) (entry_same r s u c' (v, h));
    zeroed = λ i lt. ap (λ w. content_of r t (cluster_lba w c) i) (sym v) ∙ taken.zeroed i lt;
    others = λ k i behind elsewhere lt.
        taken.others k i
          (let e = ap (λ w. w.vol_start + w.data_start) v in omega (arith, e, behind))
          (ap (λ w. k == cluster_lba w c) v ∙ elsewhere) lt
        ∙ h k i lt;
  }
