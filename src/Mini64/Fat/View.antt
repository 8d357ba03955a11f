-- ===== src/Mini64/Fat/View.antt =====
-- The table and the clusters of a volume in mini64/kernel.c as two functions of the cluster, and what the
-- calls do to them.
use os.Prelude.{
  ℕ, ◌+◌, ◌-◌, ◌*◌, ◌%◌, ◌^◌, ◌≤◌, ◌<◌, ◌≡◌, ◌≢◌, refl, sym, ap, ◌∙◌, Option, none, some, true,
  false, if◌then◌else◌, ltb, ◌==◌, arith, inl, inr, Bool-cases,
}
use mathlib.Core.Path.{subst}
use native.Mathlib.Nat.{mul-le-mul_right}
use os.Prelude.Array.{Array}
use os.Mini64.Disk.{Drive, IsBytes, Reliable, Volume, Mini, disk_write}
use os.Mini64.Disk.Calls.{
  Returns, Returns-weaken, content_of, disk_write-Returns, Ends, Ends-weaken,
}
use os.Mini64.Fat.{r32, table_lba, table_pos, cluster_lba, cluster_limit, fat_set, allocate_cluster}
use os.Mini64.Fat.Bytes.{r32_ext}
use os.Mini64.Fat.Table.{entry, fat_set-Returns, after_set, table_pos_inside}
use os.Mini64.Fat.Search.{IsLaidOut, cluster_at, entry_of, table_before, not_copy}
use os.Mini64.Fat.Allocate.{IsLaidOut-hint, IsAllocated, allocate_cluster-Ends}

-- Two clusters are two sectors.
cluster_lba_apart :
    (v : Volume) (c c' : ℕ)
    → IsLaidOut v
    → 2 ≤ c
    → c < cluster_limit v
    → 2 ≤ c'
    → c' < cluster_limit v
    → (cluster_lba v c' == cluster_lba v c) ≡ (c' == c)
cluster_lba_apart v c c' l two lt two' lt' =
    let (at, below) = cluster_at v l c two lt in
    let (at', below') = cluster_at v l c' two' lt' in
    let per = l.per in
    elim (Bool-cases (c' == c)) [
      | inl e ↦
          let same : c' ≡ c = ground (arith, e) in
          rw e (ap (λ x. cluster_lba v x == cluster_lba v c) same ∙ ground arith)
      | inr e ↦ rw e (elim (Bool-cases (ltb c c')) [
        | inl l' ↦
            let more : (c - 2 + 1) * v.sectors_per_cluster ≤ (c' - 2) * v.sectors_per_cluster =
              mul-le-mul_right v.sectors_per_cluster (ground (arith, l', two)) in
            let next : (c - 2 + 1) * v.sectors_per_cluster
                ≡ (c - 2) * v.sectors_per_cluster + v.sectors_per_cluster =
              omega arith in
            let differ : cluster_lba v c' ≢ cluster_lba v c =
              λ q. absurd (omega (arith, more, next, per, at, at', q)) in
            ground (arith, differ)
        | inr g ↦
            let more : (c' - 2 + 1) * v.sectors_per_cluster ≤ (c - 2) * v.sectors_per_cluster =
              mul-le-mul_right v.sectors_per_cluster (ground (arith, g, e, two')) in
            let next : (c' - 2 + 1) * v.sectors_per_cluster
                ≡ (c' - 2) * v.sectors_per_cluster + v.sectors_per_cluster =
              omega arith in
            let differ : cluster_lba v c' ≢ cluster_lba v c =
              λ q. absurd (omega (arith, more, next, per, at, at', q)) in
            ground (arith, differ)
      ])
    ]

module _ {d : Drive} (r : Reliable d) (v : Volume) (l : IsLaidOut v) where
  -- The state's volume is `v` up to the hint.
  abbrev pub On : Mini d.State → Type 0
  On s = s.volume ≡ record v { next_free_cluster = s.volume.next_free_cluster }

  abbrev pub next_of : Mini d.State → ℕ → ℕ
  next_of s c = r32 (content_of r s (table_lba v 0 c)) (table_pos c) % 2 ^ 28

  abbrev pub data_of : Mini d.State → ℕ → Array
  data_of s c = content_of r s (cluster_lba v c)

  entry_next : (s : Mini d.State) (c : ℕ) → On s → entry r s c ≡ next_of s c
  entry_next s c on = ap (λ w. r32 (content_of r s (table_lba w 0 c)) (table_pos c) % 2 ^ 28) on

  laid : (s : Mini d.State) → On s → IsLaidOut s.volume
  laid s on = subst IsLaidOut (sym on) (IsLaidOut-hint v s.volume.next_free_cluster l)

  limited : (s : Mini d.State) → On s → (c : ℕ) → c < cluster_limit v → c < cluster_limit s.volume
  limited s on c lt = let e = ap cluster_limit on in omega (arith, e, lt)

  pub write_cluster :
      (c : ℕ) (b : Array) (s : Mini d.State)
      → On s
      → 2 ≤ c
      → c < cluster_limit v
      → IsBytes b
      → Returns (disk_write d (cluster_lba s.volume c) b) s (λ x t.
        On t
        × ((c' : ℕ) → c' < cluster_limit v → next_of t c' ≡ next_of s c')
        × ((c' i : ℕ)
            → 2 ≤ c'
            → c' < cluster_limit v
            → i < 512
            → data_of t c' i ≡ (if c' == c then b i else data_of s c' i)))
  write_cluster c b s on two lt bytes =
      let below = (cluster_at v l c two lt).1 in
      let place = ap (λ w. cluster_lba w c) on in
      Returns-weaken
        (disk_write-Returns r (cluster_lba s.volume c) b s (omega (arith, place, below)) bytes)
        (λ x t (same, h). (
          same
              ∙ on
              ∙ ap {A = Volume} {B = Volume}
                  (λ w. record v { next_free_cluster = w.next_free_cluster }) (sym same),
          λ c' lt'.
              ap (λ x. x % 2 ^ 28)
                (r32_ext (content_of r t (table_lba v 0 c')) (content_of r s (table_lba v 0 c'))
                  (table_pos c') (table_pos_inside c')
                  (λ i small.
                    h (table_lba v 0 c') i small
                    ∙ ap
                        (λ k.
                          if table_lba v 0 c' == k
                          then b i
                          else content_of r s (table_lba v 0 c') i)
                        place
                    ∙ rw (table_before v c c' l two lt lt') refl)),
          λ c' i two' lt' small.
              h (cluster_lba v c') i small
              ∙ ap (λ k. if cluster_lba v c' == k then b i else data_of s c' i) place
              ∙ ap (λ y. if y then b i else data_of s c' i)
                  (cluster_lba_apart v c c' l two lt two' lt'),
        ))

  pub set_next :
      (c value : ℕ) (s : Mini d.State)
      → On s
      → c < cluster_limit v
      → value < 2 ^ 28
      → Returns (fat_set d c value) s (λ x t.
        On t
        × ((c' : ℕ)
            → c' < cluster_limit v
            → next_of t c' ≡ (if c' == c then value else next_of s c'))
        × ((c' i : ℕ) → 2 ≤ c' → c' < cluster_limit v → i < 512 → data_of t c' i ≡ data_of s c' i))
  set_next c value s on lt small =
      Returns-weaken
        (fat_set-Returns r c value s (entry_of s.volume (laid s on) c (limited s on c lt)))
        (λ x t (same, h).
          let on' : On t =
            same
            ∙ on
            ∙ ap {A = Volume} {B = Volume}
                (λ w. record v { next_free_cluster = w.next_free_cluster }) (sym same) in
          (
            on',
            λ c' lt'.
                let kept : value % 2 ^ 28 ≡ value = omega (arith, small) in
                sym (entry_next t c' on')
                ∙ after_set r c c' value s t (entry_of s.volume (laid s on) c (limited s on c lt))
                    (entry_of s.volume (laid s on) c' (limited s on c' lt')) (omega (arith, small))
                    same h
                ∙ ap (λ x. if c' == c then x else entry r s c') kept
                ∙ ap (λ x. if c' == c then value else x) (entry_next s c' on),
            λ c' i two' lt' below.
                let behind = (cluster_at v l c' two' lt').0 in
                let start = ap (λ w. w.vol_start + w.data_start) on in
                let outside =
                  not_copy r s.volume c (cluster_lba v c') (laid s on) (limited s on c lt)
                    (omega (arith, behind, start)) in
                h (cluster_lba v c') i below ∙ rw outside refl,
          ))

  -- What `allocate_cluster` does: it takes a free cluster, or there is none.
  abbrev pub IsGiven : Mini d.State → Option ℕ → Mini d.State → Type 0
  IsGiven s o t = elim o [
    | none ↦ (c : ℕ) → 3 ≤ c → c < cluster_limit v → (next_of t c == 0) ≡ false
    | some c ↦
        3 ≤ c
        × c < cluster_limit v
        × (next_of s c == 0) ≡ true
        × On t
        × ((c' : ℕ)
            → c' < cluster_limit v
            → next_of t c' ≡ (if c' == c then 0x0FFFFFFF else next_of s c'))
        × ((c' i : ℕ)
            → 2 ≤ c'
            → c' < cluster_limit v
            → i < 512
            → data_of t c' i ≡ (if c' == c then 0 else data_of s c' i))
  ]

  given :
      (s : Mini d.State) (o : Option ℕ) (t : Mini d.State)
      → On s
      → IsAllocated r s o t
      → IsGiven s o t
  given s none t on (used, same, h) = λ c three lt.
      let limit = ap cluster_limit on in
      ap (λ x. x == 0)
        (ap (λ x. x % 2 ^ 28)
            (r32_ext (content_of r t (table_lba v 0 c)) (content_of r s (table_lba v 0 c))
              (table_pos c) (table_pos_inside c) (h (table_lba v 0 c)))
          ∙ sym (entry_next s c on))
      ∙ used c three (limited s on c lt)
  given s (some c) t on (three, lt, free, first, taken) =
      let limit = ap cluster_limit on in
      let lt' : c < cluster_limit v = omega (arith, limit, lt) in
      let two : 2 ≤ c = omega (arith, three) in
      let on' : On t =
        taken.volume
        ∙ ap {A = Volume} {B = Volume} (λ w. record w { next_free_cluster = c + 1 }) on
        ∙ ap {A = Volume} {B = Volume} (λ w. record v { next_free_cluster = w.next_free_cluster })
            (sym taken.volume) in
      (
        three,
        lt',
        ap (λ x. x == 0) (sym (entry_next s c on)) ∙ free,
        on',
        λ c' l'.
            sym (entry_next t c' on')
            ∙ taken.marked c' (limited s on c' l')
            ∙ ap (λ x. if c' == c then 0x0FFFFFFF else x) (entry_next s c' on),
        λ c' i two' l' below. elim (Bool-cases (c' == c)) [
          | inl e ↦
              let here : c' ≡ c = ground (arith, e) in
              rw e (
                ap (λ x. data_of t x i) here
                ∙ ap (λ w. content_of r t (cluster_lba w c) i) (sym on)
                ∙ taken.zeroed i below)
          | inr e ↦
              let behind = (cluster_at v l c' two' l').0 in
              let start = ap (λ w. w.vol_start + w.data_start) on in
              let apart : (cluster_lba v c' == cluster_lba s.volume c) ≡ false =
                ap (λ w. cluster_lba v c' == cluster_lba w c) on
                ∙ cluster_lba_apart v c c' l two lt' two' l'
                ∙ e in
              rw e (taken.others (cluster_lba v c') i (omega (arith, behind, start)) apart below)
        ],
      )

  pub allocate : (s : Mini d.State) → On s → Ends (allocate_cluster d) s (IsGiven s)
  allocate s on = Ends-weaken (allocate_cluster-Ends r s (laid s on)) (λ o t h. given s o t on h)
