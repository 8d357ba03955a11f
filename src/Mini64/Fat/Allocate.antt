-- ===== src/Mini64/Fat/Allocate.antt =====
-- The search of `allocate_cluster` in mini64/kernel.c: it takes the first free cluster from the hint on,
-- around the end of the table.
use os.Prelude.{
  ℕ, zero, suc, ◌+◌, ◌-◌, ◌≤◌, ◌<◌, ◌≡◌, ◌⊎◌, refl, sym, ap, ◌∙◌, Option, none, some, true, false,
  ◌||◌, if◌then◌else◌, ltb, leb, ◌==◌, arith, inl, inr, Bool-cases,
}
use mathlib.Core.Path.{subst}
use os.Mini64.Disk.{Drive, most_sectors, Reliable, Volume, Mini, Step, fail}
use os.Mini64.Disk.Calls.{
  SameDisk, SameDisk-trans, content_of, Ends, Ends-then, Ends-now, Ends-returns, Ends-statics,
  Ends-assign,
}
use os.Mini64.Fat.{table_lba, cluster_limit, take_cluster, search_from, allocate_cluster}
use os.Mini64.Fat.Table.{first_inside, entry, entry_same, fat_get-Returns}
use os.Mini64.Fat.Search.{entry_of, IsLaidOut, IsTaken, IsTaken-same, take_cluster-Returns}

-- Where the search starts.
abbrev pub search_start : Volume → ℕ
search_start v =
    if ltb v.next_free_cluster 3 || leb (cluster_limit v) v.next_free_cluster
    then 3
    else v.next_free_cluster

start_range :
    (v : Volume) → 3 ≤ search_start v × ((search_start v < cluster_limit v) ⊎ (search_start v ≡ 3))
start_range v =
    elim (Bool-cases (ltb v.next_free_cluster 3 || leb (cluster_limit v) v.next_free_cluster)) [
      | inl e ↦ rw e (omega arith, inr refl)
      | inr e ↦ rw e (ground (arith, e), inl (ground (arith, e)))
    ]

pub IsLaidOut-hint :
    (v : Volume) (n : ℕ) → IsLaidOut v → IsLaidOut (record v { next_free_cluster = n })
IsLaidOut-hint v n l = record {
  copies = l.copies;
  per = l.per;
  behind = l.behind;
  before_end = l.before_end;
  numbered = l.numbered;
  entries = l.entries;
}

module _ {d : Drive} (r : Reliable d) where
  -- No cluster from `a` up to `b` is free.
  abbrev pub AllUsed : Mini d.State → ℕ → ℕ → Type 0
  AllUsed s a b = (c : ℕ) → a ≤ c → c < b → (entry r s c == 0) ≡ false

  -- The loop finds a free cluster, or goes on behind its last round.
  search_from-Ends :
      (n c : ℕ) (next : Step d.State ℕ) (s t : Mini d.State) (Q : Option ℕ → Mini d.State → Type 0)
      → SameDisk r s t
      → ((c' : ℕ) → c ≤ c' → c' < c + n → table_lba s.volume 0 c' < most_sectors)
      → ((u : Mini d.State) → SameDisk r s u → AllUsed s c (c + n) → Ends next u Q)
      → ((u : Mini d.State) (c' : ℕ)
          → SameDisk r s u
          → c ≤ c'
          → c' < c + n
          → (entry r s c' == 0) ≡ true
          → AllUsed s c c'
          → Ends (take_cluster d c') u Q)
      → Ends (search_from d n c next) t Q
  unfolding search_from
  search_from-Ends zero c next s t Q same inside stop found =
      stop t same (λ c' lo hi. absurd (omega (arith, lo, hi)))
  search_from-Ends (suc n) c next s t Q same inside stop found =
      Ends-then
        (fat_get-Returns r c t (
          let e = ap (λ w. table_lba w 0 c) same.0 in
          let here = inside c (omega arith) (omega arith) in omega (arith, e, here)))
        (λ value u (e, same'). elim (Bool-cases (value == 0)) [
          | inl z ↦ rw z (
              found u c (SameDisk-trans r s t u same same') (omega arith) (omega arith)
                (ap (λ x. x == 0) (sym (entry_same r s t c same) ∙ sym e) ∙ z)
                (λ c'' lo hi. absurd (omega (arith, lo, hi))))
          | inr z ↦
              let used : (entry r s c == 0) ≡ false =
                ap (λ x. x == 0) (sym (entry_same r s t c same) ∙ sym e) ∙ z in
              let more : (b : ℕ) → AllUsed s (c + 1) b → AllUsed s c b = λ b h x lo hi.
                elim (Bool-cases (x == c)) [
                  | inl y ↦
                      let here : x ≡ c = ground (arith, y) in ap (λ x. entry r s x == 0) here ∙ used
                  | inr y ↦ h x (ground (arith, y, lo)) hi
                ] in
              rw z (
                search_from-Ends n (c + 1) next s u Q (SameDisk-trans r s t u same same')
                  (λ c' lo hi. inside c' (omega (arith, lo)) (omega (arith, hi)))
                  (λ w same'' h.
                    stop w same'' (more (c + suc n) (λ x lo hi. h x lo (omega (arith, hi)))))
                  (λ w c' same'' lo hi free h.
                    found w c' same'' (omega (arith, lo)) (omega (arith, hi)) free (more c' h)))
        ])

  -- Cluster `c` is the first that is free from `start` on, around the end of the table.
  abbrev pub IsFirst : Mini d.State → ℕ → ℕ → Type 0
  IsFirst s start c =
      (start ≤ c × AllUsed s start c)
      ⊎ (c < start × AllUsed s start (cluster_limit s.volume) × AllUsed s 3 c)

  -- What `allocate_cluster` gives, and what it leaves.
  abbrev pub IsAllocated : Mini d.State → Option ℕ → Mini d.State → Type 0
  IsAllocated s o t = elim o [
    | none ↦
        AllUsed s 3 (cluster_limit s.volume)
        × t.volume ≡ record (s.volume) { next_free_cluster = search_start s.volume }
        × ((k i : ℕ) → i < 512 → content_of r t k i ≡ content_of r s k i)
    | some c ↦
        3 ≤ c
        × c < cluster_limit s.volume
        × (entry r s c == 0) ≡ true
        × IsFirst s (search_start s.volume) c
        × IsTaken r c s t
  ]

  -- The state of the search differs in the hint only.
  found_cluster :
      (n c : ℕ) (s u : Mini d.State)
      → IsLaidOut s.volume
      → SameDisk r (record s { volume = record (s.volume) { next_free_cluster = n } }) u
      → 3 ≤ c
      → c < cluster_limit s.volume
      → (entry r s c == 0) ≡ true
      → IsFirst s (search_start s.volume) c
      → Ends (take_cluster d c) u (IsAllocated s)
  found_cluster n c s u l (v, h) three lt free first =
      let laid = subst IsLaidOut (sym v) (IsLaidOut-hint s.volume n l) in
      let below = ap cluster_limit v in
      Ends-returns
        (take_cluster-Returns r c u laid (omega (arith, three)) (omega (arith, lt, below)))
        (λ x t (e, taken).
          let there =
            IsTaken-same r c (record s { volume = record (s.volume) { next_free_cluster = n } }) u t
              (v, h) taken in
          subst (λ o. IsAllocated s (some o) t) (sym e)
            (
              three,
              lt,
              free,
              first,
              record {
                volume = there.volume;
                marked = there.marked;
                zeroed = there.zeroed;
                others = there.others;
              },
            ))

  -- On a laid out volume on a drive that keeps what is written, `allocate_cluster` takes the first free
  -- cluster from its hint on, around the end of the table: the cluster is in range, its entry becomes
  -- the end of a chain, all other entries stay, its sector becomes zero and no other sector behind the
  -- table changes. It fails only if no cluster is free, and then no sector changes.
  pub allocate_cluster-Ends :
      (s : Mini d.State) → IsLaidOut s.volume → Ends (allocate_cluster d) s (IsAllocated s)
  unfolding allocate_cluster
  allocate_cluster-Ends s l =
      let start = search_start s.volume in
      let (three, range) = start_range s.volume in
      let s' : Mini d.State = record s {
        volume = record (s.volume) { next_free_cluster = start };
      } in
      Ends-statics _ (
        Ends-assign _ _ (
          search_from-Ends (cluster_limit s.volume - start) start _ s' s' _ (refl, λ k i lt. refl)
            (λ c lo hi. first_inside s.volume c (entry_of s.volume l c (omega (arith, lo, hi))))
            (λ u same used.
              search_from-Ends (start - 3) 3 fail s' u _ same
                (λ c lo hi. first_inside s.volume c (
                  entry_of s.volume l c (elim range [
                    | inl below ↦ omega (arith, hi, three, below)
                    | inr low ↦ omega (arith, hi, lo, low)
                  ])))
                (λ w same' used'. Ends-now none w refl (
                  (λ x lo hi. elim (Bool-cases (ltb x start)) [
                    | inl lt ↦ used' x lo (ground (arith, lt, three))
                    | inr le ↦ used x (ground (arith, le)) (omega (arith, hi))
                  ]),
                  same'.0,
                  same'.1,
                ))
                (λ w c same' lo hi free before.
                  found_cluster start c s w l same' lo
                    (elim range [
                      | inl below ↦ omega (arith, hi, three, below)
                      | inr is_3 ↦ absurd (omega (arith, lo, hi, is_3))
                    ])
                    free
                    (inr (
                      omega (arith, hi, three),
                      (λ x lo hi. used x lo (omega (arith, lo, hi))),
                      before,
                    ))))
            (λ u c same lo hi free before.
              found_cluster start c s u l same (omega (arith, lo, three)) (omega (arith, lo, hi))
                free (inl (lo, before)))))
