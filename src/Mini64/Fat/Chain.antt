-- ===== src/Mini64/Fat/Chain.antt =====
-- The loop of `disk_store_large` in mini64/kernel.c that writes the data: the chain of clusters that it
-- leaves.
use os.Prelude.{
  ℕ, zero, suc, ◌+◌, ◌-◌, ◌*◌, ◌&&◌, ◌≤◌, ◌<◌, ◌≡◌, refl, sym, ap, ◌∙◌, List, [], ◌∷◌, Option, none,
  some, true, false, if◌then◌else◌, ltb, ◌==◌, ◌^◌, arith, inl, inr, Bool-cases,
}
use native.Mathlib.Nat.{mul-le-mul_right}
use os.Prelude.Array.{Array}
use os.Mini64.Disk.{Drive, IsBytes, Reliable, Volume, Mini}
use os.Mini64.Disk.Calls.{
  Returns-attempt, Ends, Ends-then, Ends-now, Ends-statics, Ends-print, Ends-either, Ends-weaken,
}
use os.Mini64.Fat.{cluster_limit}
use os.Mini64.Fat.Store.{chunk_at, write_chunks}
use os.Mini64.Fat.Search.{IsLaidOut}
use os.Mini64.Fat.View.{On, next_of, data_of, write_cluster, set_next, allocate}

-- Byte `i` behind byte `w` of the data, and zero behind its end.
abbrev pub held : Array → ℕ → ℕ → ℕ → ℕ
held bytes size w i = if ltb (w + i) size then bytes (w + i) else 0

chunk_lem : (bytes : Array) (size w i : ℕ) → i < 512 → chunk_at bytes size w i ≡ held bytes size w i
chunk_lem bytes size w i lt = elim (Bool-cases (ltb (w + i) size)) [
  | inl e ↦
      let test : (ltb i 512 && ltb i (size - w)) ≡ true = ground (arith, e, lt) in rw (test, e) refl
  | inr e ↦
      let test : (ltb i 512 && ltb i (size - w)) ≡ false = ground (arith, e) in rw (test, e) refl
]

chunk-IsBytes :
    (bytes : Array) (size w : ℕ)
    → ((i : ℕ) → i < size → bytes i < 256)
    → IsBytes (chunk_at bytes size w)
chunk-IsBytes bytes size w are i lt = elim (Bool-cases (ltb i 512 && ltb i (size - w))) [
  | inl e ↦ rw e (are (w + i) (ground (arith, e)))
  | inr e ↦ rw e (omega arith)
]

-- A cluster fits in the 28 bits of an entry.
pub limit_small : (v : Volume) → IsLaidOut v → cluster_limit v ≤ 2 ^ 25
limit_small v l =
    let first : 1 * v.fat_sectors ≤ v.fat_count * v.fat_sectors =
      mul-le-mul_right v.fat_sectors l.copies in
    let behind = l.behind in
    let before = l.before_end in
    let entries = l.entries in omega (arith, first, behind, before, entries)

module _ {d : Drive} (r : Reliable d) (v : Volume) (l : IsLaidOut v) (root_dir : ℕ) (bytes : Array)
    (size : ℕ) where
  -- The chain keeps off cluster `root_dir`, which is that of the root directory.
  abbrev pub IsInside : ℕ → Type 0
  IsInside c = 2 ≤ c × c < cluster_limit v × (c == root_dir) ≡ false

  -- The chain from cluster `c` on holds the data from byte `w` on: each entry names the next cluster, the
  -- last is the end of a chain, and each sector has its 512 bytes, zeros behind the data.
  abbrev pub Stored : Mini d.State → ℕ → ℕ → List ℕ → Type 0
  Stored t w c [] =
      next_of r v l t c ≡ 0x0FFFFFFF
      × ((i : ℕ) → i < 512 → data_of r v l t c i ≡ held bytes size w i)
      × IsInside c
      × size ≤ w + 512
  Stored t w c (c' ∷ cs) =
      next_of r v l t c ≡ c'
      × ((i : ℕ) → i < 512 → data_of r v l t c i ≡ held bytes size w i)
      × IsInside c
      × Stored t (w + 512) c' cs

  -- The clusters in use stay, but for `tail`.
  abbrev pub Kept : Mini d.State → Mini d.State → ℕ → Type 0
  Kept s t tail =
      (c : ℕ)
      → 2 ≤ c
      → c < cluster_limit v
      → (next_of r v l s c == 0) ≡ false
      → (c == tail) ≡ false
      → next_of r v l t c ≡ next_of r v l s c
        × ((i : ℕ) → i < 512 → data_of r v l t c i ≡ data_of r v l s c i)

  abbrev pub IsFull : Mini d.State → Type 0
  IsFull t = (c : ℕ) → 3 ≤ c → c < cluster_limit v → (next_of r v l t c == 0) ≡ false

  -- What the loop leaves, from `tail` and byte `w` on.
  abbrev pub IsWritten : Mini d.State → ℕ → ℕ → Option ℕ → Mini d.State → Type 0
  IsWritten s tail w o t = elim o [
    | none ↦ IsFull t
    | some bar ↦ On r v l t × Kept s t tail × ((cs : List ℕ) × Stored t w tail cs)
  ]

  -- One round that goes on: `tail` is written and linked to the free cluster `next`.
  record IsLinked (s t : Mini d.State) (tail w next : ℕ) : Type 0 where
    apart : (next == tail) ≡ false
    link : next_of r v l t tail ≡ next
    end_next : next_of r v l t next ≡ 0x0FFFFFFF
    chunk : (i : ℕ) → i < 512 → data_of r v l t tail i ≡ held bytes size w i
    others :
        (c : ℕ)
        → 2 ≤ c
        → c < cluster_limit v
        → (next_of r v l s c == 0) ≡ false
        → (c == tail) ≡ false
        → (c == next) ≡ false
          × next_of r v l t c ≡ next_of r v l s c
          × ((i : ℕ) → i < 512 → data_of r v l t c i ≡ data_of r v l s c i)

  IsWritten-behind :
      (tail w next : ℕ) (s u : Mini d.State) (q : Option ℕ) (t : Mini d.State)
      → 2 ≤ tail
      → tail < cluster_limit v
      → (tail == root_dir) ≡ false
      → 3 ≤ next
      → IsLinked s u tail w next
      → IsWritten u next (w + 512) q t
      → IsWritten s tail w q t
  IsWritten-behind tail w next s u none t two lt off three k full = full
  IsWritten-behind tail w next s u (some bar) t two lt off three k (on, kept, (cs, stored)) =
      let apart = k.apart in
      let link = k.link in
      let used : (next_of r v l u tail == 0) ≡ false = ground (arith, link, three) in
      let (same, held) = kept tail two lt used (ground (arith, apart)) in
      (
        on,
        λ c two' lt' used' other.
            let (apart', same', held') = k.others c two' lt' used' other in
            let (same'', held'') = kept c two' lt' (ap (λ x. x == 0) same' ∙ used') apart' in
            (same'' ∙ same', λ i small. held'' i small ∙ held' i small),
        (
          next ∷ cs,
          (same ∙ link, (λ i small. held i small ∙ k.chunk i small), (two, lt, off), stored),
        ),
      )

  linked :
      (tail w next : ℕ) (s s1 s2 s3 : Mini d.State)
      → 2 ≤ tail
      → tail < cluster_limit v
      → next_of r v l s tail ≡ 0x0FFFFFFF
      → 3 ≤ next
      → next < cluster_limit v
      → ((c : ℕ) → c < cluster_limit v → next_of r v l s1 c ≡ next_of r v l s c)
      → ((c i : ℕ)
          → 2 ≤ c
          → c < cluster_limit v
          → i < 512
          → data_of r v l s1 c i ≡ (if c == tail then held bytes size w i else data_of r v l s c i))
      → (next_of r v l s1 next == 0) ≡ true
      → ((c : ℕ)
          → c < cluster_limit v
          → next_of r v l s2 c ≡ (if c == next then 0x0FFFFFFF else next_of r v l s1 c))
      → ((c i : ℕ)
          → 2 ≤ c
          → c < cluster_limit v
          → i < 512
          → data_of r v l s2 c i ≡ (if c == next then 0 else data_of r v l s1 c i))
      → ((c : ℕ)
          → c < cluster_limit v
          → next_of r v l s3 c ≡ (if c == tail then next else next_of r v l s2 c))
      → ((c i : ℕ)
          → 2 ≤ c
          → c < cluster_limit v
          → i < 512
          → data_of r v l s3 c i ≡ data_of r v l s2 c i)
      → IsLinked s s3 tail w next
  linked tail w next s s1 s2 s3 two lt end three lt' e1 d1 free e2 d2 e3 d3 =
      let end1 = e1 tail lt in
      let apart : (next == tail) ≡ false = elim (Bool-cases (next == tail)) [
        | inl y ↦
            let same : next ≡ tail = ground (arith, y) in
            let f : (next_of r v l s1 tail == 0) ≡ true =
              ap (λ x. next_of r v l s1 x == 0) (sym same) ∙ free in
            absurd (ground (arith, f, end1, end))
        | inr n ↦ n
      ] in
      let apart' : (tail == next) ≡ false = ground (arith, apart) in
      record {
        apart = apart;
        link = let h = e3 tail lt in ground (arith, h);
        end_next = let h = e3 next lt' in let h' = e2 next lt' in ground (arith, h, h', apart);
        chunk = λ i small.
            let h = d3 tail i two lt small in
            let h' = d2 tail i two lt small in
            let h'' = d1 tail i two lt small in ground (arith, h, h', h'', apart');
        others = λ c two' lt'' used other.
            let new : (c == next) ≡ false = elim (Bool-cases (c == next)) [
              | inl y ↦
                  let same : c ≡ next = ground (arith, y) in
                  let f : (next_of r v l s1 c == 0) ≡ true =
                    ap (λ x. next_of r v l s1 x == 0) same ∙ free in
                  let h = e1 c lt'' in absurd (ground (arith, f, h, used))
              | inr n ↦ n
            ] in
            (
              new,
              let h = e3 c lt'' in
                  let h' = e2 c lt'' in
                  let h'' = e1 c lt'' in ground (arith, h, h', h'', new, other),
              λ i small.
                  let h = d3 c i two' lt'' small in
                  let h' = d2 c i two' lt'' small in
                  let h'' = d1 c i two' lt'' small in ground (arith, h, h', h'', new, other),
            );
      }

  chunks :
      (tail w : ℕ) (s t : Mini d.State)
      → ((c i : ℕ)
          → 2 ≤ c
          → c < cluster_limit v
          → i < 512
          → data_of r v l t c i
            ≡ (if c == tail then chunk_at bytes size w i else data_of r v l s c i))
      → (c i : ℕ) → 2 ≤ c
      → c < cluster_limit v
      → i < 512
      → data_of r v l t c i ≡ (if c == tail then held bytes size w i else data_of r v l s c i)
  chunks tail w s t h c i two lt small =
      h c i two lt small
      ∙ ap (λ x. if c == tail then x else data_of r v l s c i) (chunk_lem bytes size w i small)

  pub write_chunks-Ends :
      (n total tail w pbar : ℕ) (s : Mini d.State)
      → On r v l s
      → 2 ≤ tail
      → tail < cluster_limit v
      → (tail == root_dir) ≡ false
      → 2 ≤ root_dir
      → root_dir < cluster_limit v
      → (next_of r v l s root_dir == 0) ≡ false
      → next_of r v l s tail ≡ 0x0FFFFFFF
      → w < size
      → size ≤ w + 512 * n
      → ((i : ℕ) → i < size → bytes i < 256)
      → Ends (write_chunks d n bytes size total tail w pbar) s (IsWritten s tail w)
  unfolding write_chunks
  write_chunks-Ends zero total tail w pbar s on two lt off two' below root end more fuel are =
      absurd (omega (arith, more, fuel))
  write_chunks-Ends (suc n) total tail w pbar s on two lt off two' below root end more fuel are =
      let few = limit_small v l in
      let going : ltb w size ≡ true = ground (arith, more) in
      rw going (
        Ends-statics _ (
          Ends-then
            (write_cluster r v l tail (chunk_at bytes size w) s on two lt
              (chunk-IsBytes bytes size w are))
            (λ x s1 (on1, e1, c1).
              let d1 = chunks tail w s s1 c1 in
              Ends-print _ _ (elim (Bool-cases (ltb (w + 512) size)) [
                | inl y ↦ rw y (
                    Ends-either (allocate r v l _ on1) (λ t full. full)
                      (λ next s2 (three, lt', free, on2, e2, d2).
                        Ends-then
                          (Returns-attempt
                            (set_next r v l tail next s2 on2 lt (omega (arith, few, lt'))))
                          (λ o s3 (z, eo, (on3, e3, d3)).
                            let k =
                              linked tail w next s s1 s2 s3 two lt end three lt' e1 d1 free e2 d2 e3
                                d3 in
                            let (off', same, held) =
                              k.others root_dir two' below root (ground (arith, off)) in
                            Ends-weaken
                              (write_chunks-Ends n total next (w + 512) _ s3 on3
                                (omega (arith, three)) lt' (ground (arith, off')) two' below
                                (ap (λ x. x == 0) same ∙ root) k.end_next (ground (arith, y))
                                (omega (arith, fuel)) are)
                              (λ q t h.
                                IsWritten-behind tail w next s s3 q t two lt off three k h))))
                | inr z ↦ rw z (
                    Ends-now (some _) _ refl (
                      on1,
                      λ c two' lt' used other. (
                        e1 c lt',
                        λ i small. let h = d1 c i two' lt' small in ground (arith, h, other),
                      ),
                      (
                        [],
                        (
                          e1 tail lt ∙ end,
                          (λ i small. let h = d1 tail i two lt small in ground (arith, h)),
                          (two, lt, off),
                          ground (arith, z),
                        ),
                      ),
                    ))
              ]))))
