-- ===== src/Mini64/Fat/Stored.antt =====
-- `disk_store_large` of mini64/kernel.c for a file that the root directory does not have yet.
use os.Prelude.{
  ℕ, zero, suc, ◌+◌, ◌*◌, ◌/◌, ◌%◌, ◌^◌, ◌≤◌, ◌<◌, ◌≡◌, ◌⊎◌, refl, sym, ap, ◌∙◌, List, [], ◌∷◌,
  Option, none, some, true, false, if◌then◌else◌, ◌==◌, arith, inl, inr, Bool-cases, Option-cases,
}
use mathlib.Core.Path.{subst}
use os.Prelude.Array.{Array}
use os.Mini64.Disk.{Drive, IsBytes, Reliable, Volume, Mini, disk_read, disk_write}
use os.Mini64.Disk.Calls.{
  Returns, Returns-weaken, Returns-ended, content_of, SameDisk, SameDisk-trans, disk_read-Returns,
  disk_flush-Returns, Ends, Ends-then, Ends-now, Ends-statics, Ends-pure, Ends-print, Ends-either,
  Ends-fails, Ends-returns,
}
use os.Mini64.Fat.{table_lba, table_pos, cluster_lba, cluster_limit}
use os.Mini64.Fat.Bytes.{r32_ext, are_bytes}
use os.Mini64.Fat.Entries.{name83, slot_named, free_slot, find_entry}
use os.Mini64.Fat.Store.{put_entry, disk_store_large}
use os.Mini64.Fat.Table.{table_pos_inside}
use os.Mini64.Fat.Search.{IsLaidOut, cluster_at}
use os.Mini64.Fat.View.{On, next_of, data_of, write_cluster, allocate}
use os.Mini64.Fat.Chain.{IsInside, Stored, Kept, IsFull, limit_small, write_chunks-Ends}
use os.Mini64.Fat.Entry.{HasFile, free_slot_below, put_entry-HasFile, entry-IsBytes}

-- What is read of the directory lies in its 512 bytes.
free_slot_ext :
    (n i : ℕ) (a b : Array)
    → i + n ≤ 16
    → ((k : ℕ) → k < 512 → a k ≡ b k)
    → free_slot n i a ≡ free_slot n i b
unfolding free_slot
free_slot_ext zero i a b le h = refl
free_slot_ext (suc n) i a b le h =
    let here = h (i * 32) (omega (arith, le)) in
    let rest = free_slot_ext n (i + 1) a b (omega (arith, le)) h in rw (here, rest) refl

module _ {d : Drive} (r : Reliable d) (v : Volume) (l : IsLaidOut v) where
  -- Two states with the same disk have the same table and clusters.
  same_view :
      (s t : Mini d.State)
      → On r v l s
      → SameDisk r s t
      → On r v l t
        × ((c : ℕ) → next_of r v l t c ≡ next_of r v l s c)
        × ((c i : ℕ) → i < 512 → data_of r v l t c i ≡ data_of r v l s c i)
  same_view s t on (same, h) = (
    same
        ∙ on
        ∙ ap {A = Volume} {B = Volume} (λ w. record v { next_free_cluster = w.next_free_cluster })
            (sym same),
    (λ c.
        ap (λ x. x % 2 ^ 28)
          (r32_ext _ _ (table_pos c) (table_pos_inside c) (h (table_lba v 0 c)))),
    λ c i small. h (cluster_lba v c) i small,
  )

  root_lba :
      (s : Mini d.State)
      → On r v l s
      → cluster_lba s.volume s.volume.root_cluster ≡ cluster_lba v v.root_cluster
  root_lba s on = ap (λ w. cluster_lba w w.root_cluster) on

  read_root :
      (s : Mini d.State)
      → On r v l s
      → 2 ≤ v.root_cluster
      → v.root_cluster < cluster_limit v
      → Returns
          (disk_read d (cluster_lba s.volume s.volume.root_cluster))
          s
          (λ b t. b ≡ data_of r v l s v.root_cluster × SameDisk r s t)
  read_root s on two lt =
      let place = root_lba s on in
      let below = (cluster_at v l v.root_cluster two lt).1 in
      Returns-weaken
        (disk_read-Returns r (cluster_lba s.volume s.volume.root_cluster) s
          (omega (arith, place, below)))
        (λ b t (e, same). (e ∙ ap (content_of r s) (root_lba s on), same))

  find_entry-none :
      (name : List ℕ) (s : Mini d.State)
      → On r v l s
      → 2 ≤ v.root_cluster
      → v.root_cluster < cluster_limit v
      → slot_named 16 0 (data_of r v l s v.root_cluster) (name83 name) ≡ none
      → Ends (find_entry d name) s (λ o t. o ≡ none × SameDisk r s t)
  unfolding find_entry
  find_entry-none name s on two lt missing = Ends-statics _ (
      Ends-then (read_root s on two lt) (λ b t (e, same).
        let absent : slot_named 16 0 b (name83 name) ≡ none =
          ap (λ a. slot_named 16 0 a (name83 name)) e ∙ missing in
        rw absent (Ends-now none t refl (refl, same))))

  write_root :
      (b : Array) (s : Mini d.State)
      → On r v l s
      → 2 ≤ v.root_cluster
      → v.root_cluster < cluster_limit v
      → IsBytes b
      → Returns (disk_write d (cluster_lba s.volume s.volume.root_cluster) b) s (λ x t.
        On r v l t
        × ((c' : ℕ) → c' < cluster_limit v → next_of r v l t c' ≡ next_of r v l s c')
        × ((c' i : ℕ)
            → 2 ≤ c'
            → c' < cluster_limit v
            → i < 512
            → data_of r v l t c' i ≡ (if c' == v.root_cluster then b i else data_of r v l s c' i)))
  write_root b s on two lt bytes =
      subst
        (λ c. Returns (disk_write d (cluster_lba s.volume c) b) s (λ x t.
          On r v l t
          × ((c' : ℕ) → c' < cluster_limit v → next_of r v l t c' ≡ next_of r v l s c')
          × ((c' i : ℕ)
              → 2 ≤ c'
              → c' < cluster_limit v
              → i < 512
              → data_of r v l t c' i
                ≡ (if c' == v.root_cluster then b i else data_of r v l s c' i))))
        (sym (ap (λ w. w.root_cluster) on)) (write_cluster r v l v.root_cluster b s on two lt bytes)

  -- The chain keeps off the root directory.
  Stored-after :
      (bytes : Array) (size w c : ℕ) (cs : List ℕ) (t u : Mini d.State)
      → ((c' : ℕ)
          → IsInside r v l v.root_cluster bytes size c'
          → next_of r v l u c' ≡ next_of r v l t c'
            × ((i : ℕ) → i < 512 → data_of r v l u c' i ≡ data_of r v l t c' i))
      → Stored r v l v.root_cluster bytes size t w c cs
      → Stored r v l v.root_cluster bytes size u w c cs
  Stored-after bytes size w c [] t u same (e, held, inside, all) =
      let (e', held') = same c inside in
      (e' ∙ e, (λ i small. held' i small ∙ held i small), inside, all)
  Stored-after bytes size w c (c' ∷ cs) t u same (e, held, inside, rest) =
      let (e', held') = same c inside in
      (
        e' ∙ e,
        (λ i small. held' i small ∙ held i small),
        inside,
        Stored-after bytes size (w + 512) c' cs t u same rest,
      )

  -- What `disk_store_large` leaves: the directory has an entry with the name, the size and the first
  -- cluster of a chain that holds the data, and all other clusters in use stay. It fails when the
  -- directory or the volume is full.
  abbrev pub IsStoredFile :
      List ℕ → Array → ℕ → Mini d.State → Option (Unit {0}) → Mini d.State → Type 0
  IsStoredFile name bytes size s o t = elim o [
    | none ↦
        (free_slot 16 0 (data_of r v l s v.root_cluster) ≡ none)
        ⊎ IsFull r v l v.root_cluster bytes size t
    | some x ↦
        On r v l t
        × ((slot : ℕ) × (first : ℕ) × (cs : List ℕ) × free_slot 16 0
                (data_of r v l s v.root_cluster)
              ≡ some slot
            × Stored r v l v.root_cluster bytes size t 0 first cs
            × HasFile slot name size first (data_of r v l s v.root_cluster)
                (data_of r v l t v.root_cluster))
        × Kept r v l v.root_cluster bytes size s t v.root_cluster
  ]

  module _ (name : List ℕ) (bytes : Array) (size : ℕ) (s : Mini d.State) (two : 2 ≤ v.root_cluster)
      (lt : v.root_cluster < cluster_limit v) where
    -- The last steps: the chain is written, then the directory.
    finished :
        (slot first : ℕ) (cs : List ℕ) (b : Array) (s2 s3 s4 s5 s6 : Mini d.State)
        → ((c : ℕ) → next_of r v l s2 c ≡ next_of r v l s c)
        → ((c i : ℕ) → i < 512 → data_of r v l s2 c i ≡ data_of r v l s c i)
        → ((i : ℕ) → i < 512 → b i ≡ data_of r v l s v.root_cluster i)
        → free_slot 16 0 (data_of r v l s v.root_cluster) ≡ some slot
        → size < 2 ^ 32
        → first < 2 ^ 32
        → (next_of r v l s2 first == 0) ≡ true
        → ((c : ℕ)
            → c < cluster_limit v
            → next_of r v l s3 c ≡ (if c == first then 0x0FFFFFFF else next_of r v l s2 c))
        → ((c i : ℕ)
            → 2 ≤ c
            → c < cluster_limit v
            → i < 512
            → data_of r v l s3 c i ≡ (if c == first then 0 else data_of r v l s2 c i))
        → Kept r v l v.root_cluster bytes size s3 s4 first
        → Stored r v l v.root_cluster bytes size s4 0 first cs
        → ((c : ℕ) → c < cluster_limit v → next_of r v l s5 c ≡ next_of r v l s4 c)
        → ((c i : ℕ)
            → 2 ≤ c
            → c < cluster_limit v
            → i < 512
            → data_of r v l s5 c i ≡ (
                if c == v.root_cluster
                then put_entry slot name size first b i
                else data_of r v l s4 c i))
        → On r v l s5
        → SameDisk r s5 s6
        → IsStoredFile name bytes size s (some tt) s6
    finished slot first cs b s2 s3 s4 s5 s6 e2 d2 eb eslot words small_first free e3 d3 kept stored
          e5 d5 on5 same6 =
        let (on6, e6, d6) = same_view s5 s6 on5 same6 in
        (
          on6,
          (
            slot,
            first,
            cs,
            eslot,
            Stored-after bytes size 0 first cs s4 s6
                (λ c (two', lt', off). (
                  e6 c ∙ e5 c lt',
                  λ i small.
                      d6 c i small ∙ (let h = d5 c i two' lt' small in ground (arith, h, off)),
                ))
                stored,
            put_entry-HasFile slot name size first b (data_of r v l s v.root_cluster)
                (data_of r v l s6 v.root_cluster) (free_slot_below 16 0 _ slot (omega arith) eslot)
                words small_first eb
                (λ i small.
                  d6 v.root_cluster i small
                  ∙ (let h = d5 v.root_cluster i two lt small in ground (arith, h))),
          ),
          λ c two' lt' used other.
              let new : (c == first) ≡ false = elim (Bool-cases (c == first)) [
                | inl y ↦
                    let same : c ≡ first = ground (arith, y) in
                    let h = e2 c in
                    let f : (next_of r v l s2 c == 0) ≡ true =
                      ap (λ x. next_of r v l s2 x == 0) same ∙ free in
                    absurd (ground (arith, f, h, used))
                | inr n ↦ n
              ] in
              let e : next_of r v l s3 c ≡ next_of r v l s c =
                let h = e3 c lt' in let h' = e2 c in ground (arith, h, h', new) in
              let (e4, d4) = kept c two' lt' (ap (λ x. x == 0) e ∙ used) new in
              (
                e6 c ∙ e5 c lt' ∙ e4 ∙ e,
                λ i small.
                    d6 c i small
                    ∙ (let h = d5 c i two' lt' small in ground (arith, h, other))
                    ∙ d4 i small
                    ∙ (let h = d3 c i two' lt' small in ground (arith, h, new))
                    ∙ d2 c i small,
              ),
        )

    -- On a laid out volume on a drive that keeps what is written, with a root directory in use that has
    -- no entry of that name, `disk_store_large` of at least one byte and less than 2^32 leaves an entry with
    -- the name, the size and the first cluster of a chain whose sectors hold the bytes of the data in order,
    -- the last filled up with zeros and its entry the end of a chain; no other entry of the directory
    -- changes, and all other clusters in use stay, entry and sector. It fails only when the first sector
    -- of the directory or the volume is full.
    pub disk_store_large-Ends :
        On r v l s
        → (next_of r v l s v.root_cluster == 0) ≡ false
        → slot_named 16 0 (data_of r v l s v.root_cluster) (name83 name) ≡ none
        → 0 < size
        → size < 2 ^ 32
        → ((i : ℕ) → i < size → bytes i < 256)
        → are_bytes (name83 name) ≡ true
        → Ends (disk_store_large d name bytes size) s (IsStoredFile name bytes size s)
    unfolding disk_store_large
    disk_store_large-Ends on used missing more words are chars =
        let few = limit_small v l in
        Ends-then (Returns-ended (find_entry-none name s on two lt missing)) (λ o s1 (e, same1).
          let (on1, e1, d1) = same_view s s1 on same1 in
          rw e (
            Ends-pure _ tt (
              Ends-statics _ (
                Ends-then (read_root s1 on1 two lt) (λ b s2 (eb, same2).
                  let same = SameDisk-trans r s s1 s2 same1 same2 in
                  let (on2, e2, d2) = same_view s s2 on same in
                  let eb' : (i : ℕ) → i < 512 → b i ≡ data_of r v l s v.root_cluster i =
                    λ i small. ap (λ a. a i) eb ∙ d1 v.root_cluster i small in
                  let slots =
                    free_slot_ext 16 0 b (data_of r v l s v.root_cluster) (omega arith) eb' in
                  elim (Option-cases (free_slot 16 0 (data_of r v l s v.root_cluster))) [
                    | inl full ↦
                        rw (slots, full) (Ends-fails _ (Ends-now none s2 refl (refl, inl full)))
                    | inr (slot, free) ↦
                        rw (slots, free)
                          (Ends-pure _ slot (
                            Ends-either (allocate r v l s2 on2) (λ t full. inr full)
                              (λ first s3 (three, lt', unused, on3, e3, d3).
                                let off : (first == v.root_cluster) ≡ false =
                                  elim (Bool-cases (first == v.root_cluster)) [
                                    | inl y ↦
                                        let here : first ≡ v.root_cluster = ground (arith, y) in
                                        let h = e2 v.root_cluster in
                                        let f : (next_of r v l s2 v.root_cluster == 0) ≡ true =
                                          ap (λ x. next_of r v l s2 x == 0) (sym here) ∙ unused in
                                        absurd (ground (arith, f, h, used))
                                    | inr n ↦ n
                                  ] in
                                let root : (next_of r v l s3 v.root_cluster == 0) ≡ false =
                                  (let h = e3 v.root_cluster lt in
                                    let h' = e2 v.root_cluster in
                                    ground (arith, h, h', off, used)) in
                                let end : next_of r v l s3 first ≡ 0x0FFFFFFF =
                                  (let h = e3 first lt' in ground (arith, h)) in
                                Ends-print _ _ (
                                  Ends-either
                                    (write_chunks-Ends r v l v.root_cluster bytes size
                                      (size / 512 + 1) _ first 0 0 (record s3 { out = _ }) on3
                                      (omega (arith, three)) lt' off two lt root end more
                                      (omega arith) are)
                                    (λ t full. inr full)
                                    (λ bar s4 (on4, kept, (cs, stored)). Ends-print _ _ (
                                      Ends-statics _ (
                                        Ends-then
                                          (write_root (put_entry slot name size first b)
                                            (record s4 { out = _ }) on4 two lt
                                            (entry-IsBytes slot name size first b
                                              (subst IsBytes (sym eb)
                                                (r.bytes s1.drive (cluster_lba v v.root_cluster)))
                                              chars))
                                          (λ x s5 (on5, e5, d5).
                                            Ends-returns (disk_flush-Returns r s5) (λ y s6 same6.
                                              finished slot first cs b s2 s3 s4 s5 s6 e2 d2 eb' free
                                                words (omega (arith, few, lt')) unused e3 d3 kept
                                                stored e5 d5 on5 same6)))))))))
                  ])))))
