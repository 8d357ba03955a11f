-- ===== src/Mini64/Fat/Fresh.antt =====
-- What `fat_init` of mini64/kernel.c finds behind `fat_format`: a laid out, empty volume, or nothing.
use os.Prelude.{
  ℕ, ◌+◌, ◌-◌, ◌/◌, ◌%◌, ◌^◌, ◌≤◌, ◌<◌, ◌≡◌, refl, sym, ap, ◌∙◌, none, true, false, ◌&&◌, ltb, leb,
  ◌==◌, arith, inl, inr, Bool-cases,
}
use mathlib.Core.Path.{subst}
use os.Prelude.Array.{Array}
use os.Mini64.Disk.{Drive, Reliable, Volume, Mini, unmounted, attempt, ◌>>=◌}
use os.Mini64.Disk.Calls.{
  Returns, Returns-then, Returns-weaken, Returns-ended, content_of, disk_read-Returns, Ends-then,
  Ends-refused,
}
use os.Mini64.Fat.{r32, w32, cluster_lba, cluster_limit, table_lba, table_pos}
use os.Mini64.Fat.Format.{
  master_record, boot_sector, info_sector, label_sector, table_sector, first_table_sector,
  formatted, fat_init, fat_format,
}
use os.Mini64.Fat.Bytes.{r32_ext, r32-w32_other}
use os.Mini64.Fat.Search.{IsLaidOut}
use os.Mini64.Fat.Table.{entry, table_pos_inside}
use os.Mini64.Fat.Mounted.{layout, fat_format-Returns}
use os.Mini64.Fat.Mount.{Alike, is_signed_ext, fat_init-Returns}

abbrev fresh_volume : Volume
fresh_volume = formatted unmounted

fresh-IsLaidOut : IsLaidOut fresh_volume
fresh-IsLaidOut = record {
  copies = omega arith;
  per = omega arith;
  behind = omega arith;
  before_end = omega arith;
  numbered = omega arith;
  entries = omega arith;
}

-- The entries behind the first three are zero.
first_zero : (p : ℕ) → 12 ≤ p → r32 first_table_sector p ≡ 0
first_zero p le =
    r32-w32_other (w32 (w32 (λ i. 0) 0 0x0FFFFFF8) 4 0xFFFFFFFF) 8 0x0FFFFFFF p (inl (omega arith))
    ∙ r32-w32_other (w32 (λ i. 0) 0 0x0FFFFFF8) 4 0xFFFFFFFF p (inl (omega arith))
    ∙ r32-w32_other (λ i. 0) 0 0x0FFFFFF8 p (inl (omega arith))

table_zero : (c : ℕ) → 3 ≤ c → c < 127104 → r32 (table_sector (c / 128)) (table_pos c) ≡ 0
table_zero c three lt = elim (Bool-cases (c / 128 == 0)) [
  | inl e ↦
      let low : c / 128 ≡ 0 = ground (arith, e) in
      rw e (first_zero (table_pos c) (omega (arith, low)))
  | inr e ↦ rw e refl
]

fresh_table :
    (v : Volume) (before : ℕ → Array) (c i : ℕ)
    → cluster_lba v 2 ≡ 4066
    → c < 127104
    → layout v before (table_lba fresh_volume 0 c) i ≡ table_sector (c / 128) i
fresh_table v before c i place lt =
    let k : table_lba fresh_volume 0 c ≡ 2080 + c / 128 = omega (arith, lt) in
    let e1 : (2080 + c / 128 == 4066) ≡ false = ground (arith, lt) in
    let e2 : (leb 3073 (2080 + c / 128) && ltb (2080 + c / 128) 4066) ≡ false =
      ground (arith, lt) in
    let e3 : (leb 2080 (2080 + c / 128) && ltb (2080 + c / 128) 3073) ≡ true = ground (arith, lt) in
    let e4 : 2080 + c / 128 - 2080 ≡ c / 128 = omega arith in rw (k, place, e1, e2, e3, e4) refl

module _ {d : Drive} (r : Reliable d) where
  -- A freshly formatted volume: its table is laid out, the root directory has a cluster, and all others
  -- are free.
  abbrev pub IsFresh : Mini d.State → Type 0
  IsFresh t =
      t.volume ≡ formatted t.volume
      × IsLaidOut t.volume
      × entry r t 2 ≡ 0x0FFFFFFF
      × ((c : ℕ) → 3 ≤ c → c < cluster_limit t.volume → entry r t c ≡ 0)

  fresh_entry :
      (s t u : Mini d.State) (c : ℕ)
      → cluster_lba s.volume 2 ≡ 4066
      → c < 127104
      → ((k i : ℕ) → i < 512 → content_of r t k i ≡ layout s.volume (content_of r s) k i)
      → u.volume ≡ fresh_volume
      → ((k i : ℕ) → i < 512 → content_of r u k i ≡ content_of r t k i)
      → entry r u c ≡ r32 (table_sector (c / 128)) (table_pos c) % 2 ^ 28
  fresh_entry s t u c place lt h v h' =
      ap (λ w. r32 (content_of r u (table_lba w 0 c)) (table_pos c) % 2 ^ 28) v
      ∙ ap (λ x. x % 2 ^ 28)
          (r32_ext (content_of r u (table_lba fresh_volume 0 c)) (table_sector (c / 128))
            (table_pos c) (table_pos_inside c)
            (λ i lt'.
              h' (table_lba fresh_volume 0 c) i lt'
              ∙ h (table_lba fresh_volume 0 c) i lt'
              ∙ fresh_table s.volume (content_of r s) c i place lt))

  layout-IsFresh :
      (s t u : Mini d.State)
      → cluster_lba s.volume 2 ≡ 4066
      → ((k i : ℕ) → i < 512 → content_of r t k i ≡ layout s.volume (content_of r s) k i)
      → u.volume ≡ fresh_volume
      → ((k i : ℕ) → i < 512 → content_of r u k i ≡ content_of r t k i)
      → IsFresh u
  layout-IsFresh s t u place h v h' = (
    v,
    subst IsLaidOut (sym v) fresh-IsLaidOut,
    fresh_entry s t u 2 place (omega arith) h v h',
    λ c three lt.
        let limit = ap cluster_limit v in
        fresh_entry s t u c place (omega (arith, lt, limit)) h v h'
        ∙ ap (λ x. x % 2 ^ 28) (table_zero c three (omega (arith, lt, limit))),
  )

  -- On a drive that keeps what is written and with the first cluster in sector 4066, as the statics
  -- have it after a mount, `fat_format` and then `fat_init` succeed, and the volume is laid out, its
  -- root directory has a cluster, and all other clusters are free.
  pub fat_init-fat_format :
      (s : Mini d.State)
      → cluster_lba s.volume 2 ≡ 4066
      → Returns (fat_format d >>= λ x. fat_init d) s (λ x t. IsFresh t)
  fat_init-fat_format s place =
      Returns-then (fat_format-Returns r s (omega (arith, place))) (λ x t (v, h).
        Returns-weaken
          (fat_init-Returns r master_record boot_sector info_sector t
            (let e : r32 master_record 454 ≡ 2048 = refl in omega (arith, e)) refl refl refl refl
            (λ i lt. h 0 i lt ∙ rw place refl) (λ i lt. h 2048 i lt ∙ rw place refl)
            (λ i lt. h 2049 i lt ∙ rw place refl))
          (λ y u (v', h'). layout-IsFresh s t u place h v' h'))

  -- On a drive that keeps what is written and with the statics that the program starts with, `fat_format`
  -- succeeds, and the `fat_init` behind it fails.
  pub fat_init-fat_format_lost :
      (s : Mini d.State)
      → s.volume ≡ unmounted
      → Returns (fat_format d >>= λ x. attempt (fat_init d)) s (λ o t. o ≡ none)
  unfolding fat_init
  fat_init-fat_format_lost s start =
      let first : cluster_lba s.volume 2 ≡ 0 = ap (λ w. cluster_lba w 2) start in
      Returns-then (fat_format-Returns r s (omega (arith, first))) (λ x t (v, h). Returns-ended (
        Ends-then (disk_read-Returns r 0 t (omega arith)) (λ b u (e, same).
          let label : Alike b label_sector = λ i lt. ap (λ a. a i) e ∙ h 0 i lt ∙ rw first refl in
          Ends-refused _ (is_signed_ext b label_sector label) refl)))
