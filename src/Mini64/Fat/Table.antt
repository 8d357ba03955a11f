-- ===== src/Mini64/Fat/Table.antt =====
-- The table of mini64/kernel.c on a drive that keeps what is written: what `fat_get` reads and `fat_set`
-- changes.
use os.Prelude.{
  ℕ, zero, suc, ◌+◌, ◌*◌, ◌/◌, ◌%◌, ◌^◌, ◌≤◌, ◌<◌, ◌≡◌, ◌≢◌, ◌⊎◌, refl, sym, ap, ◌∙◌, Bool, true,
  false, ◌||◌, if◌then◌else◌, ltb, ◌==◌, arith, inl, inr, Bool-cases,
}
use mathlib.Core.Path.{subst}
use native.Mathlib.Nat.{mul-le-mul_right}
use os.Prelude.Array.{Array}
use os.Mini64.Disk.{Drive, IsBytes, most_sectors, Reliable, Volume, Mini, ◌>>=◌}
use os.Mini64.Disk.Calls.{
  Returns, Returns-statics, Returns-then, Returns-now, Returns-attempt, Returns-weaken, content_of,
  SameDisk, disk_read-Returns, disk_write-Returns,
}
use os.Mini64.Fat.{r32, w32, table_lba, table_pos, fat_get, fat_set_from, fat_set}
use os.Mini64.Fat.Bytes.{r32_ext, r32-w32, r32-w32_other, w32_again, w32_ext, w32-IsBytes}

-- The table lies within the 28 bits of a sector number, and has an entry for the cluster.
abbrev pub HasEntry : Volume → ℕ → Type 0
HasEntry v c =
    0 < v.fat_count
    × c * 4 < 2 ^ 32
    × c * 4 / 512 < v.fat_sectors
    × v.vol_start + v.reserved + v.fat_count * v.fat_sectors ≤ most_sectors

-- Sector `k` holds the entry of cluster `c` in one of the copies from `f` on.
abbrev pub is_copy : Volume → ℕ → ℕ → ℕ → ℕ → Bool
is_copy v zero f c k = false
is_copy v (suc n) f c k = (k == table_lba v f c) || is_copy v n (f + 1) c k

pub table_pos_inside : (c : ℕ) → table_pos c + 3 < 512
table_pos_inside c = omega arith

-- A value after one write and the later ones: `new` is written, and `again` over the first write.
written_once :
    (here later : Bool) (end middle start new again : ℕ)
    → end ≡ (if later then again else middle)
    → again ≡ new
    → middle ≡ (if here then new else start)
    → end ≡ (if here || later then new else start)
written_once true true end middle start new again p q r = p ∙ q
written_once true false end middle start new again p q r = p ∙ r
written_once false true end middle start new again p q r = p ∙ q
written_once false false end middle start new again p q r = p ∙ r

w32_over :
    (here : Bool) (a b : Array) (o v i : ℕ)
    → a i ≡ (if here then w32 b o v i else b i)
    → w32 a o v i ≡ w32 b o v i
w32_over true a b o v i e = w32_ext a (w32 b o v) o v i e ∙ w32_again b o v i
w32_over false a b o v i e = w32_ext a b o v i e

-- The copies of the table do not overlap.
pub copy_inside :
    (v : Volume) (g c : ℕ)
    → HasEntry v c
    → g < v.fat_count
    → table_lba v g c ≡ v.vol_start + v.reserved + g * v.fat_sectors + c * 4 / 512
      × table_lba v g c < v.vol_start + v.reserved + v.fat_count * v.fat_sectors
copy_inside v g c (some_copy, small, inside, fits) lt =
    let room : (g + 1) * v.fat_sectors ≤ v.fat_count * v.fat_sectors =
      mul-le-mul_right v.fat_sectors (omega arith) in
    let next : (g + 1) * v.fat_sectors ≡ g * v.fat_sectors + v.fat_sectors = omega arith in
    (omega (arith, room, next), omega (arith, room, next))

pub first_inside : (v : Volume) (c : ℕ) → HasEntry v c → table_lba v 0 c < most_sectors
first_inside v c e =
    let (there, below) = copy_inside v 0 c e e.0 in
    let (more, small, inside, fits) = e in omega (arith, below, fits)

module _ {d : Drive} (r : Reliable d) where
  -- The entry of a cluster in the first copy.
  abbrev pub entry : Mini d.State → ℕ → ℕ
  entry s c = r32 (content_of r s (table_lba s.volume 0 c)) (table_pos c) % 2 ^ 28

  pub entry_same : (s t : Mini d.State) (c : ℕ) → SameDisk r s t → entry t c ≡ entry s c
  entry_same s t c (v, h) =
      ap (λ w. r32 (content_of r t (table_lba w 0 c)) (table_pos c) % 2 ^ 28) v
      ∙ ap (λ x. x % 2 ^ 28)
          (r32_ext _ _ (table_pos c) (table_pos_inside c) (h (table_lba s.volume 0 c)))

  pub fat_get-Returns :
      (c : ℕ) (s : Mini d.State)
      → table_lba s.volume 0 c < most_sectors
      → Returns (fat_get d c) s (λ x t. x ≡ entry s c × SameDisk r s t)
  unfolding fat_get
  fat_get-Returns c s inside = Returns-statics _ (
      Returns-then (Returns-attempt (disk_read-Returns r (table_lba s.volume 0 c) s inside))
        (λ o t (b, e, (e', same)). Returns-now _ t refl (rw (e, e') refl, same)))

  fat_set_from-Returns :
      (n f c value : ℕ) (s : Mini d.State)
      → ((g : ℕ) → f ≤ g → g < f + n → table_lba s.volume g c < most_sectors)
      → Returns (fat_set_from d n f c value) s (λ x t.
        t.volume ≡ s.volume
        × ((k i : ℕ)
            → i < 512
            → content_of r t k i ≡ (
                if is_copy s.volume n f c k
                then w32 (content_of r s k) (table_pos c) value i
                else content_of r s k i)))
  unfolding fat_set_from
  fat_set_from-Returns zero f c value s inside = Returns-now tt s refl (refl, λ k i lt. refl)
  fat_set_from-Returns (suc n) f c value s inside = Returns-statics _ (
      Returns-then
        (disk_read-Returns r (table_lba s.volume f c) s (inside f (omega arith) (omega arith)))
        (λ b t (eb, (ev, ec)).
          Returns-then
            (disk_write-Returns r (table_lba s.volume f c) (w32 b (table_pos c) value) t
              (inside f (omega arith) (omega arith))
              (w32-IsBytes b (table_pos c) value
                (subst IsBytes (sym eb) (r.bytes s.drive (table_lba s.volume f c)))))
            (λ x u (fv, fc).
              Returns-weaken
                (fat_set_from-Returns n (f + 1) c value u (λ g lo hi.
                  let same = ap (λ w. table_lba w g c) (fv ∙ ev) in
                  let here = inside g (omega (arith, lo)) (omega (arith, hi)) in
                  omega (arith, same, here)))
                (λ y w (gv, gc). (
                  gv ∙ fv ∙ ev,
                  λ k i lt.
                      let lba = table_lba s.volume f c in
                      let first : content_of r u k i ≡ (
                          if k == lba
                          then w32 (content_of r s k) (table_pos c) value i
                          else content_of r s k i) =
                        fc k i lt ∙ elim (Bool-cases (k == lba)) [
                          | inl y ↦
                              let same : lba ≡ k = ground (arith, y) in
                              rw y (
                                ap (λ a. w32 a (table_pos c) value i)
                                  (eb ∙ ap (content_of r s) same))
                          | inr n ↦ rw n (ec k i lt)
                        ] in
                      let later =
                        ap
                          (λ v.
                            if is_copy v n (f + 1) c k
                            then w32 (content_of r u k) (table_pos c) value i
                            else content_of r u k i)
                          (fv ∙ ev) in
                      written_once (k == lba) (is_copy s.volume n (f + 1) c k) _ _ _ _ _
                        (gc k i lt ∙ later)
                        (w32_over (k == lba) (content_of r u k) (content_of r s k) (table_pos c)
                          value i first)
                        first,
                )))))

  -- Both copies of the table have the entry then, and no other byte changes.
  pub fat_set-Returns :
      (c value : ℕ) (s : Mini d.State)
      → HasEntry s.volume c
      → Returns (fat_set d c value) s (λ x t.
        t.volume ≡ s.volume
        × ((k i : ℕ)
            → i < 512
            → content_of r t k i ≡ (
                if is_copy s.volume s.volume.fat_count 0 c k
                then w32 (content_of r s k) (table_pos c) value i
                else content_of r s k i)))
  unfolding fat_set
  fat_set-Returns c value s e = Returns-statics _ (
      fat_set_from-Returns s.volume.fat_count 0 c value s (λ g lo hi.
        let (there, below) = copy_inside s.volume g c e (omega (arith, hi)) in
        let (more, small, inside, fits) = e in omega (arith, below, fits)))

pub is_copy_at :
    (v : Volume) (n f c k : ℕ)
    → is_copy v n f c k ≡ true
    → (g : ℕ) × f ≤ g × g < f + n × k ≡ table_lba v g c
is_copy_at v zero f c k e = absurd (ground (arith, e))
is_copy_at v (suc n) f c k e = elim (Bool-cases (k == table_lba v f c)) [
  | inl y ↦ (f, omega arith, omega arith, ground (arith, y))
  | inr n' ↦
      let (g, lo, hi, at) = is_copy_at v n (f + 1) c k (ground (arith, e, n')) in
      (g, omega (arith, lo), omega (arith, hi), at)
]

is_copy-first : (v : Volume) (n c : ℕ) → 0 < n → is_copy v n 0 c (table_lba v 0 c) ≡ true
is_copy-first v zero c lt = absurd (omega arith)
is_copy-first v (suc n) c lt = ground arith

apart_in_sector :
    (c c' : ℕ)
    → c * 4 < 2 ^ 32
    → c' * 4 < 2 ^ 32
    → c' * 4 / 512 ≡ c * 4 / 512
    → c' ≢ c
    → (table_pos c + 4 ≤ table_pos c') ⊎ (table_pos c' + 4 ≤ table_pos c)
apart_in_sector c c' small small' same apart =
    elim (Bool-cases (ltb (table_pos c) (table_pos c'))) [
      | inl e ↦ inl (let lt : table_pos c < table_pos c' = ground (arith, e) in omega (arith, lt))
      | inr e ↦ inr (
          let le : table_pos c' ≤ table_pos c = ground (arith, e) in
          elim (Bool-cases (ltb (table_pos c') (table_pos c))) [
            | inl l ↦ let lt : table_pos c' < table_pos c = ground (arith, l) in omega (arith, lt)
            | inr l ↦
                let le' : table_pos c ≤ table_pos c' = ground (arith, l) in
                absurd (apart (omega (arith, le, le', same, small, small')))
          ])
    ]

other_entry :
    (v : Volume) (c c' : ℕ)
    → HasEntry v c
    → HasEntry v c'
    → is_copy v v.fat_count 0 c (table_lba v 0 c') ≡ true
    → (c' == c) ≡ false
    → (table_pos c + 4 ≤ table_pos c') ⊎ (table_pos c' + 4 ≤ table_pos c)
other_entry v c c' e e' y other =
    let (g, lo, hi, at) = is_copy_at v v.fat_count 0 c (table_lba v 0 c') y in
    let (there, below) = copy_inside v g c e (omega (arith, hi)) in
    let (there', below') = copy_inside v 0 c' e' e.0 in
    let (more, small, inside, fits) = e in
    let (more', small', inside', fits') = e' in
    let one_copy : g ≡ 0 = elim (Bool-cases (g == 0)) [
      | inl z ↦ ground (arith, z)
      | inr n ↦
          let far : 1 * v.fat_sectors ≤ g * v.fat_sectors =
            mul-le-mul_right v.fat_sectors (ground (arith, n)) in
          absurd (omega (arith, far, there, there', at, inside'))
    ] in
    let none_before : g * v.fat_sectors ≡ 0 = ap (λ n. n * v.fat_sectors) one_copy ∙ omega arith in
    let same : c' * 4 / 512 ≡ c * 4 / 512 = omega (arith, there, there', at, none_before) in
    let apart : c' ≢ c = ground (arith, other) in apart_in_sector c c' small small' same apart

-- What `fat_set` writes is what `fat_get` reads, and the other entries stay.
module _ {d : Drive} (r : Reliable d) where
  pub after_set :
      (c c' value : ℕ) (s t : Mini d.State)
      → HasEntry s.volume c
      → HasEntry s.volume c'
      → value < 2 ^ 32
      → t.volume ≡ s.volume
      → ((k i : ℕ)
          → i < 512
          → content_of r t k i ≡ (
              if is_copy s.volume s.volume.fat_count 0 c k
              then w32 (content_of r s k) (table_pos c) value i
              else content_of r s k i))
      → entry r t c' ≡ (if c' == c then value % 2 ^ 28 else entry r s c')
  after_set c c' value s t e e' lt v h =
      let k = table_lba s.volume 0 c' in
      let same_sector =
        ap (λ v. r32 (content_of r t (table_lba v 0 c')) (table_pos c') % 2 ^ 28) v in
      same_sector ∙ elim (Bool-cases (is_copy s.volume s.volume.fat_count 0 c k)) [
        | inl y ↦
            let now =
              r32_ext (content_of r t k) (w32 (content_of r s k) (table_pos c) value) (table_pos c')
                (table_pos_inside c') (λ i lt. h k i lt ∙ rw y refl) in
            elim (Bool-cases (c' == c)) [
              | inl z ↦
                  let same : c' ≡ c = ground (arith, z) in
                  ap (λ x. x % 2 ^ 28)
                    (now
                      ∙ ap (λ x. r32 (w32 (content_of r s k) (table_pos c) value) (table_pos x))
                          same
                      ∙ r32-w32 (content_of r s k) (table_pos c) value lt)
                  ∙ rw z refl
              | inr z ↦
                  ap (λ x. x % 2 ^ 28)
                    (now
                      ∙ r32-w32_other (content_of r s k) (table_pos c) value (table_pos c')
                          (other_entry s.volume c c' e e' y z))
                  ∙ rw z refl
            ]
        | inr n ↦
            let differs : (c' == c) ≡ false = elim (Bool-cases (c' == c)) [
              | inl z ↦
                  let same : c' ≡ c = ground (arith, z) in
                  let y =
                    ap (λ x. is_copy s.volume s.volume.fat_count 0 c (table_lba s.volume 0 x)) same
                    ∙ is_copy-first s.volume s.volume.fat_count c e.0 in
                  absurd (ground (arith, n, y))
              | inr z ↦ z
            ] in
            ap (λ x. x % 2 ^ 28)
              (r32_ext (content_of r t k) (content_of r s k) (table_pos c') (table_pos_inside c')
                (λ i lt. h k i lt ∙ rw n refl))
            ∙ rw differs refl
      ]

  -- On a drive that keeps what is written, with a table that has entries for both clusters, what
  -- `fat_set` writes is what `fat_get` reads, in its 28 bits, and the entry of another cluster stays.
  pub fat_get-fat_set :
      (c c' value : ℕ) (s : Mini d.State)
      → HasEntry s.volume c
      → HasEntry s.volume c'
      → value < 2 ^ 32
      → Returns
          (fat_set d c value >>= λ x. fat_get d c')
          s
          (λ x t. x ≡ (if c' == c then value % 2 ^ 28 else entry r s c') × t.volume ≡ s.volume)
  fat_get-fat_set c c' value s e e' lt = Returns-then (fat_set-Returns r c value s e) (λ x t (v, h).
      Returns-weaken
        (fat_get-Returns r c' t (
          let same = ap (λ w. table_lba w 0 c') v in
          let inside = first_inside s.volume c' e' in omega (arith, same, inside)))
        (λ y u (q, (v', h')). (q ∙ after_set c c' value s t e e' lt v h, v' ∙ v)))
