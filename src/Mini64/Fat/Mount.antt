-- ===== src/Mini64/Fat/Mount.antt =====
-- `fat_init` of mini64/kernel.c on a drive that keeps what is written, behind `fat_format`.
use os.Prelude.{ℕ, ◌+◌, ◌%◌, ◌^◌, ◌<◌, ◌≡◌, ap, ◌∙◌, some, true, arith}
use os.Prelude.Array.{Array}
use os.Mini64.Disk.{Drive, most_sectors, Reliable, Volume, Mini}
use os.Mini64.Disk.Calls.{
  Returns, Returns-statics, Returns-assign, Returns-require, Returns-then, Returns-weaken,
  Returns-attempt, content_of, disk_read-Returns, disk_flush-Returns,
}
use os.Mini64.Fat.{r16, r32}
use os.Mini64.Fat.Format.{is_signed, is_fat_partition, is_fat32, described, hinted, fat_init}
use os.Mini64.Fat.Bytes.{r32_ext}

-- Two buffers with the same 512 bytes.
abbrev pub Alike : Array → Array → Type 0
Alike a b = (i : ℕ) → i < 512 → a i ≡ b i

pub is_signed_ext : (a b : Array) → Alike a b → is_signed a ≡ is_signed b
is_signed_ext a b h = let h0 = h 510 (omega arith) in let h1 = h 511 (omega arith) in rw (h0, h1)

is_fat_partition_ext : (a b : Array) → Alike a b → is_fat_partition a ≡ is_fat_partition b
is_fat_partition_ext a b h = let h0 = h 450 (omega arith) in rw h0

r16_ext : (a b : Array) (o : ℕ) → o + 1 < 512 → Alike a b → r16 a o ≡ r16 b o
r16_ext a b o lt h = let h0 = h o (omega arith) in let h1 = h (o + 1) lt in rw (h0, h1)

is_fat32_ext : (a b : Array) → Alike a b → is_fat32 a ≡ is_fat32 b
is_fat32_ext a b h =
    let h0 = r16_ext a b 11 (omega arith) h in
    let h1 = r32_ext a b 82 (omega arith) h in rw (h0, h1)

described_ext : (a b : Array) (v : Volume) → Alike a b → described a v ≡ described b v
described_ext a b v h =
    let h0 = h 13 (omega arith) in
    let h1 = r16_ext a b 14 (omega arith) h in
    let h2 = h 16 (omega arith) in
    let h3 = r32_ext a b 36 (omega arith) h in
    let h4 = r32_ext a b 44 (omega arith) h in rw (h0, h1, h2, h3, h4)

hinted_ext : (a b : Array) (v : Volume) → Alike a b → hinted (some a) v ≡ hinted (some b) v
hinted_ext a b v h = let h0 = r32_ext a b 492 (omega arith) h in rw h0

abbrev mounted : Volume → Volume
mounted v = record v { fat_mounted = true }

abbrev started : ℕ → Volume → Volume
started lba v = record v { vol_start = lba }

-- The volume that `fat_init` finds by its three sectors.
abbrev pub found : Array → Array → Array → Volume → Volume
found m b f v = record (hinted (some f) (described b (record v { vol_start = r32 m 454 }))) {
  fat_mounted = true;
}

module _ {d : Drive} (r : Reliable d) where
  pub fat_init-Returns :
      (m b f : Array) (s : Mini d.State)
      → r32 m 454 + 1 < most_sectors
      → is_signed m ≡ true
      → is_fat_partition m ≡ true
      → is_signed b ≡ true
      → is_fat32 b ≡ true
      → Alike (content_of r s 0) m
      → Alike (content_of r s (r32 m 454)) b
      → Alike (content_of r s ((r32 m 454 + 1) % 2 ^ 32)) f
      → Returns (fat_init d) s (λ x t.
        t.volume ≡ found m b f s.volume
        × ((k i : ℕ) → i < 512 → content_of r t k i ≡ content_of r s k i))
  unfolding fat_init
  fat_init-Returns m b f s near sm pm sb fb hm hb hf =
      Returns-then (disk_read-Returns r 0 s (omega arith)) (λ m' s1 (em, (v1, h1)).
        let am : Alike m' m = λ i lt. ap (λ a. a i) em ∙ hm i lt in
        Returns-require _ (is_signed_ext m' m am ∙ sm) (
          Returns-require _ (is_fat_partition_ext m' m am ∙ pm) (
            Returns-assign _ _ (
              let start : r32 m' 454 ≡ r32 m 454 = r32_ext m' m 454 (omega arith) am in
              Returns-then (disk_read-Returns r (r32 m' 454) _ (omega (arith, start, near)))
                (λ b' s2 (eb, (v2, h2)).
                  let ab : Alike b' b = λ i lt.
                    ap (λ a. a i) eb
                    ∙ h1 (r32 m' 454) i lt
                    ∙ ap (λ k. content_of r s k i) start
                    ∙ hb i lt in
                  Returns-require _ (is_signed_ext b' b ab ∙ sb) (
                    Returns-require _ (is_fat32_ext b' b ab ∙ fb) (
                      Returns-assign _ _ (
                        Returns-statics _ (
                          Returns-then
                            (Returns-attempt (
                              disk_read-Returns r ((s2.volume.vol_start + 1) % 2 ^ 32) _ (
                                let e = ap (λ w. w.vol_start) v2 in omega (arith, e, start, near))))
                            (λ o s3 (f', eo, (ef, (v3, h3))). Returns-assign _ _ (
                              Returns-assign _ _ (
                                Returns-weaken (disk_flush-Returns r _) (λ y s4 (v4, h4).
                                  let behind : (s2.volume.vol_start + 1) % 2 ^ 32
                                      ≡ (r32 m 454 + 1) % 2 ^ 32 =
                                    ap (λ w. (w.vol_start + 1) % 2 ^ 32) v2
                                    ∙ ap (λ x. (x + 1) % 2 ^ 32) start in
                                  let af : Alike f' f = λ i lt.
                                    ap (λ a. a i) ef
                                    ∙ h2 ((s2.volume.vol_start + 1) % 2 ^ 32) i lt
                                    ∙ h1 ((s2.volume.vol_start + 1) % 2 ^ 32) i lt
                                    ∙ ap (λ k. content_of r s k i) behind
                                    ∙ hf i lt in
                                  let w : s3.volume ≡ described b (started (r32 m 454) s.volume) =
                                    v3
                                    ∙ ap (described b') v2
                                    ∙ described_ext b' b (started (r32 m' 454) s1.volume) ab
                                    ∙ ap (λ x. described b (started x s1.volume)) start
                                    ∙ ap (λ v. described b (started (r32 m 454) v)) v1 in
                                  (
                                    v4
                                        ∙ ap (λ o. mounted (hinted o s3.volume)) eo
                                        ∙ ap (λ v. mounted (hinted (some f') v)) w
                                        ∙ ap mounted (
                                            hinted_ext f' f
                                              (described b (started (r32 m 454) s.volume)) af),
                                    λ k i lt. h4 k i lt ∙ h3 k i lt ∙ h2 k i lt ∙ h1 k i lt,
                                  ))))))))))))))
