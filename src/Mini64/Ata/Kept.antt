-- ===== src/Mini64/Ata/Kept.antt =====
-- The calls of mini64/kernel.c on the hardware of Device: `ata_drive` on it is a drive that keeps what is
-- written.
use os.Prelude.{
  ℕ, zero, suc, ◌+◌, ◌*◌, ◌/◌, ◌%◌, ◌^◌, ◌<◌, ◌≡◌, refl, ap, ◌∙◌, ◌∷◌, List, Option, none, some,
  true, false, ◌&&◌, if◌then◌else◌, ltb, leb, ◌==◌, arith, inl, inr, Bool-cases,
}
use os.Prelude.Array.{Array, put}
use os.Ports.{input, output, Hardware}
use os.Mini64.Disk.{IsBytes, most_sectors, Reliable}
use os.Mini64.Ata.{
  Ata, after, ◌>>=◌, pure, ready_from, data_from, disk_wait_ready, disk_wait_data, disk_flush,
  disk_select, read_words, disk_read, write_words, flush_some, disk_write, identity_words,
  model_from, trimmed, disk_identify, ata_drive,
}
use os.Mini64.Ata.Device.{
  identity, device, byte, disk_hardware, contents, selected, waited, read_words_lem,
  write_words_lem,
}

module _ (start : ℕ → Array) where
  abbrev hw : Hardware
  hw = disk_hardware start

  -- What the calls leave of the sectors.
  abbrev pub sectors_of : Ata → ℕ → Array
  sectors_of s = (device start s.trace).sectors

  place_lem :
      (lba : ℕ)
      → lba < most_sectors
      → lba % 256
          + lba / 2 ^ 8 % 256 * 2 ^ 8
          + lba / 2 ^ 16 % 256 * 2 ^ 16
          + (0xe0 + lba / 2 ^ 24 % 16) % 16 * 2 ^ 24
        ≡ lba
  place_lem lba lt = omega (arith, lt)

  whole :
      (k x y : ℕ)
      → (if leb (0 * 2) k && ltb k ((0 + 256) * 2) then x else y) ≡ (if ltb k 512 then x else y)
  whole k x y = ground arith

  read_steps :
      (lba : ℕ) (s : Ata)
      → disk_read hw lba (λ i. 0) s
        ≡ read_words hw 256 0 (λ i. 0) (waited start (selected start lba 0x20 s))
  unfolding disk_read disk_select disk_wait_ready ready_from disk_wait_data data_from ◌>>=◌
  read_steps lba s = refl

  pub disk_read_keeps :
      (lba : ℕ) (s : Ata) → sectors_of (disk_read hw lba (λ i. 0) s).1 ≡ sectors_of s
  disk_read_keeps lba s =
      ap (λ p. sectors_of p.1) (read_steps lba s)
      ∙ (read_words_lem start 256 0 _ (λ i. 0) (waited start (selected start lba 0x20 s)) refl refl
          refl).1

  pub disk_read_lem :
      (lba : ℕ) (s : Ata)
      → lba < most_sectors
      → (disk_read hw lba (λ i. 0) s).0 ≡ some (contents start s lba)
  disk_read_lem lba s lt =
      let (r, kept) =
        read_words_lem start 256 0 lba (λ i. 0) (waited start (selected start lba 0x20 s)) refl
          (place_lem lba lt) refl in
      ap (λ p. p.0) (read_steps lba s) ∙ r ∙ ap some (λ j k. whole k (byte start s.trace lba k) 0 j)

  pub disk_flush_lem :
      (s : Ata) → ((disk_flush hw s).0 ≡ some tt) × (sectors_of (disk_flush hw s).1 ≡ sectors_of s)
  unfolding disk_flush disk_wait_ready ready_from ◌>>=◌
  disk_flush_lem s = elim (Bool-cases (s.pending_writes == 0)) [
    | inl e ↦ rw e (refl, refl)
    | inr e ↦ rw e (refl, refl)
  ]

  flush_some_lem :
      (s : Ata) → ((flush_some hw s).0 ≡ some tt) × (sectors_of (flush_some hw s).1 ≡ sectors_of s)
  unfolding flush_some
  flush_some_lem s = elim (Bool-cases (ltb s.pending_writes 128)) [
    | inl e ↦ rw e (refl, refl)
    | inr e ↦ rw e (disk_flush_lem s)
  ]

  abbrev counted : Ata → Ata
  counted s = record (waited start s) { pending_writes = (s.pending_writes + 1) % 2 ^ 32 }

  in_sector :
      (k lba i x new old : ℕ)
      → i < 512
      → new ≡ (if (k == lba) && (leb (0 * 2) i && ltb i ((0 + 256) * 2)) then x else old)
      → (if ltb i 512 then new else 0) ≡ (if k == lba then x else if ltb i 512 then old else 0)
  in_sector k lba i x new old small e =
      let inside : ltb i 512 ≡ true = ground (arith, small) in
      let whole_sector : (leb (0 * 2) i && ltb i ((0 + 256) * 2)) ≡ true = ground (arith, small) in
      rw inside (
        e
        ∙ rw whole_sector (elim (Bool-cases (k == lba)) [ inl y ↦ rw y refl | inr n ↦ rw n refl ]))

  write_steps :
      (lba : ℕ) (b : Array) (s u : Ata)
      → write_words hw 256 0 b (waited start (selected start lba 0x30 s)) ≡ (some tt, u)
      → disk_write hw lba b s ≡ flush_some hw (counted u)
  unfolding disk_write disk_select disk_wait_ready ready_from disk_wait_data data_from ◌>>=◌
  write_steps lba b s u e = ap (λ p. after p (λ x t. flush_some hw (counted t))) e

  write_words_done : (n i : ℕ) (b : Array) (s : Ata) → (write_words hw n i b s).0 ≡ some tt
  unfolding write_words ◌>>=◌
  write_words_done zero i b s = refl
  write_words_done (suc n) i b s = write_words_done n (i + 1) b _

  pub disk_write_lem :
      (lba : ℕ) (b : Array) (s : Ata)
      → ((disk_write hw lba b s).0 ≡ some tt)
        × (lba < most_sectors
            → IsBytes b
            → (k i : ℕ) → i < 512
            → contents start (disk_write hw lba b s).1 k i
              ≡ (if k == lba then b i else contents start s k i))
  disk_write_lem lba b s =
      let begun = waited start (selected start lba 0x30 s) in
      let u = (write_words hw 256 0 b begun).1 in
      let steps = write_steps lba b s u (ap (λ o. (o, u)) (write_words_done 256 0 b begun)) in
      let (done, kept) = flush_some_lem (counted u) in
      (
        ap (λ p. p.0) steps ∙ done,
        λ lt bytes k i small.
            let (ok, same, h) =
              write_words_lem start 256 0 lba b begun refl (place_lem lba lt) refl (omega arith)
                bytes in
            let moved =
              ap (λ p. sectors_of p.1 k i % 256) steps ∙ ap (λ f. f k i % 256) kept ∙ h k i in
            in_sector k lba i (b i) _ (byte start s.trace k i) small moved,
      )

  nothing : (i k x y : ℕ) → y ≡ (if leb i k && ltb k (i + 0) then x else y)
  nothing i k x y = ground arith

  identity_word : (i : ℕ) → identity i % 2 ^ 16 ≡ identity i
  identity_word i = ground arith

  identity_put :
      (i n k x y : ℕ)
      → (if leb (i + 1) k && ltb k (i + 1 + n)
          then identity k
          else if k == i
          then identity i
          else y)
        ≡ (if leb i k && ltb k (i + suc n) then identity k else y)
  identity_put i n k x y = elim (Bool-cases (k == i)) [
    | inl e ↦ let same : k ≡ i = ground (arith, e) in rw same (ground arith)
    | inr e ↦ ground (arith, e)
  ]

  identity_words_lem :
      (n i : ℕ) (words : Array) (s : Ata)
      → (device start s.trace).command ≡ 0xec
      → (device start s.trace).moved ≡ i
      → ((identity_words hw n i words s).0
          ≡ some (λ k. if leb i k && ltb k (i + n) then identity k else words k))
        × (sectors_of (identity_words hw n i words s).1 ≡ sectors_of s)
  unfolding identity_words ◌>>=◌
  identity_words_lem zero i words s c m =
      (ap some (λ j k. nothing i k (identity k) (words k) j), refl)
  identity_words_lem (suc n) i words s c m =
      let w = hw s.trace 0x1f0 % 2 ^ 16 in
      let asked : ((device start s.trace).command == 0xec) ≡ true = ground (arith, c) in
      let e : w ≡ identity i = rw (asked, m) (identity_word i) in
      let (r, kept) =
        identity_words_lem n (i + 1) (put words i w) (record s { trace = input 0x1f0 w ∷ s.trace })
          c (ap (λ x. x + 1) m) in
      (
        r
            ∙ ap {A = ℕ}
                (λ v.
                  some (λ k.
                    if leb (i + 1) k && ltb k (i + 1 + n) then identity k else put words i v k))
                e
            ∙ ap some (λ j k. identity_put i n k 0 (words k) j),
        kept,
      )

  abbrev pub id_words : Array
  id_words k = if leb 0 k && ltb k (0 + 256) then identity k else 0

  abbrev asked_identity : Ata → Ata
  asked_identity s = record s {
    trace =
        input 0x1f7 0x48
        ∷ input 0x1f7 0x48
        ∷ output 0x1f7 0xec
        ∷ output 0x1f5 0
        ∷ output 0x1f4 0
        ∷ output 0x1f3 0
        ∷ output 0x1f2 0
        ∷ output 0x1f6 0xa0
        ∷ input 0x1f7 0x48
        ∷ s.trace;
  }

  abbrev pub described : Array → List ℕ × ℕ
  described words = (trimmed hw (model_from hw 20 27 words), words 60 + words 61 * 2 ^ 16)

  identify_steps :
      (s u : Ata)
      → identity_words hw 256 0 (λ i. 0) (asked_identity s) ≡ (some id_words, u)
      → disk_identify hw s ≡ (some (described id_words), u)
  unfolding disk_identify disk_wait_ready ready_from disk_wait_data data_from ◌>>=◌
  identify_steps s u e = ap (λ p. after p (λ words. pure (described words))) e

  pub disk_identify_lem :
      (s : Ata)
      → ((disk_identify hw s).0 ≡ some (described id_words))
        × (sectors_of (disk_identify hw s).1 ≡ sectors_of s)
  disk_identify_lem s =
      let r = identity_words hw 256 0 (λ i. 0) (asked_identity s) in
      let (e, kept) = identity_words_lem 256 0 (λ i. 0) (asked_identity s) refl refl in
      let steps = identify_steps s r.1 (ap (λ o. (o, r.1)) e) in
      (ap (λ p. p.0) steps, ap (λ p. sectors_of p.1) steps ∙ kept)

  pub contents_small : (s : Ata) (k i : ℕ) → contents start s k i < 256
  contents_small s k i = elim (Bool-cases (ltb i 512)) [
    | inl e ↦ rw e (omega arith)
    | inr e ↦ rw e (omega arith)
  ]

  pub contents_same :
      (s t : Ata) (k i : ℕ)
      → sectors_of t ≡ sectors_of s
      → contents start t k i ≡ contents start s k i
  contents_same s t k i e = ap (λ f. if ltb i 512 then f k i % 256 else 0) e

  -- The disk of mini64/kernel.c keeps what is written on this hardware.
  abbrev pub ata-Reliable : Reliable (ata_drive (disk_hardware start))
  ata-Reliable = record {
    content = contents start;
    bytes = λ s k i lt. contents_small s k i;
    state_read = λ lba s. (disk_read hw lba (λ i. 0) s).1;
    read_eq = λ lba s lt. ap (λ o. (o, (disk_read hw lba (λ i. 0) s).1)) (disk_read_lem lba s lt);
    read_keeps =
        λ lba s k i lt. contents_same s (disk_read hw lba (λ i. 0) s).1 k i (disk_read_keeps lba s);
    state_write = λ lba b s. (disk_write hw lba b s).1;
    write_eq = λ lba b s lt.
        ap {A = Option (Unit {0})}
          (λ o. (elim o [ none ↦ false | some x ↦ true ], (disk_write hw lba b s).1))
          (disk_write_lem lba b s).0;
    write_sets = λ lba b s k i inside bytes lt. (disk_write_lem lba b s).1 inside bytes k i lt;
    state_flush = λ s. (disk_flush hw s).1;
    flush_eq = λ s.
        ap {A = Option (Unit {0})}
          (λ o. (elim o [ none ↦ false | some x ↦ true ], (disk_flush hw s).1))
          (disk_flush_lem s).0;
    flush_keeps = λ s k i lt. contents_same s (disk_flush hw s).1 k i (disk_flush_lem s).1;
    model = (described id_words).0;
    capacity = 1000000;
    capacity_small = omega arith;
    state_identify = λ s. (disk_identify hw s).1;
    identify_eq = λ s. ap (λ o. (o, (disk_identify hw s).1)) (disk_identify_lem s).0;
    identify_keeps = λ s k i lt. contents_same s (disk_identify hw s).1 k i (disk_identify_lem s).1;
  }
