-- ===== src/Mini64/Ata/Device.antt =====
-- A disk behind the ports that mini64/kernel.c uses, as hardware that always answers, and the words that it
-- moves.
use os.Prelude.{
  ℕ, zero, suc, ◌+◌, ◌*◌, ◌/◌, ◌%◌, ◌^◌, ◌≤◌, ◌<◌, ◌≡◌, refl, ap, ◌∙◌, [], ◌∷◌, some, true, false,
  ◌&&◌, if◌then◌else◌, ltb, leb, ◌==◌, arith,
}
use os.Prelude.Array.{Array, put}
use os.Ports.{input, output, Trace, Hardware}
use os.Mini64.Disk.{IsBytes}
use os.Mini64.Ata.{Ata, ◌>>=◌, read_words, write_words}

-- The registers, the last command with its sector and the number of words moved since, and the sectors.
pub record Device : Type 0 where
  pub high : ℕ
  pub upper : ℕ
  pub middle : ℕ
  pub low : ℕ
  pub command : ℕ
  pub lba : ℕ
  pub moved : ℕ
  pub sectors : ℕ → Array

-- The word goes to bytes `i` and `i + 1` of a sector.
abbrev pub store_word : ℕ → ℕ → ℕ → (ℕ → Array) → ℕ → Array
store_word lba i w sectors k x =
    if (k == lba) && (x == i)
    then w % 256
    else if (k == lba) && (x == i + 1)
    then w / 2 ^ 8
    else sectors k x

abbrev pub on_output : ℕ → ℕ → Device → Device
on_output port value d =
    if port == 0x1f0
    then record d {
      moved = d.moved + 1;
      sectors =
          if d.command == 0x30 then store_word d.lba (d.moved * 2) value d.sectors else d.sectors;
    }
    else if port == 0x1f3
    then record d { low = value }
    else if port == 0x1f4
    then record d { middle = value }
    else if port == 0x1f5
    then record d { upper = value }
    else if port == 0x1f6
    then record d { high = value % 16 }
    else if port == 0x1f7
    then record d {
      command = value;
      lba = d.low + d.middle * 2 ^ 8 + d.upper * 2 ^ 16 + d.high * 2 ^ 24;
      moved = 0;
    }
    else d

-- The words by which the disk identifies itself: its name and its number of sectors.
abbrev pub identity : ℕ → ℕ
identity i = if i == 27 then 0x4f53 else if i == 60 then 16960 else if i == 61 then 15 else 0x2020

none_left : (i k x y : ℕ) → y ≡ (if leb (i * 2) k && ltb k ((i + 0) * 2) then x else y)
none_left i k x y = ground arith

-- A word goes into the buffer, and the later words behind it.
word_put :
    (i n k w : ℕ) (b : Array) (old : ℕ)
    → w ≡ b (i * 2) + b (i * 2 + 1) * 2 ^ 8
    → ((x : ℕ) → b x < 256)
    → (if leb ((i + 1) * 2) k && ltb k ((i + 1 + n) * 2)
        then b k
        else if k == i * 2 + 1
        then w / 2 ^ 8
        else if k == i * 2
        then w % 256
        else old)
      ≡ (if leb (i * 2) k && ltb k ((i + suc n) * 2) then b k else old)
word_put i n k w b old e small =
    let lo = small (i * 2) in
    let hi = small (i * 2 + 1) in
    let first : w % 256 ≡ b (i * 2) = omega (arith, e, lo, hi) in
    let second : w / 2 ^ 8 ≡ b (i * 2 + 1) = omega (arith, e, lo, hi) in
    rw (first, second) (ground arith)

-- A word goes to the disk, and the later words behind it.
stored :
    (i n lba k x : ℕ) (b : Array) (old : ℕ) (d : Device)
    → b (i * 2) < 256
    → b (i * 2 + 1) < 256
    → d.command ≡ 0x30
    → d.lba ≡ lba
    → d.moved ≡ i
    → d.sectors k x % 256 ≡ old
    → (if (k == lba) && (leb ((i + 1) * 2) x && ltb x ((i + 1 + n) * 2))
        then b x
        else (on_output 0x1f0 (b (i * 2) + b (i * 2 + 1) * 2 ^ 8) d).sectors k x % 256)
      ≡ (if (k == lba) && (leb (i * 2) x && ltb x ((i + suc n) * 2)) then b x else old)
stored i n lba k x b old d lo hi c l m e =
    let writes : (d.command == 0x30) ≡ true = ground (arith, c) in
    let w = b (i * 2) + b (i * 2 + 1) * 2 ^ 8 in
    let first : w % 256 % 256 ≡ b (i * 2) = omega (arith, lo, hi) in
    let second : w / 2 ^ 8 % 256 ≡ b (i * 2 + 1) = omega (arith, lo, hi) in
    rw (writes, l, m) (ground (arith, first, second, e))

module _ (start : ℕ → Array) where
  abbrev pub device : Trace → Device
  device [] = record {
    high = 0;
    upper = 0;
    middle = 0;
    low = 0;
    command = 0;
    lba = 0;
    moved = 0;
    sectors = start;
  }
  device (input port value ∷ t) =
      if port == 0x1f0 then record (device t) { moved = (device t).moved + 1 } else device t
  device (output port value ∷ t) = on_output port value (device t)

  abbrev pub byte : Trace → ℕ → ℕ → ℕ
  byte t k i = (device t).sectors k i % 256

  byte_small : (t : Trace) (k x : ℕ) → byte t k x < 256
  byte_small t k x = omega arith

  -- The status says that the disk is ready and has data.
  abbrev pub disk_hardware : Hardware
  disk_hardware t port =
      let d = device t in
      let i = d.moved * 2 in
      if port == 0x1f7
      then 0x48
      else if d.command == 0xec
      then identity d.moved
      else byte t d.lba i + byte t d.lba (i + 1) * 2 ^ 8

  abbrev pub contents : Ata → ℕ → Array
  contents s k i = if ltb i 512 then byte s.trace k i else 0

  -- A command is given behind these accesses.
  abbrev pub selected : ℕ → ℕ → Ata → Ata
  selected lba cmd s = record s {
    trace =
        output 0x1f7 cmd
        ∷ output 0x1f5 (lba / 2 ^ 16 % 256)
        ∷ output 0x1f4 (lba / 2 ^ 8 % 256)
        ∷ output 0x1f3 (lba % 256)
        ∷ output 0x1f2 1
        ∷ output 0x1f6 (0xe0 + lba / 2 ^ 24 % 16)
        ∷ input 0x1f7 0x48
        ∷ s.trace;
  }

  abbrev pub waited : Ata → Ata
  waited s = record s { trace = input 0x1f7 0x48 ∷ s.trace }

  -- A word of a sector.
  pub word_lem :
      (lba i : ℕ) (t : Trace)
      → (device t).command ≡ 0x20
      → (device t).lba ≡ lba
      → (device t).moved ≡ i
      → disk_hardware t 0x1f0 % 2 ^ 16 ≡ byte t lba (i * 2) + byte t lba (i * 2 + 1) * 2 ^ 8
  word_lem lba i t c l m =
      let plain : ((device t).command == 0xec) ≡ false = ground (arith, c) in
      let small : byte t lba (i * 2) < 256 = omega arith in
      let small' : byte t lba (i * 2 + 1) < 256 = omega arith in
      rw (plain, l, m) (omega (arith, small, small'))

  pub read_words_lem :
      (n i lba : ℕ) (buf : Array) (s : Ata)
      → (device s.trace).command ≡ 0x20
      → (device s.trace).lba ≡ lba
      → (device s.trace).moved ≡ i
      → ((read_words disk_hardware n i buf s).0
          ≡ some (λ k. if leb (i * 2) k && ltb k ((i + n) * 2) then byte s.trace lba k else buf k))
        × (device (read_words disk_hardware n i buf s).1.trace).sectors ≡ (device s.trace).sectors
  unfolding read_words ◌>>=◌
  read_words_lem zero i lba buf s c l m =
      (ap some (λ j k. none_left i k (byte s.trace lba k) (buf k) j), refl)
  read_words_lem (suc n) i lba buf s c l m =
      let w = disk_hardware s.trace 0x1f0 % 2 ^ 16 in
      let e = word_lem lba i s.trace c l m in
      let (r, kept) =
        read_words_lem n (i + 1) lba (put (put buf (i * 2) (w % 256)) (i * 2 + 1) (w / 2 ^ 8))
          (record s { trace = input 0x1f0 w ∷ s.trace }) c l (ap (λ x. x + 1) m) in
      (
        r
            ∙ ap some
                (λ j k. word_put i n k w (byte s.trace lba) (buf k) e (byte_small s.trace lba) j),
        kept,
      )

  pub write_words_lem :
      (n i lba : ℕ) (b : Array) (s : Ata)
      → (device s.trace).command ≡ 0x30
      → (device s.trace).lba ≡ lba
      → (device s.trace).moved ≡ i
      → (i + n) * 2 ≤ 512
      → IsBytes b
      → ((write_words disk_hardware n i b s).0 ≡ some tt)
        × ((write_words disk_hardware n i b s).1.pending_writes ≡ s.pending_writes)
        × ((k x : ℕ)
            → byte (write_words disk_hardware n i b s).1.trace k x ≡ (
                if (k == lba) && (leb (i * 2) x && ltb x ((i + n) * 2))
                then b x
                else byte s.trace k x))
  unfolding write_words ◌>>=◌
  write_words_lem zero i lba b s c l m le bytes = (refl, refl, λ k x. ground arith)
  write_words_lem (suc n) i lba b s c l m le bytes =
      let w = b (i * 2) + b (i * 2 + 1) * 2 ^ 8 in
      let (done, same, h) =
        write_words_lem n (i + 1) lba b (record s { trace = output 0x1f0 w ∷ s.trace }) c l
          (ap (λ x. x + 1) m) (omega (arith, le)) bytes in
      (
        done,
        same,
        λ k x.
            h k x
            ∙ stored i n lba k x b (byte s.trace k x) (device s.trace)
                (bytes (i * 2) (omega (arith, le))) (bytes (i * 2 + 1) (omega (arith, le))) c l m
                refl,
      )
