-- ===== src/Mini64/Ata.antt =====
-- The drive of mini64/kernel.c: the primary ATA disk by its ports. The hardware is a parameter.
pub mod Bounds
pub mod Pending
pub mod Device
pub mod Kept
use os.Prelude.{
  ℕ, zero, suc, ◌+◌, ◌-◌, ◌*◌, ◌/◌, ◌%◌, ◌^◌, List, [], ◌∷◌, ◌++◌, Option, none, some, Bool, true,
  false, not, ◌&&◌, ◌||◌, if◌then◌else◌, ltb, leb, ◌==◌,
}
use os.Prelude.Array.{Array, put}
use os.Ports.{Access, input, output, Trace, Hardware, byte_at, has_bit}
use os.Mini64.Disk.{Drive}

abbrev pub ata_timeout : ℕ
ata_timeout = 1000000

-- `pending_writes`, and the accesses to the ports so far.
pub record Ata : Type 0 where
  pub pending_writes : ℕ
  pub trace : Trace

-- A call: `return 0` is none.
abbrev pub Call : Type 0 → Type 0
Call A = Ata → Option A × Ata

abbrev pub after : {A B : Type 0} → Option A × Ata → (A → Call B) → Option B × Ata
after (none, s) f = (none, s)
after (some a, s) f = f a s

infixl 5 ◌>>=◌ ◌>>◌
unfoldable pub ◌>>=◌ : {A B : Type 0} → Call A → (A → Call B) → Call B
(m >>= f) s = after (m s) f

abbrev pub ◌>>◌ : {B : Type 0} → Call (Unit {0}) → Call B → Call B
m >> k = m >>= λ x. k

abbrev pub pure : {A : Type 0} → A → Call A
pure a s = (some a, s)

abbrev pub fail : {A : Type 0} → Call A
fail s = (none, s)

abbrev pub outb : ℕ → ℕ → Call (Unit {0})
outb port value s = (some tt, record s { trace = output port value ∷ s.trace })

abbrev pub count_write : Call (Unit {0})
count_write s = (some tt, record s { pending_writes = (s.pending_writes + 1) % 2 ^ 32 })

abbrev pub clear_writes : Call (Unit {0})
clear_writes s = (some tt, record s { pending_writes = 0 })

module _ (hw : Hardware) where
  abbrev pub inb : ℕ → Call ℕ
  inb port s =
      let value = byte_at hw port s.trace in
      (some value, record s { trace = input port value ∷ s.trace })

  abbrev pub inw : ℕ → Call ℕ
  inw port s =
      let value = hw s.trace port % 2 ^ 16 in
      (some value, record s { trace = input port value ∷ s.trace })

  -- The rounds that are left of the waits.
  unfoldable pub ready_from : ℕ → Call (Unit {0})
  ready_from zero = fail
  ready_from (suc n) = do
    status ← inb 0x1f7
    let rest = ready_from n
    if has_bit status 7 then rest else pure tt

  unfoldable pub data_from : ℕ → Call (Unit {0})
  data_from zero = fail
  data_from (suc n) = do
    status ← inb 0x1f7
    let rest = data_from n
    if has_bit status 0 then fail else if has_bit status 3 then pure tt else rest

  unfoldable pub disk_wait_ready : Call (Unit {0})
  disk_wait_ready = ready_from ata_timeout

  unfoldable pub disk_wait_data : Call (Unit {0})
  disk_wait_data = data_from ata_timeout

  unfoldable pub disk_flush : Call (Unit {0})
  disk_flush s =
      let flush = (do disk_wait_ready; outb 0x1f7 0xe7; disk_wait_ready; clear_writes) in
      if s.pending_writes == 0 then (some tt, s) else flush s

  -- `0xE0 | ((lba >> 24) & 15)`: the parts do not overlap.
  unfoldable pub disk_select : ℕ → ℕ → Call (Unit {0})
  disk_select lba cmd = do
    disk_wait_ready
    outb 0x1f6 (0xe0 + lba / 2 ^ 24 % 16)
    outb 0x1f2 1
    outb 0x1f3 (lba % 256)
    outb 0x1f4 (lba / 2 ^ 8 % 256)
    outb 0x1f5 (lba / 2 ^ 16 % 256)
    outb 0x1f7 cmd

  -- The words from `i` on go into the buffer, with the number that is left.
  unfoldable pub read_words : ℕ → ℕ → Array → Call Array
  read_words zero i buf = pure buf
  read_words (suc n) i buf = do
    w ← inw 0x1f0
    read_words n (i + 1) (put (put buf (i * 2) (w % 256)) (i * 2 + 1) (w / 2 ^ 8))

  unfoldable pub disk_read : ℕ → Array → Call Array
  disk_read lba buf = do disk_select lba 0x20; disk_wait_data; read_words 256 0 buf

  unfoldable pub write_words : ℕ → ℕ → Array → Call (Unit {0})
  write_words zero i buf = pure tt
  write_words (suc n) i buf = do
    outb 0x1f0 (buf (i * 2) + buf (i * 2 + 1) * 2 ^ 8)
    write_words n (i + 1) buf

  -- The 128th write that is pending is flushed.
  unfoldable pub flush_some : Call (Unit {0})
  flush_some s = if ltb s.pending_writes 128 then (some tt, s) else disk_flush s

  unfoldable pub disk_write : ℕ → Array → Call (Unit {0})
  disk_write lba buf = do
    disk_select lba 0x30
    disk_wait_data
    write_words 256 0 buf
    disk_wait_ready
    count_write
    flush_some

  -- The words from `i` to 256, with the number that is left.
  unfoldable pub identity_words : ℕ → ℕ → Array → Call Array
  identity_words zero i words = pure words
  identity_words (suc n) i words = do w ← inw 0x1f0; identity_words n (i + 1) (put words i w)

  -- `model[n++] = words[i] >> 8; model[n++] = words[i];` from word `i` on.
  abbrev pub model_from : ℕ → ℕ → Array → List ℕ
  model_from zero i words = []
  model_from (suc n) i words = words i / 2 ^ 8 ∷ words i % 256 ∷ model_from n (i + 1) words

  -- The text without the blanks at its end.
  abbrev pub trimmed : List ℕ → List ℕ
  trimmed [] = []
  trimmed (c ∷ cs) = elim (trimmed cs) [ [] ↦ if c == 32 then [] else c ∷ [] | x ∷ xs ↦ c ∷ x ∷ xs ]

  -- The model, without its NUL, and the number of sectors.
  unfoldable pub disk_identify : Call (List ℕ × ℕ)
  disk_identify = do
    disk_wait_ready
    outb 0x1f6 0xa0
    outb 0x1f2 0
    outb 0x1f3 0
    outb 0x1f4 0
    outb 0x1f5 0
    outb 0x1f7 0xec
    status ← inb 0x1f7
    if status == 0 then fail else pure tt
    disk_wait_data
    words ← identity_words 256 0 (λ i. 0)
    pure (trimmed (model_from 20 27 words), words 60 + words 61 * 2 ^ 16)

  -- The disk as a drive; the buffer of a read is a fresh one.
  abbrev pub ata_drive : Drive
  ata_drive = record {
    State = Ata;
    read = λ lba s. disk_read lba (λ i. 0) s;
    write =
        λ lba b s. let (r, t) = disk_write lba b s in (elim r [ none ↦ false | some x ↦ true ], t);
    flush = λ s. let (r, t) = disk_flush s in (elim r [ none ↦ false | some x ↦ true ], t);
    identify = disk_identify;
  }
