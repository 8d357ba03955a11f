-- ===== src/Mini64/Ata/Bounds.antt =====
-- The accesses to the ATA disk in mini64/kernel.c: how many a call needs, and how many written sectors are
-- not yet flushed.
use os.Prelude.{
  ℕ, zero, suc, ◌+◌, ◌%◌, ◌^◌, ◌≤◌, ◌≡◌, refl, ap, ◌∙◌, [], ◌∷◌, Option, none, some, ◌&&◌,
  if◌then◌else◌, ltb, ◌==◌, length, arith, inl, inr, Bool-cases,
}
use os.Prelude.Array.{Array}
use os.Ports.{input, output, Trace, Hardware, has_bit}
use os.Mini64.Ata.{
  Ata, Call, after, ◌>>=◌, pure, fail, outb, inb, inw, count_write, clear_writes, ata_timeout,
  ready_from, data_from, disk_wait_ready, disk_wait_data, disk_flush, disk_select, read_words,
  disk_read, write_words, flush_some, disk_write,
}

-- The commands that write a sector behind the last command that flushes.
abbrev pub unflushed : Trace → ℕ
unflushed [] = 0
unflushed (input port value ∷ t) = unflushed t
unflushed (output port value ∷ t) =
    if (port == 0x1f7) && (value == 0x30)
    then unflushed t + 1
    else if (port == 0x1f7) && (value == 0xe7)
    then 0
    else unflushed t

-- `pending_writes` and what it counts.
abbrev pub counts : Ata → ℕ × ℕ
counts s = (s.pending_writes, unflushed s.trace)

-- The call makes at most `k` accesses, and changes the counts by `f` when it returns 1.
pub record Does {A : Type 0} (k : ℕ) (m : Call A) (f : ℕ × ℕ → ℕ × ℕ) : Type 0 where
  pub few : (s : Ata) → length (m s).1.trace ≤ length s.trace + k
  pub counted : (s : Ata) (a : A) → (m s).0 ≡ some a → counts (m s).1 ≡ f (counts s)

abbrev pub same : ℕ × ℕ → ℕ × ℕ
same c = c

few_after :
    {A B : Type 0} (r : Option A × Ata) (f : A → Call B) (j n : ℕ)
    → ((a : A) (s : Ata) → length (f a s).1.trace ≤ length s.trace + j)
    → length r.1.trace ≤ n
    → length (after r f).1.trace ≤ n + j
few_after (none, s) f j n h le = omega (arith, le)
few_after (some a, s) f j n h le = let more = h a s in omega (arith, le, more)

counted_after :
    {A B : Type 0} (r : Option A × Ata) (f : A → Call B) (g h : ℕ × ℕ → ℕ × ℕ) (c : ℕ × ℕ) (b : B)
    → ((a : A) → r.0 ≡ some a → counts r.1 ≡ g c)
    → ((a : A) (s : Ata) → (f a s).0 ≡ some b → counts (f a s).1 ≡ h (counts s))
    → (after r f).0 ≡ some b
    → counts (after r f).1 ≡ h (g c)
counted_after (none, s) f g h c b p q e = absurd (ground (arith, e))
counted_after (some a, s) f g h c b p q e = q a s e ∙ ap h (p a refl)

pub Does-bind :
    {A B : Type 0} {m : Call A} {f : A → Call B} (k j : ℕ) {g h : ℕ × ℕ → ℕ × ℕ}
    → Does k m g
    → ((a : A) → Does j (f a) h)
    → Does (k + j) (m >>= f) (λ c. h (g c))
unfolding ◌>>=◌
Does-bind {m = m} {f = f} k j {g} {h} x y = record {
  few = λ s.
      let le = few_after (m s) f j (length s.trace + k) (λ a. (y a).few) (x.few s) in
      omega (arith, le);
  counted =
      λ s b e. counted_after (m s) f g h (counts s) b (x.counted s) (λ a t. (y a).counted t b) e;
}

pub Does-weaken :
    {A : Type 0} {m : Call A} {k j : ℕ} {f g : ℕ × ℕ → ℕ × ℕ}
    → Does k m f
    → k ≤ j
    → ((c : ℕ × ℕ) → f c ≡ g c)
    → Does j m g
Does-weaken {k = k} {j} x le h = record {
  few = λ s. let n = x.few s in omega (arith, n, le);
  counted = λ s a e. x.counted s a e ∙ h (counts s);
}

-- The counts behind a byte that goes to a port.
abbrev sent : ℕ → ℕ → ℕ × ℕ → ℕ × ℕ
sent port value c = (
  c.0,
  if (port == 0x1f7) && (value == 0x30)
      then c.1 + 1
      else if (port == 0x1f7) && (value == 0xe7)
      then 0
      else c.1,
)

pub Does-pure : {A : Type 0} (a : A) → Does 0 (pure a) same
Does-pure a = record { few = λ s. omega arith; counted = λ s b e. refl }

Does-fail : {A : Type 0} (f : ℕ × ℕ → ℕ × ℕ) → Does {A = A} 0 fail f
Does-fail f = record { few = λ s. omega arith; counted = λ s b e. absurd (ground (arith, e)) }

Does-outb : (port value : ℕ) → Does 1 (outb port value) (sent port value)
Does-outb port value = record { few = λ s. omega arith; counted = λ s b e. refl }

Does-clear : Does 0 clear_writes (λ c. (0, c.1))
Does-clear = record { few = λ s. omega arith; counted = λ s b e. refl }

Does-count : Does 0 count_write (λ c. ((c.0 + 1) % 2 ^ 32, c.1))
Does-count = record { few = λ s. omega arith; counted = λ s b e. refl }

module _ (hw : Hardware) where
  Does-inb : (port : ℕ) → Does 1 (inb hw port) same
  Does-inb port = record { few = λ s. omega arith; counted = λ s b e. refl }

  Does-inw : (port : ℕ) → Does 1 (inw hw port) same
  Does-inw port = record { few = λ s. omega arith; counted = λ s b e. refl }

  Does-ready_from : (n : ℕ) → Does n (ready_from hw n) same
  unfolding ready_from
  Does-ready_from zero = Does-fail same
  Does-ready_from (suc n) =
      Does-weaken
        (Does-bind 1 n (Does-inb 0x1f7) (λ status. elim (Bool-cases (has_bit status 7)) [
          | inl e ↦ rw e (Does-ready_from n)
          | inr e ↦ rw e (Does-weaken (Does-pure tt) (omega arith) (λ c. refl))
        ]))
        (omega arith) (λ c. refl)

  Does-data_from : (n : ℕ) → Does n (data_from hw n) same
  unfolding data_from
  Does-data_from zero = Does-fail same
  Does-data_from (suc n) =
      Does-weaken
        (Does-bind 1 n (Does-inb 0x1f7) (λ status. elim (Bool-cases (has_bit status 0)) [
          | inl e ↦ rw e (Does-weaken (Does-fail same) (omega arith) (λ c. refl))
          | inr e ↦ rw e (elim (Bool-cases (has_bit status 3)) [
            | inl y ↦ rw y (Does-weaken (Does-pure tt) (omega arith) (λ c. refl))
            | inr z ↦ rw z (Does-data_from n)
          ])
        ]))
        (omega arith) (λ c. refl)

  Does-wait_ready : Does ata_timeout (disk_wait_ready hw) same
  unfolding disk_wait_ready
  Does-wait_ready = Does-ready_from ata_timeout

  Does-wait_data : Does ata_timeout (disk_wait_data hw) same
  unfolding disk_wait_data
  Does-wait_data = Does-data_from ata_timeout

  Does-read_words : (n i : ℕ) (buf : Array) → Does n (read_words hw n i buf) same
  unfolding read_words
  Does-read_words zero i buf = Does-pure buf
  Does-read_words (suc n) i buf =
      Does-weaken (Does-bind 1 n (Does-inw 0x1f0) (λ w. Does-read_words n (i + 1) _)) (omega arith)
        (λ c. refl)

  Does-write_words : (n i : ℕ) (buf : Array) → Does n (write_words hw n i buf) same
  unfolding write_words
  Does-write_words zero i buf = Does-pure tt
  Does-write_words (suc n) i buf =
      Does-weaken (Does-bind 1 n (Does-outb 0x1f0 _) (λ x. Does-write_words n (i + 1) buf))
        (omega arith) (λ c. refl)

  Does-select : (lba cmd : ℕ) → Does (ata_timeout + 6) (disk_select hw lba cmd) (sent 0x1f7 cmd)
  unfolding disk_select
  Does-select lba cmd =
      Does-weaken
        (Does-bind ata_timeout 6 Does-wait_ready (λ x. Does-bind 1 5 (Does-outb 0x1f6 _) (λ x.
          Does-bind 1 4 (Does-outb 0x1f2 1) (λ x. Does-bind 1 3 (Does-outb 0x1f3 _) (λ x.
            Does-bind 1 2 (Does-outb 0x1f4 _)
              (λ x. Does-bind 1 1 (Does-outb 0x1f5 _) (λ x. Does-outb 0x1f7 cmd)))))))
        (omega arith) (λ c. refl)

  pub Does-disk_read : (lba : ℕ) (buf : Array) → Does 2000262 (disk_read hw lba buf) same
  unfolding disk_read
  Does-disk_read lba buf =
      Does-weaken
        (Does-bind _ _ (Does-select lba 0x20)
          (λ x. Does-bind _ _ Does-wait_data (λ x. Does-read_words 256 0 buf)))
        (omega arith) (λ c. refl)

  -- Behind a flush nothing is pending.
  abbrev pub flushed : ℕ × ℕ → ℕ × ℕ
  flushed c = if c.0 == 0 then c else (0, 0)

  pub Does-disk_flush : Does 2000001 (disk_flush hw) flushed
  unfolding disk_flush
  Does-disk_flush =
      let flush = Does-bind _ _ Does-wait_ready (λ x.
        Does-bind _ _ (Does-outb 0x1f7 0xe7)
          (λ x. Does-bind _ _ Does-wait_ready (λ x. Does-clear))) in
      record {
        few = λ s. elim (Bool-cases (s.pending_writes == 0)) [
          | inl e ↦ rw e (omega arith)
          | inr e ↦ let n = flush.few s in rw e (omega (arith, n))
        ];
        counted = λ s a. elim (Bool-cases (s.pending_writes == 0)) [
          | inl e ↦ rw e (λ d. refl)
          | inr e ↦ rw e (λ d. flush.counted s a d)
        ];
      }

  Does-flush_some : Does 2000001 (flush_some hw) (λ c. if ltb c.0 128 then c else flushed c)
  unfolding flush_some
  Does-flush_some = record {
    few = λ s. elim (Bool-cases (ltb s.pending_writes 128)) [
      | inl e ↦ rw e (omega arith)
      | inr e ↦ let n = Does-disk_flush.few s in rw e (omega (arith, n))
    ];
    counted = λ s a. elim (Bool-cases (ltb s.pending_writes 128)) [
      | inl e ↦ rw e (λ d. refl)
      | inr e ↦ rw e (λ d. Does-disk_flush.counted s a d)
    ];
  }

  -- A write adds one, and what would be the 128th is flushed.
  abbrev pub written : ℕ × ℕ → ℕ × ℕ
  written c = let n = (c.0 + 1) % 2 ^ 32 in if ltb n 128 then (n, c.1 + 1) else flushed (n, c.1 + 1)

  pub Does-disk_write : (lba : ℕ) (buf : Array) → Does 5000263 (disk_write hw lba buf) written
  unfolding disk_write
  Does-disk_write lba buf =
      Does-weaken
        (Does-bind _ _ (Does-select lba 0x30) (λ x. Does-bind _ _ Does-wait_data (λ x.
          Does-bind _ _ (Does-write_words 256 0 buf) (λ x.
            Does-bind _ _ Does-wait_ready (λ x. Does-bind _ _ Does-count (λ x. Does-flush_some))))))
        (omega arith) (λ c. refl)
