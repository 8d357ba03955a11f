-- ===== src/Mini64/Ata/Pending.antt =====
-- The count of the writes that are pending in mini64/kernel.c, over any sequence of calls.
use os.Prelude.{ℕ, ◌+◌, ◌*◌, ◌≤◌, ◌<◌, ◌≡◌, refl, sym, ap, ◌∙◌, List, [], ◌∷◌, some, length, arith}
use os.Prelude.Array.{Array}
use os.Ports.{Hardware}
use os.Mini64.Ata.{Ata, Call, ◌>>=◌, pure, disk_flush, disk_read, disk_write}
use os.Mini64.Ata.Bounds.{
  unflushed, counts, Does, Does-bind, Does-pure, Does-weaken, Does-disk_read, Does-disk_write,
  Does-disk_flush, same, written, flushed,
}

-- What the programs ask of the disk.
pub data Request : Type 0 where
  read_sector : (lba : ℕ) → Request
  write_sector : (lba : ℕ) (buf : Array) → Request
  flush_writes : Request

module _ (hw : Hardware) where
  -- One call, whose buffer is fresh.
  abbrev pub perform : Request → Call (Unit {0})
  perform (read_sector lba) = disk_read hw lba (λ i. 0) >>= λ b. pure tt
  perform (write_sector lba buf) = disk_write hw lba buf
  perform flush_writes = disk_flush hw

  -- The calls up to the first that fails.
  unfoldable pub perform_all : List Request → Call (Unit {0})
  perform_all [] = pure tt
  perform_all (r ∷ rs) = perform r >>= λ x. perform_all rs

  -- The count is right, and below 128.
  abbrev pub IsCounted : Ata → Type 0
  IsCounted s = s.pending_writes ≡ unflushed s.trace × s.pending_writes < 128

  abbrev effect : Request → ℕ × ℕ → ℕ × ℕ
  effect (read_sector lba) = same
  effect (write_sector lba buf) = written hw
  effect flush_writes = flushed hw

  Does-perform : (r : Request) → Does 5000263 (perform r) (effect r)
  Does-perform (read_sector lba) =
      Does-weaken (Does-bind _ _ (Does-disk_read hw lba (λ i. 0)) (λ b. Does-pure tt)) (omega arith)
        (λ c. refl)
  Does-perform (write_sector lba buf) = Does-disk_write hw lba buf
  Does-perform flush_writes = Does-weaken (Does-disk_flush hw) (omega arith) (λ c. refl)

  effect_counted :
      (r : Request) (p u : ℕ)
      → p ≡ u
      → p < 128
      → (effect r (p, u)).0 ≡ (effect r (p, u)).1 × (effect r (p, u)).0 < 128
  effect_counted (read_sector lba) p u e lt = (e, lt)
  effect_counted (write_sector lba buf) p u e lt = (ground arith, ground arith)
  effect_counted flush_writes p u e lt = (ground arith, ground arith)

  effects : List Request → ℕ × ℕ → ℕ × ℕ
  effects [] c = c
  effects (r ∷ rs) c = effects rs (effect r c)

  Does-perform_all : (rs : List Request) → Does (length rs * 5000263) (perform_all rs) (effects rs)
  unfolding perform_all effects
  Does-perform_all [] = Does-weaken (Does-pure tt) (omega arith) (λ c. refl)
  Does-perform_all (r ∷ rs) =
      Does-weaken (Does-bind _ _ (Does-perform r) (λ x. Does-perform_all rs)) (omega arith)
        (λ c. refl)

  effects_counted :
      (rs : List Request) (p u : ℕ)
      → p ≡ u
      → p < 128
      → (effects rs (p, u)).0 ≡ (effects rs (p, u)).1 × (effects rs (p, u)).0 < 128
  unfolding effects
  effects_counted [] p u e lt = (e, lt)
  effects_counted (r ∷ rs) p u e lt =
      let (e', lt') = effect_counted r p u e lt in
      effects_counted rs (effect r (p, u)).0 (effect r (p, u)).1 e' lt'

  -- Whatever the disk answers, every sequence of reads, writes and flushes ends, after at most 5000263
  -- accesses to the ports for each.
  pub perform_all-few :
      (rs : List Request) (s : Ata)
      → length (perform_all rs s).1.trace ≤ length s.trace + length rs * 5000263
  perform_all-few rs s = (Does-perform_all rs).few s

  -- Whatever the disk answers, over any sequence of reads, writes and flushes that all succeed
  -- `pending_writes` stays the number of write commands behind the last flush command, and below 128.
  pub perform_all-IsCounted :
      (rs : List Request) (s t : Ata) → IsCounted s → perform_all rs s ≡ (some tt, t) → IsCounted t
  perform_all-IsCounted rs s t (e, lt) run =
      let (e', lt') = effects_counted rs s.pending_writes (unflushed s.trace) e lt in
      let c : counts t ≡ effects rs (counts s) =
        ap (λ r. counts r.1) (sym run) ∙ (Does-perform_all rs).counted s tt (ap (λ r. r.0) run) in
      (
        ap (λ x. x.0) c ∙ e' ∙ sym (ap (λ x. x.1) c),
        let p = ap (λ x. x.0) c in omega (arith, p, lt'),
      )
