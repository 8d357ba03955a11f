-- ===== src/Mini64/Recover.antt =====
-- `do_recover` of mini64/kernel.c.
use os.Prelude.{
  ℕ, zero, suc, ◌+◌, ◌-◌, ◌*◌, ◌/◌, ◌%◌, ◌^◌, List, ◌++◌, Option, none, some, if◌then◌else◌, ltb,
  ◌==◌, replicate,
}
use os.Prelude.Array.{Array}
use os.Prelude.CString.{codes}
use os.Mini64.Print.{pnum}
use os.Mini64.Disk.{
  Drive, Step, pure, fail, attempt, statics, print, ◌>>=◌, ◌>>◌, disk_write, disk_flush,
}
use os.Mini64.Fat.Format.{fat_init, fat_format}
use os.Mini64.Fat.Entries.{find_entry}
use os.Mini64.Fat.Store.{disk_store_large}

-- A module that the boot loader passed: its bytes, none without it, and its size.
pub record Payload : Type 0 where
  pub bytes : Option Array
  pub size : ℕ

module _ (d : Drive) where
  -- `if (!call) { puts(message); return 0; }`
  abbrev pub or_report : {A : Type 0} → Step d.State A → List ℕ → Step d.State A
  or_report m message = do
    r ← attempt m
    elim r [ none ↦ (do print message; fail) | some a ↦ pure a ]

  abbrev pub mount : Step d.State (Unit {0})
  mount = do
    mounted ← attempt (fat_init d)
    elim mounted [
      | some x ↦ print (codes "  Existing FAT32 partition mounted.\n")
      | none ↦ do
        or_report (fat_format d) (codes "  Failed to format partition.\n")
        print (codes "  Partition formatted.\n")
    ]

  -- A file with its messages.
  unfoldable pub store_file : List ℕ → Array → ℕ → Step d.State (Unit {0})
  store_file name bytes size = do
    print (codes "  Writing " ++ name ++ codes "... ")
    or_report (disk_store_large d name bytes size) (codes "FAILED.\n")
    print (pnum size ++ codes " bytes written.\n")

  -- `if (data && size)`
  abbrev pub store_payload : List ℕ → Payload → Step d.State (Unit {0})
  store_payload name p = elim p.bytes [
    | none ↦ pure tt
    | some bytes ↦ if p.size == 0 then pure tt else store_file name bytes p.size
  ]

  -- The sectors of the boot loader from `i` on, with the number left.
  unfoldable write_loader : ℕ → Array → ℕ → ℕ → ℕ → Step d.State ℕ
  write_loader zero bytes sectors i pbar = pure pbar
  write_loader (suc n) bytes sectors i pbar = do
    let want = (i + 1) * 40 % 2 ^ 32 / sectors
    or_report (disk_write d i (λ k. bytes (i * 512 % 2 ^ 32 + k))) (codes "FAILED.\n")
    print (replicate (want - pbar) 35)
    write_loader n bytes sectors (i + 1) (if ltb pbar want then want else pbar)

  unfoldable store_loader : Payload → Step d.State (Unit {0})
  store_loader p =
      let sectors = (p.size + 511) % 2 ^ 32 / 512 in
      let write : Array → Step d.State (Unit {0}) = λ bytes. (do
        print (codes "  Writing bootloader... [")
        pbar ← write_loader sectors bytes sectors 0 0
        print (replicate (40 - pbar) 35 ++ codes "]100%\n")) in
      elim p.bytes [ none ↦ pure tt | some bytes ↦ if p.size == 0 then pure tt else write bytes ]

  -- Both files are there, or a message and a failure.
  abbrev pub expect_files : List ℕ → List ℕ → List ℕ → Step d.State (Unit {0})
  expect_files a b message = do
    x ← or_report (find_entry d a) message
    y ← or_report (find_entry d b) message
    pure tt

  -- The kernel's bytes are there; `initrd` is stored whatever its size.
  unfoldable do_recover :
      Payload → Payload → Payload → Payload → Array → ℕ → Step d.State (Unit {0})
  do_recover initrd loader config manager kernel ksize = do
    v ← statics
    mounted ← if v.fat_mounted then pure tt else mount
    store_file (codes "KERNEL.BIN") kernel ksize
    elim initrd.bytes [
      | none ↦ pure tt
      | some bytes ↦ store_file (codes "INITRD.BIN") bytes initrd.size
    ]
    store_payload (codes "MINI64.BIN") manager
    store_payload (codes "GRUB.CFG") config
    store_loader loader
    or_report (disk_flush d) (codes "  Final disk synchronization FAILED.\n")
    expect_files (codes "KERNEL.BIN") (codes "INITRD.BIN")
        (codes "  Installation verification FAILED.\n")
    elim loader.bytes [
      | none ↦ pure tt
      | some b ↦
          expect_files (codes "MINI64.BIN") (codes "GRUB.CFG")
            (codes "  Boot file verification FAILED.\n")
    ]
    print (codes "  OS64 recovery complete. Type 'boot' to restart.\n")
