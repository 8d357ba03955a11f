-- ===== src/Mini64/Modules.antt =====
-- The boot information in mini64/kernel.c: the modules that the boot loader passed, and the memory. `m` is
-- the memory, by address. A loop whose rounds do not suffice gives none: a tag moves the loops over the
-- tags by at least 8 bytes and an entry the inner loop by at least 24, unless a 32-bit sum wraps around,
-- and then the code does not end.
use os.Prelude.{
  ℕ, zero, suc, ◌+◌, ◌-◌, ◌/◌, ◌%◌, ◌^◌, List, [], ◌∷◌, Option, none, some, Bool, ◌&&◌,
  if◌then◌else◌, ltb, leb, ◌==◌, add32,
}
use os.Memory.Multiboot.{Bytes, read32, read64, step}

-- A module with its name, without the NUL.
pub record Module : Type 0 where
  pub start : ℕ
  pub end : ℕ
  pub name : List ℕ

-- `while (ni < slen && ni < 15 && str[ni])`, with the number left.
unfoldable pub name_from : ℕ → Bytes → ℕ → List ℕ
name_from zero m a = []
name_from (suc n) m a =
    let rest = name_from n m (a + 1) in if m a % 256 == 0 then [] else m a % 256 ∷ rest

-- The smaller of 15 and `(int)size - 16`, 0 where that is negative.
abbrev pub name_room : ℕ → ℕ
name_room size = if leb (2 ^ 31) size then 0 else if ltb (size - 16) 15 then size - 16 else 15

abbrev pub module_at : Bytes → ℕ → ℕ → Module
module_at m tag size = record {
  start = read32 m (tag + 8);
  end = read32 m (tag + 12);
  name = name_from (name_room size) m (tag + 16);
}

abbrev pub found_module : Bool → Module → Option (List Module) → Option (List Module)
found_module b x none = none
found_module b x (some xs) = some (if b then x ∷ xs else xs)

-- The loop over the tags from `off` on, with the room left for modules.
unfoldable modules_from : ℕ → Bytes → ℕ → ℕ → ℕ → ℕ → Option (List Module)
modules_from zero m base total off room = none
modules_from (suc f) m base total off room =
    let tag = add32 base off in
    let kind = read32 m tag in
    let size = read32 m (tag + 4) in
    let is_module = (kind == 3) && leb 16 size && ltb 0 room in
    let rest =
      modules_from f m base total (add32 off (step size)) (if is_module then room - 1 else room) in
    if ltb total (add32 off 8)
    then some []
    else if kind == 0
    then some []
    else if ltb size 8
    then some []
    else found_module is_module (module_at m tag size) rest

unfoldable parse_modules : Bytes → ℕ → ℕ → Option (List Module)
parse_modules m base max_mods =
    modules_from (read32 m base / 8 + 1) m base (read32 m base) 8 max_mods

-- The entries of the memory map at `off`, from `at` on: the sum of those that are usable.
unfoldable usable_from : ℕ → Bytes → ℕ → ℕ → ℕ → ℕ → ℕ → Option ℕ
usable_from zero m base stop entry_size at usable = none
usable_from (suc f) m base stop entry_size at usable =
    let entry = base + at in
    let sum =
      if read32 m (entry + 16) == 1 then (usable + read64 m (entry + 8)) % 2 ^ 64 else usable in
    let rest = usable_from f m base stop entry_size (add32 at entry_size) sum in
    if leb 24 entry_size && leb (add32 at entry_size) stop then rest else some usable

abbrev pub and_then : Option ℕ → (ℕ → Option ℕ) → Option ℕ
and_then none f = none
and_then (some n) f = f n

unfoldable kib_from : ℕ → Bytes → ℕ → ℕ → ℕ → ℕ → Option ℕ
kib_from zero m base total off usable = none
kib_from (suc f) m base total off usable =
    let tag = base + off in
    let size = read32 m (tag + 4) in
    let here =
      if (read32 m tag == 6) && leb 16 size
      then usable_from (size / 24 + 1) m base (add32 off size) (read32 m (tag + 8)) (add32 off 16)
          usable
      else some usable in
    let rest = and_then here (kib_from f m base total (add32 off (step size))) in
    if ltb total (add32 off 16) then some usable else if ltb size 8 then some usable else rest

-- `base` is 0 without boot information.
unfoldable memory_kib : Bytes → ℕ → Option ℕ
memory_kib m base =
    let sum = kib_from (read32 m base / 8 + 1) m base (read32 m base) 8 0 in
    if base == 0
    then some 0
    else and_then sum (λ n. some (if ltb (2 ^ 32 - 1) (n / 1024) then 2 ^ 32 - 1 else n / 1024))
