-- ===== src/Mini64/Disk.antt =====
-- What the file system of mini64/kernel.c uses: a drive of sectors as an interface, which `disk_read`,
-- `disk_write`, `disk_flush` and `disk_identify` fill, the static variables of the volume, and the calls.
pub mod Calls
use os.Prelude.{
  ℕ, zero, suc, ◌+◌, ◌^◌, ◌<◌, ◌≤◌, List, [], ◌∷◌, ◌++◌, Option, none, some, Bool, true, false, not,
  if◌then◌else◌, ◌≡◌, ◌==◌,
}
use os.Prelude.Array.{Array}

-- A read that fails gives none; a buffer has 512 bytes. The disk identifies itself by its model and its
-- number of sectors.
pub record Drive : Type 1 where
  pub State : Type 0
  pub read : ℕ → State → Option Array × State
  pub write : ℕ → Array → State → Bool × State
  pub flush : State → Bool × State
  pub identify : State → Option (List ℕ × ℕ) × State

-- A sector's bytes.
abbrev pub IsBytes : Array → Type 0
IsBytes b = (i : ℕ) → i < 512 → b i < 256

-- The drive has no more sectors than 28 bits can name.
abbrev pub most_sectors : ℕ
most_sectors = 2 ^ 28

-- A drive on which no call for one of its sectors fails and that keeps the bytes that are written.
-- `content` is what a read gives.
pub record Reliable (d : Drive) : Type 0 where
  pub content : d.State → ℕ → Array
  pub bytes : (s : d.State) (k : ℕ) → IsBytes (content s k)
  pub state_read : ℕ → d.State → d.State
  pub read_eq :
      (lba : ℕ) (s : d.State)
      → lba < most_sectors
      → d.read lba s ≡ (some (content s lba), state_read lba s)
  pub read_keeps :
      (lba : ℕ) (s : d.State) (k i : ℕ) → i < 512 → content (state_read lba s) k i ≡ content s k i
  pub state_write : ℕ → Array → d.State → d.State
  pub write_eq :
      (lba : ℕ) (b : Array) (s : d.State)
      → lba < most_sectors
      → d.write lba b s ≡ (true, state_write lba b s)
  pub write_sets :
      (lba : ℕ) (b : Array) (s : d.State) (k i : ℕ)
      → lba < most_sectors
      → IsBytes b
      → i < 512
      → content (state_write lba b s) k i ≡ (if k == lba then b i else content s k i)
  pub state_flush : d.State → d.State
  pub flush_eq : (s : d.State) → d.flush s ≡ (true, state_flush s)
  pub flush_keeps : (s : d.State) (k i : ℕ) → i < 512 → content (state_flush s) k i ≡ content s k i
  pub model : List ℕ
  pub capacity : ℕ
  pub capacity_small : capacity ≤ most_sectors
  pub state_identify : d.State → d.State
  pub identify_eq : (s : d.State) → d.identify s ≡ (some (model, capacity), state_identify s)
  pub identify_keeps :
      (s : d.State) (k i : ℕ) → i < 512 → content (state_identify s) k i ≡ content s k i

pub record Volume : Type 0 where
  pub vol_start : ℕ
  pub reserved : ℕ
  pub fat_sectors : ℕ
  pub data_start : ℕ
  pub root_cluster : ℕ
  pub next_free_cluster : ℕ
  pub sectors_per_cluster : ℕ
  pub fat_count : ℕ
  pub fat_mounted : Bool

-- The statics as the program starts.
abbrev pub unmounted : Volume
unmounted = record {
  vol_start = 0;
  reserved = 0;
  fat_sectors = 0;
  data_start = 0;
  root_cluster = 0;
  next_free_cluster = 3;
  sectors_per_cluster = 0;
  fat_count = 0;
  fat_mounted = false;
}

-- The volume, the drive, and the characters printed so far.
pub record Mini (S : Type 0) : Type 0 where
  pub volume : Volume
  pub drive : S
  pub out : List ℕ

-- A call: `return 0` is none.
abbrev pub Step : Type 0 → Type 0 → Type 0
Step S A = Mini S → Option A × Mini S

module _ {S : Type 0} where
  abbrev pub pure : {A : Type 0} → A → Step S A
  pure a s = (some a, s)

  abbrev pub fail : {A : Type 0} → Step S A
  fail s = (none, s)

  -- What follows a call, if that did not fail.
  abbrev pub after : {A B : Type 0} → Option A × Mini S → (A → Step S B) → Option B × Mini S
  after (none, s) f = (none, s)
  after (some a, s) f = f a s

  infixl 5 ◌>>=◌ ◌>>◌
  unfoldable pub ◌>>=◌ : {A B : Type 0} → Step S A → (A → Step S B) → Step S B
  (m >>= f) s = after (m s) f

  abbrev pub ◌>>◌ : {B : Type 0} → Step S (Unit {0}) → Step S B → Step S B
  m >> k = m >>= λ x. k

  -- A call whose failure the caller looks at.
  abbrev pub attempt : {A : Type 0} → Step S A → Step S (Option A)
  attempt m s = let (r, t) = m s in (some r, t)

  abbrev pub statics : Step S Volume
  statics s = (some s.volume, s)

  abbrev pub assign : (Volume → Volume) → Step S (Unit {0})
  assign f s = (some tt, record s { volume = f s.volume })

  -- `if (!test) return 0;`
  abbrev pub require : Bool → Step S (Unit {0})
  require b s = if b then (some tt, s) else (none, s)

  abbrev pub print : List ℕ → Step S (Unit {0})
  print cs s = (some tt, record s { out = s.out ++ cs })

module _ (d : Drive) where
  abbrev pub disk_read : ℕ → Step d.State Array
  disk_read lba s = let (r, t) = d.read lba s.drive in (r, record s { drive = t })

  abbrev pub disk_write : ℕ → Array → Step d.State (Unit {0})
  disk_write lba b s =
      let (ok, t) = d.write lba b s.drive in (if ok then some tt else none, record s { drive = t })

  abbrev pub disk_flush : Step d.State (Unit {0})
  disk_flush s =
      let (ok, t) = d.flush s.drive in (if ok then some tt else none, record s { drive = t })

  abbrev pub disk_identify : Step d.State (List ℕ × ℕ)
  disk_identify s = let (r, t) = d.identify s.drive in (r, record s { drive = t })
