-- ===== src/Mini64/Disk/Calls.antt =====
-- Calls of mini64/kernel.c that return something: what holds of it and of the state behind them.
use os.Prelude.{
  ℕ, ◌<◌, ◌≡◌, refl, ap, ◌∙◌, ◌++◌, List, Option, none, some, Bool, true, false, if◌then◌else◌,
  ◌==◌,
}
use os.Prelude.Array.{Array}
use os.Mini64.Disk.{
  Drive, IsBytes, most_sectors, Reliable, Volume, Mini, Step, pure, attempt, statics, assign,
  require, print, ◌>>=◌, after, disk_read, disk_write, disk_flush, disk_identify,
}

-- The call returns a value for which `Q` holds.
pub record Returns {S A : Type 0} (m : Step S A) (s : Mini S) (Q : A → Mini S → Type 0)
    : Type 0 where
  pub result : A
  pub state : Mini S
  pub runs : m s ≡ (some result, state)
  pub holds : Q result state

pub Returns-bind :
    {S A B : Type 0} {m : Step S A} {f : A → Step S B} {s : Mini S} {Q : B → Mini S → Type 0}
    → Returns m s (λ a t. Returns (f a) t Q)
    → Returns (m >>= f) s Q
unfolding ◌>>=◌
Returns-bind {f = f} r = record {
  result = r.holds.result;
  state = r.holds.state;
  runs = ap (λ p. after p f) r.runs ∙ r.holds.runs;
  holds = r.holds.holds;
}

pub Returns-weaken :
    {S A : Type 0} {m : Step S A} {s : Mini S} {P Q : A → Mini S → Type 0}
    → Returns m s P
    → ((a : A) (t : Mini S) → P a t → Q a t)
    → Returns m s Q
Returns-weaken r h = record {
  result = r.result;
  state = r.state;
  runs = r.runs;
  holds = h r.result r.state r.holds;
}

-- A call, and what follows it.
pub Returns-then :
    {S A B : Type 0} {m : Step S A} {f : A → Step S B} {s : Mini S} {P : A → Mini S → Type 0}
    {Q : B → Mini S → Type 0}
    → Returns m s P
    → ((a : A) (t : Mini S) → P a t → Returns (f a) t Q)
    → Returns (m >>= f) s Q
Returns-then r h = Returns-bind (Returns-weaken r h)

-- A call that returns at once.
pub Returns-now :
    {S A : Type 0} {m : Step S A} {s : Mini S} {Q : A → Mini S → Type 0} (a : A) (t : Mini S)
    → m s ≡ (some a, t)
    → Q a t
    → Returns m s Q
Returns-now a t e q = record { result = a; state = t; runs = e; holds = q }

pub Returns-attempt :
    {S A : Type 0} {m : Step S A} {s : Mini S} {P : A → Mini S → Type 0}
    → Returns m s P
    → Returns (attempt m) s (λ o t. (a : A) × o ≡ some a × P a t)
Returns-attempt r =
    Returns-now (some r.result) r.state (ap (λ p. (some p.0, p.1)) r.runs) (r.result, refl, r.holds)

-- The calls that change no drive.
module _ {S B : Type 0} {s : Mini S} {Q : B → Mini S → Type 0} where
  pub Returns-statics :
      (f : Volume → Step S B) → Returns (f s.volume) s Q → Returns (statics >>= f) s Q
  Returns-statics f r = Returns-bind (Returns-now s.volume s refl r)

  pub Returns-assign :
      (g : Volume → Volume) (f : Unit {0} → Step S B)
      → Returns (f tt) (record s { volume = g s.volume }) Q
      → Returns (assign g >>= f) s Q
  Returns-assign g f r = Returns-bind (Returns-now tt (record s { volume = g s.volume }) refl r)

  pub Returns-print :
      (cs : List ℕ) (f : Unit {0} → Step S B)
      → Returns (f tt) (record s { out = s.out ++ cs }) Q
      → Returns (print cs >>= f) s Q
  Returns-print cs f r = Returns-bind (Returns-now tt (record s { out = s.out ++ cs }) refl r)

  pub Returns-pure :
      {A : Type 0} (f : A → Step S B) (a : A) → Returns (f a) s Q → Returns (pure a >>= f) s Q
  Returns-pure f a r = Returns-bind (Returns-now a s refl r)

  pub Returns-require :
      {b : Bool} (f : Unit {0} → Step S B)
      → b ≡ true
      → Returns (f tt) s Q
      → Returns (require b >>= f) s Q
  Returns-require f e r = Returns-bind (Returns-now tt s (rw e) r)

module _ {d : Drive} (r : Reliable d) where
  abbrev pub content_of : Mini d.State → ℕ → Array
  content_of s = r.content s.drive

  -- Two states with the same volume and the same sectors.
  abbrev pub SameDisk : Mini d.State → Mini d.State → Type 0
  SameDisk s t = t.volume ≡ s.volume × ((k i : ℕ) → i < 512 → content_of t k i ≡ content_of s k i)

  pub SameDisk-trans : (s t u : Mini d.State) → SameDisk s t → SameDisk t u → SameDisk s u
  SameDisk-trans s t u (v, c) (v', c') = (v' ∙ v, λ k i lt. c' k i lt ∙ c k i lt)

  pub disk_read-Returns :
      (lba : ℕ) (s : Mini d.State)
      → lba < most_sectors
      → Returns (disk_read d lba) s (λ b t. b ≡ content_of s lba × SameDisk s t)
  disk_read-Returns lba s inside =
      Returns-now (r.content s.drive lba) (record s { drive = r.state_read lba s.drive })
        (rw (r.read_eq lba s.drive inside)) (refl, (refl, r.read_keeps lba s.drive))

  pub disk_write-Returns :
      (lba : ℕ) (b : Array) (s : Mini d.State)
      → lba < most_sectors
      → IsBytes b
      → Returns (disk_write d lba b) s (λ x t.
        t.volume ≡ s.volume
        × ((k i : ℕ) → i < 512 → content_of t k i ≡ (if k == lba then b i else content_of s k i)))
  disk_write-Returns lba b s inside bytes =
      Returns-now tt (record s { drive = r.state_write lba b s.drive })
        (rw (r.write_eq lba b s.drive inside))
        (refl, λ k i lt. r.write_sets lba b s.drive k i inside bytes lt)

  pub disk_flush-Returns : (s : Mini d.State) → Returns (disk_flush d) s (λ x t. SameDisk s t)
  disk_flush-Returns s =
      Returns-now tt (record s { drive = r.state_flush s.drive }) (rw (r.flush_eq s.drive))
        (refl, r.flush_keeps s.drive)

module _ {d : Drive} (r : Reliable d) where
  pub disk_identify-Returns :
      (s : Mini d.State)
      → Returns (disk_identify d) s (λ x t. x ≡ (r.model, r.capacity) × SameDisk r s t)
  disk_identify-Returns s =
      Returns-now (r.model, r.capacity) (record s { drive = r.state_identify s.drive })
        (rw (r.identify_eq s.drive)) (refl, (refl, r.identify_keeps s.drive))

-- The call ends with a result, none when it returns 0.
pub record Ends {S A : Type 0} (m : Step S A) (s : Mini S) (Q : Option A → Mini S → Type 0)
    : Type 0 where
  pub result : Option A
  pub state : Mini S
  pub runs : m s ≡ (result, state)
  pub holds : Q result state

pub Ends-then :
    {S A B : Type 0} {m : Step S A} {f : A → Step S B} {s : Mini S} {P : A → Mini S → Type 0}
    {Q : Option B → Mini S → Type 0}
    → Returns m s P
    → ((a : A) (t : Mini S) → P a t → Ends (f a) t Q)
    → Ends (m >>= f) s Q
unfolding ◌>>=◌
Ends-then {f = f} r h =
    let e = h r.result r.state r.holds in
    record {
      result = e.result;
      state = e.state;
      runs = ap (λ p. after p f) r.runs ∙ e.runs;
      holds = e.holds;
    }

pub Ends-bind :
    {S A B : Type 0} {m : Step S A} {f : A → Step S B} {s : Mini S} {Q : Option B → Mini S → Type 0}
    → Returns m s (λ a t. Ends (f a) t Q)
    → Ends (m >>= f) s Q
Ends-bind r = Ends-then r (λ a t e. e)

pub Ends-now :
    {S A : Type 0} {m : Step S A} {s : Mini S} {Q : Option A → Mini S → Type 0} (o : Option A)
    (t : Mini S)
    → m s ≡ (o, t)
    → Q o t
    → Ends m s Q
Ends-now o t e q = record { result = o; state = t; runs = e; holds = q }

pub Ends-weaken :
    {S A : Type 0} {m : Step S A} {s : Mini S} {P Q : Option A → Mini S → Type 0}
    → Ends m s P
    → ((o : Option A) (t : Mini S) → P o t → Q o t)
    → Ends m s Q
Ends-weaken e h = Ends-now e.result e.state e.runs (h e.result e.state e.holds)

pub Ends-returns :
    {S A : Type 0} {m : Step S A} {s : Mini S} {P : A → Mini S → Type 0}
    {Q : Option A → Mini S → Type 0}
    → Returns m s P
    → ((a : A) (t : Mini S) → P a t → Q (some a) t)
    → Ends m s Q
Ends-returns r h = Ends-now (some r.result) r.state r.runs (h r.result r.state r.holds)

module _ {S B : Type 0} {s : Mini S} {Q : Option B → Mini S → Type 0} where
  pub Ends-statics : (f : Volume → Step S B) → Ends (f s.volume) s Q → Ends (statics >>= f) s Q
  Ends-statics f e = Ends-bind (Returns-now s.volume s refl e)

  pub Ends-assign :
      (g : Volume → Volume) (f : Unit {0} → Step S B)
      → Ends (f tt) (record s { volume = g s.volume }) Q
      → Ends (assign g >>= f) s Q
  Ends-assign g f e = Ends-bind (Returns-now tt (record s { volume = g s.volume }) refl e)

  pub Ends-print :
      (cs : List ℕ) (f : Unit {0} → Step S B)
      → Ends (f tt) (record s { out = s.out ++ cs }) Q
      → Ends (print cs >>= f) s Q
  Ends-print cs f e = Ends-bind (Returns-now tt (record s { out = s.out ++ cs }) refl e)

  pub Ends-refused :
      (f : Unit {0} → Step S B) {b : Bool} → b ≡ false → Q none s → Ends (require b >>= f) s Q
  unfolding ◌>>=◌
  Ends-refused f e q = Ends-now none s (rw e refl) q

  pub Ends-pure : {A : Type 0} (f : A → Step S B) (a : A) → Ends (f a) s Q → Ends (pure a >>= f) s Q
  Ends-pure f a e = Ends-bind (Returns-now a s refl e)

  pub Ends-require :
      (f : Unit {0} → Step S B) {b : Bool} → b ≡ true → Ends (f tt) s Q → Ends (require b >>= f) s Q
  Ends-require f e r = Ends-bind (Returns-now tt s (rw e refl) r)

  -- A call that fails ends all.
  pub Ends-fails :
      {A : Type 0} {m : Step S A} (f : A → Step S B)
      → Ends m s (λ o t. o ≡ none × Q none t)
      → Ends (m >>= f) s Q
  unfolding ◌>>=◌
  Ends-fails f e =
      Ends-now none e.state (ap (λ p. after p f) e.runs ∙ ap (λ o. after (o, e.state) f) e.holds.0)
        e.holds.1

-- A test at the end of a function.
pub Returns-test :
    {S : Type 0} {s : Mini S} {Q : Unit {0} → Mini S → Type 0} (b : Bool)
    → b ≡ true
    → Q tt s
    → Returns (require b) s Q
Returns-test {s = s} b e q = Returns-now tt s (rw e refl) q

pub Ends-test :
    {S : Type 0} {s : Mini S} {Q : Option (Unit {0}) → Mini S → Type 0} (b : Bool)
    → b ≡ false
    → Q none s
    → Ends (require b) s Q
Ends-test {s = s} b e q = Ends-now none s (rw e refl) q

either_end :
    {S A B : Type 0} (o : Option A) (t : Mini S) (f : A → Step S B) (P : Option A → Mini S → Type 0)
    (Q : Option B → Mini S → Type 0)
    → P o t
    → ((u : Mini S) → P none u → Q none u)
    → ((a : A) (u : Mini S) → P (some a) u → Ends (f a) u Q)
    → (result : Option B) × (state : Mini S) × (after (o, t) f ≡ (result, state)) × Q result state
either_end none t f P Q p stop go = (none, t, refl, stop t p)
either_end (some a) t f P Q p stop go = let e = go a t p in (e.result, e.state, e.runs, e.holds)

-- A call that may fail, and what follows it.
pub Ends-either :
    {S A B : Type 0} {m : Step S A} {f : A → Step S B} {s : Mini S} {P : Option A → Mini S → Type 0}
    {Q : Option B → Mini S → Type 0}
    → Ends m s P
    → ((t : Mini S) → P none t → Q none t)
    → ((a : A) (t : Mini S) → P (some a) t → Ends (f a) t Q)
    → Ends (m >>= f) s Q
unfolding ◌>>=◌
Ends-either {f = f} {P = P} {Q = Q} e stop go =
    let (o, t, runs, holds) = either_end e.result e.state f P Q e.holds stop go in
    Ends-now o t (ap (λ p. after p f) e.runs ∙ runs) holds

-- A call whose failure the caller looks at always returns.
pub Returns-ended :
    {S A : Type 0} {m : Step S A} {s : Mini S} {P : Option A → Mini S → Type 0}
    → Ends m s P
    → Returns (attempt m) s P
Returns-ended e = Returns-now e.result e.state (ap (λ p. (some p.0, p.1)) e.runs) e.holds
