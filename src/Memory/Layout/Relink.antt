-- ===== src/Memory/Layout/Relink.antt =====
-- How the block list of kernel/mm/memory.c carries a change of headers.
use os.Prelude.{ℕ, ◌+◌, ◌≤◌, ◌≡◌, ◌≢◌, refl, List, [], ◌∷◌, ◌++◌, Option, none, some, arith}
use mathlib.Core.Path.{subst}
use os.Memory.Heap.{Block, Cells, header_size}
use os.Memory.Layout.{Segment, span, IsHeader, Linked, Linked-frame, Linked-split, Linked-append}

-- `b` with another predecessor.
abbrev pub behind : Option ℕ → Block → Block
behind p b = record b { previous = p }

-- A pointer leads to one place.
pub one_target : {cur : Option ℕ} {a k : ℕ} → cur ≡ some a → cur ≡ some k → k ≡ a
one_target p q = cc

-- The end of a list gets a new predecessor: its first block is written, the others stay.
pub Linked-relink :
    (c c' : Cells) (p p' cur : Option ℕ) (base : ℕ) (ss : List Segment) (q : Option ℕ)
    → ((k : ℕ) → base ≤ k → cur ≢ some k → c' k ≡ c k)
    → ((k : ℕ) → cur ≡ some k → c' k ≡ behind p' (c k))
    → Linked c p cur base ss q none
    → (q' : Option ℕ) × Linked c' p' cur base ss q' none
Linked-relink c c' p p' cur base [] q same head h = (p', (refl, h.1))
Linked-relink c c' p p' cur base (s ∷ ss) q same head h =
    let here : c' base ≡ behind p' (c base) = head base h.0 in
    let rest =
      Linked-frame c c' (some base) (c base).next (base + header_size + s.size) ss q none
        (λ k lo hi. same k (omega arith) (λ e. omega (arith, one_target h.0 e))) h.2 in
    (
      q,
      (
        h.0,
        record {
          magic = rw here h.1.magic;
          size = rw here h.1.size;
          free = rw here h.1.free;
          previous = rw here;
        },
        rw here rest,
      ),
    )

-- Where the list goes on, if it does: right behind the part.
pub Linked-next :
    (c : Cells) (p cur : Option ℕ) (base : ℕ) (ss : List Segment) (q : Option ℕ)
    → Linked c p cur base ss q none
    → (k : ℕ) → cur ≡ some k
    → k ≡ base
Linked-next c p cur base [] q h k e = cc
Linked-next c p cur base (s ∷ ss) q h k e = one_target h.0 e

-- The pointers at a block in the middle of the list, which lies behind the blocks `pre`.
pub record At (c : Cells) (first : Option ℕ) (pre : List Segment) (s : Segment)
    (post : List Segment) (last : Option ℕ) : Type 0 where
  pub before : Option ℕ
  pub front : Linked c none first 0 pre before (some (span pre))
  pub header : IsHeader (c (span pre)) before s
  pub back :
      Linked c
        (some (span pre))
        (c (span pre)).next
        (span pre + header_size + s.size)
        post
        last
        none

pub Linked-At :
    (c : Cells) (first : Option ℕ) (pre : List Segment) (s : Segment) (post : List Segment)
    (last : Option ℕ)
    → Linked c none first 0 (pre ++ (s ∷ post)) last none
    → At c first pre s post last
Linked-At c first pre s post last h =
    let (m, n, front, rest) = Linked-split c none first 0 pre (s ∷ post) last none h in
    let back = subst (λ b. Linked c m n b (s ∷ post) last none) {y = span pre} (omega arith) rest in
    record {
      before = m;
      front = subst (λ t. Linked c none first 0 pre m t) back.0 front;
      header = back.1;
      back = back.2;
    }

pub At-Linked :
    (c : Cells) (first : Option ℕ) (pre : List Segment) (s : Segment) (post : List Segment)
    (last : Option ℕ)
    → At c first pre s post last
    → Linked c none first 0 (pre ++ (s ∷ post)) last none
At-Linked c first pre s post last h =
    Linked-append c none first 0 pre (s ∷ post) h.before (some (span pre)) last none h.front (
      subst (λ b. Linked c h.before (some (span pre)) b (s ∷ post) last none) {x = span pre}
        (omega arith) (refl, h.header, h.back))
