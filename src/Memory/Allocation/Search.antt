-- ===== src/Memory/Allocation/Search.antt =====
-- The search of `kmalloc` of kernel/mm/memory.c finds the first fit.
use os.Prelude.{
  ℕ, zero, suc, ◌+◌, ◌≤◌, ◌<◌, ◌≡◌, refl, ap, List, [], ◌∷◌, ◌++◌, Option, none, some, true, ◌&&◌,
  leb, length, arith, inl, inr, Bool-cases, Option-cases,
}
use mathlib.Core.Path.{subst}
use os.Memory.Heap.{Cells, header_size}
use os.Memory.Alloc.{find_fit}
use os.Memory.Layout.{Segment, span, Linked}
use os.Memory.Allocation.{Cut, behind_of, first_fit}

-- What the cut of the first fit is a cut of, and that it fits.
pub record IsFit (wanted : ℕ) (ss : List Segment) (k : Cut) : Type 0 where
  pub whole : ss ≡ k.before ++ (k.block ∷ k.behind)
  pub is_free : k.block.free ≡ true
  pub fits : wanted ≤ k.block.size

IsFit-behind :
    (wanted : ℕ) (s : Segment) (ss : List Segment) (j : Cut)
    → IsFit wanted ss j
    → IsFit wanted (s ∷ ss) (record { before = s ∷ j.before; block = j.block; behind = j.behind })
IsFit-behind wanted s ss j h = record {
  whole = ap (λ t. s ∷ t) h.whole;
  is_free = h.is_free;
  fits = h.fits;
}

pub first_fit-IsFit :
    (wanted : ℕ) (ss : List Segment) {k : Cut} → first_fit wanted ss ≡ some k → IsFit wanted ss k
first_fit-IsFit wanted [] e = cc
first_fit-IsFit wanted (s ∷ ss) {k} e = elim (Bool-cases (s.free && leb wanted s.size)) [
  | inl hit ↦
      let r : Cut = record { before = []; block = s; behind = ss } in
      let p : r ≡ k = cc (rw hit at e) in
      subst (IsFit wanted (s ∷ ss)) p
        (record { whole = refl; is_free = ground arith; fits = ground arith })
  | inr miss ↦ elim (Option-cases (first_fit wanted ss)) [
    | inl n ↦ cc (rw (miss, n) at e)
    | inr j ↦
        let r : Cut = record { before = s ∷ j.0.before; block = j.0.block; behind = j.0.behind } in
        let p : r ≡ k = cc (rw (miss, j.1) at e) in
        subst (IsFit wanted (s ∷ ss)) p
          (IsFit-behind wanted s ss j.0 (first_fit-IsFit wanted ss j.1))
  ]
]

abbrev pub address_of : ℕ → Option Cut → Option ℕ
address_of base none = none
address_of base (some k) = some (base + span k.before)

pub address_of-behind_of :
    (base : ℕ) (s : Segment) (o : Option Cut)
    → address_of (base + header_size + s.size) o ≡ address_of base (behind_of s o)
address_of-behind_of base s none = refl
address_of-behind_of base s (some k) = ap some (omega arith)

-- With fuel for every block the loop ends at the first fit, or at the end of the list.
pub find_fit_lem :
    (f : ℕ) (c : Cells) (p cur : Option ℕ) (base wanted : ℕ) (ss : List Segment) (q : Option ℕ)
    → Linked c p cur base ss q none
    → length ss < f
    → find_fit f c cur wanted ≡ address_of base (first_fit wanted ss)
unfolding find_fit
find_fit_lem zero c p cur base wanted ss q h lt = absurd (omega arith)
find_fit_lem (suc f) c p cur base wanted [] q h lt = rw h.1
find_fit_lem (suc f) c p cur base wanted (s ∷ ss) q h lt =
    let ih =
      find_fit_lem f c (some base) (c base).next (base + header_size + s.size) wanted ss q h.2
        (omega arith) in
    rw (h.0, find_fit, h.1.magic, h.1.free, h.1.size)
      (ground (arith, ih, address_of-behind_of base s (first_fit wanted ss)))
