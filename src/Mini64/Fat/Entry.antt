-- ===== src/Mini64/Fat/Entry.antt =====
-- The entry of a file in the directory of mini64/kernel.c: what `put_entry` of Fat/Store writes.
use os.Prelude.{
  ℕ, zero, suc, ◌+◌, ◌*◌, ◌/◌, ◌%◌, ◌^◌, ◌≤◌, ◌<◌, ◌≡◌, ◌⊎◌, refl, ◌∙◌, List, [], ◌∷◌, Option, none,
  some, true, false, ◌-◌, ◌||◌, ◌&&◌, ltb, leb, length, length-append, length-replicate, replicate,
  get_or, if◌then◌else◌, ◌==◌, arith, inl, inr, Bool-cases,
}
use os.Prelude.Array.{Array, put}
use os.Mini64.Disk.{IsBytes}
use os.Mini64.Fat.{r16, r32, zero_from}
use os.Mini64.Fat.Bytes.{are_bytes, put-IsBytes, w16-IsBytes, w32-IsBytes, put_text-IsBytes}
use os.Mini64.Fat.Format.{put_text}
use os.Mini64.Fat.Entries.{
  padded, extension, name_part, behind_dot, extension_part, is_used, name83, free_slot,
}
use os.Mini64.Fat.Store.{put_entry}

length-padded : (n : ℕ) (cs : List ℕ) → length cs ≤ n → length (padded n cs) ≡ n
length-padded n cs le =
    length-append cs (replicate (n - length cs) 32)
    ∙ (let h = length-replicate {A = ℕ} (n - length cs) 32 in omega (arith, h, le))

length-name_part : (k : ℕ) (n : List ℕ) → length (name_part k n).0 ≤ k
unfolding name_part
length-name_part zero n = omega arith
length-name_part (suc k) [] = omega arith
length-name_part (suc k) (c ∷ n) =
    let rest = length-name_part k n in
    elim (Bool-cases ((c == 0) || (c == 46) || (c == 47))) [
      | inl e ↦ rw e (omega arith)
      | inr e ↦ rw e (omega (arith, rest))
    ]

length-extension_part : (k : ℕ) (n : List ℕ) → length (extension_part k n) ≤ k
unfolding extension_part
length-extension_part zero n = omega arith
length-extension_part (suc k) [] = omega arith
length-extension_part (suc k) (c ∷ n) =
    let rest = length-extension_part k n in
    elim (Bool-cases (c == 0)) [ inl e ↦ rw e (omega arith) | inr e ↦ rw e (omega (arith, rest)) ]

length-extension : (o : Option (List ℕ)) → length (extension o) ≤ 3
length-extension none = omega arith
length-extension (some n) = length-extension_part 3 n

length-name83 : (name : List ℕ) → length (name83 name) ≡ 11
unfolding name83
length-name83 name =
    let parts = name_part 8 name in
    let ext = extension (behind_dot parts.1) in
    let first = length-padded 8 parts.0 (length-name_part 8 name) in
    let second = length-padded 3 ext (length-extension (behind_dot parts.1)) in
    let both = length-append (padded 8 parts.0) (padded 3 ext) in omega (arith, both, first, second)

put_text_in :
    (o : ℕ) (cs : List ℕ) (b : Array) (k : ℕ)
    → put_text o cs b k ≡ (if leb o k && ltb k (o + length cs) then get_or cs (k - o) 0 else b k)
put_text_in o [] b k = ground arith
put_text_in o (c ∷ cs) b k = put_text_in (o + 1) cs (put b o c) k ∙ (elim (Bool-cases (k == o)) [
  | inl e ↦
      let here : k ≡ o = ground (arith, e) in
      let at : k - o ≡ 0 = omega (arith, here) in
      let t1 : (leb (o + 1) k && ltb k (o + 1 + length cs)) ≡ false = ground (arith, here) in
      let t2 : (leb o k && ltb k (o + suc (length cs))) ≡ true = ground (arith, here) in
      rw (t1, t2, e, at) refl
  | inr e ↦ elim (Bool-cases (ltb o k)) [
    | inl lt ↦
        let at : k - o ≡ suc (k - (o + 1)) = ground (arith, lt) in
        let same : (leb (o + 1) k && ltb k (o + 1 + length cs))
            ≡ (leb o k && ltb k (o + suc (length cs))) =
          ground (arith, lt) in
        rw (same, at, e) refl
    | inr ge ↦
        let t1 : (leb (o + 1) k && ltb k (o + 1 + length cs)) ≡ false = ground (arith, ge) in
        let t2 : (leb o k && ltb k (o + suc (length cs))) ≡ false = ground (arith, ge, e) in
        rw (t1, t2, e) refl
  ]
])

-- The directory `new` is `old` with the entry of a file in a slot: the 11 characters of its name, the
-- attribute of a file, the size in bytes 28 to 31, and the two halves of the first cluster.
pub record HasFile (slot : ℕ) (name : List ℕ) (size first : ℕ) (old new : Array) : Type 0 where
  pub named : (j : ℕ) → j < 11 → new (slot * 32 + j) ≡ get_or (name83 name) j 0
  pub attribute : new (slot * 32 + 11) ≡ 0x20
  pub sized : r32 new (slot * 32 + 28) ≡ size
  pub starts : r16 new (slot * 32 + 26) + r16 new (slot * 32 + 20) * 2 ^ 16 ≡ first
  pub others : (i : ℕ) → i < 512 → (i < slot * 32) ⊎ (slot * 32 + 32 ≤ i) → new i ≡ old i

pub free_slot_below :
    (n i : ℕ) (b : Array) (slot : ℕ) → i + n ≤ 16 → free_slot n i b ≡ some slot → slot < 16
unfolding free_slot
free_slot_below zero i b slot le e = absurd cc
free_slot_below (suc n) i b slot le e = elim (Bool-cases (is_used b i)) [
  | inl u ↦ free_slot_below n (i + 1) b slot (omega (arith, le)) (ground (arith, e, u))
  | inr u ↦ let here : i ≡ slot = ground (arith, e, u) in omega (arith, here, le)
]

pub put_entry-HasFile :
    (slot : ℕ) (name : List ℕ) (size first : ℕ) (b old new : Array)
    → slot < 16
    → size < 2 ^ 32
    → first < 2 ^ 32
    → ((i : ℕ) → i < 512 → b i ≡ old i)
    → ((i : ℕ) → i < 512 → new i ≡ put_entry slot name size first b i)
    → HasFile slot name size first old new
put_entry-HasFile slot name size first b old new low words small same e =
    let o = slot * 32 in
    let len = length-name83 name in
    let text = put_text_in (slot * 32) (name83 name) (zero_from (slot * 32) 32 b) in
    record {
      named = λ j lt.
          let at : slot * 32 + j - slot * 32 ≡ j = omega arith in
          let here : (leb (slot * 32) (slot * 32 + j)
                && ltb (slot * 32 + j) (slot * 32 + length (name83 name)))
              ≡ true =
            ground (arith, lt, len) in
          let t : put_text (slot * 32) (name83 name) (zero_from (slot * 32) 32 b) (slot * 32 + j)
              ≡ get_or (name83 name) j 0 =
            text (slot * 32 + j) ∙ rw (here, at) refl in
          e (slot * 32 + j) (omega (arith, lt, low)) ∙ ground (arith, t, lt);
      attribute = e (slot * 32 + 11) (omega (arith, low)) ∙ ground arith;
      sized =
          let e0 : new (slot * 32 + 28) ≡ size % 256 =
            e (slot * 32 + 28) (omega (arith, low)) ∙ ground arith in
          let e1 : new (slot * 32 + 28 + 1) ≡ size / 2 ^ 8 % 256 =
            e (slot * 32 + 28 + 1) (omega (arith, low)) ∙ ground arith in
          let e2 : new (slot * 32 + 28 + 2) ≡ size / 2 ^ 16 % 256 =
            e (slot * 32 + 28 + 2) (omega (arith, low)) ∙ ground arith in
          let e3 : new (slot * 32 + 28 + 2 + 1) ≡ size / 2 ^ 16 / 2 ^ 8 % 256 =
            e (slot * 32 + 28 + 2 + 1) (omega (arith, low)) ∙ ground arith in
          rw (e0, e1, e2, e3) (omega (arith, words));
      starts =
          let e0 : new (slot * 32 + 26) ≡ first % 256 =
            e (slot * 32 + 26) (omega (arith, low)) ∙ ground arith in
          let e1 : new (slot * 32 + 26 + 1) ≡ first / 2 ^ 8 % 256 =
            e (slot * 32 + 26 + 1) (omega (arith, low)) ∙ ground arith in
          let e2 : new (slot * 32 + 20) ≡ first / 2 ^ 16 % 256 =
            e (slot * 32 + 20) (omega (arith, low)) ∙ ground arith in
          let e3 : new (slot * 32 + 20 + 1) ≡ first / 2 ^ 16 / 2 ^ 8 % 256 =
            e (slot * 32 + 20 + 1) (omega (arith, low)) ∙ ground arith in
          rw (e0, e1, e2, e3) (omega (arith, small));
      others = λ i lt out.
          let away : (leb (slot * 32) i && ltb i (slot * 32 + length (name83 name))) ≡ false =
            ground (arith, out, len) in
          let t : put_text (slot * 32) (name83 name) (zero_from (slot * 32) 32 b) i ≡ b i =
            text i ∙ rw away (ground (arith, out)) in
          e i lt ∙ ground (arith, t, out) ∙ same i lt;
    }

pub entry-IsBytes :
    (slot : ℕ) (name : List ℕ) (size first : ℕ) (b : Array)
    → IsBytes b
    → are_bytes (name83 name) ≡ true
    → IsBytes (put_entry slot name size first b)
entry-IsBytes slot name size first b bytes chars =
    let cleared : IsBytes (zero_from (slot * 32) 32 b) =
      λ i lt. let h = bytes i lt in ground (arith, h) in
    let named = put_text-IsBytes (slot * 32) (name83 name) _ cleared chars in
    let marked = put-IsBytes _ (slot * 32 + 11) 0x20 named (omega arith) in
    w16-IsBytes _ (slot * 32 + 26) first
      (w16-IsBytes _ (slot * 32 + 20) (first / 2 ^ 16) (w32-IsBytes _ (slot * 32 + 28) size marked))
