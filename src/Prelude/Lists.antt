-- ===== src/Prelude/Lists.antt =====
-- Lists measured and indexed by native numbers, under the library's names.
use Prim.Native.Nat.{ℕ, zero, suc, ◌+◌, ◌-◌, ◌≤◌, ◌<◌, min}
use mathlib.Core.Path.{◌≡◌, refl, sym, ap, ◌∙◌}
use mathlib.Core.Logic.{◌≢◌}
use mathlib.Core.List.{List, [], ◌∷◌, ◌++◌, map}
use mathlib.Core.Option.{Option, none, some}
use native.Mathlib.Omega.{arith}
use native.Mathlib.Decide.{dec_lt}

module _ {ℓ} {A : Type ℓ} where
  abbrev pub length : List A → ℕ
  length [] = 0
  length (x ∷ xs) = suc (length xs)

  abbrev pub get_elem? : List A → ℕ → Option A
  get_elem? [] i = none
  get_elem? (x ∷ xs) zero = some x
  get_elem? (x ∷ xs) (suc i) = get_elem? xs i

  -- A write out of bounds changes nothing.
  abbrev pub set : List A → ℕ → A → List A
  set [] i v = []
  set (x ∷ xs) zero v = v ∷ xs
  set (x ∷ xs) (suc i) v = x ∷ set xs i v

  pub length-append : (xs ys : List A) → length (xs ++ ys) ≡ length xs + length ys
  length-append [] ys = omega arith
  length-append (x ∷ xs) ys = omega (arith, length-append xs ys)

module _ {ℓ} {A : Type ℓ} where
  pub length-set : (xs : List A) (i : ℕ) (v : A) → length (set xs i v) ≡ length xs
  length-set [] i v = refl
  length-set (x ∷ xs) zero v = refl
  length-set (x ∷ xs) (suc i) v = ap suc (length-set xs i v)

  pub get_elem?-set_self :
      (xs : List A) (i : ℕ) (v : A) → i < length xs → get_elem? (set xs i v) i ≡ some v
  get_elem?-set_self [] i v h = elim h [ ]
  get_elem?-set_self (x ∷ xs) zero v h = refl
  get_elem?-set_self (x ∷ xs) (suc i) v h = get_elem?-set_self xs i v (omega arith)

  pub get_elem?-set_ne :
      (xs : List A) {i j : ℕ} (v : A) → i ≢ j → get_elem? (set xs i v) j ≡ get_elem? xs j
  get_elem?-set_ne [] v h = refl
  get_elem?-set_ne (x ∷ xs) {i = zero} {j = zero} v h = absurd (h refl)
  get_elem?-set_ne (x ∷ xs) {i = zero} {j = suc j} v h = refl
  get_elem?-set_ne (x ∷ xs) {i = suc i} {j = zero} v h = refl
  get_elem?-set_ne (x ∷ xs) {i = suc i} {j = suc j} v h = get_elem?-set_ne xs v (λ e. h (ap suc e))

module _ {ℓ} {A : Type ℓ} where
  abbrev pub get_or : List A → ℕ → A → A
  get_or [] i d = d
  get_or (x ∷ xs) zero d = x
  get_or (x ∷ xs) (suc i) d = get_or xs i d

  abbrev pub take : ℕ → List A → List A
  take zero xs = []
  take (suc n) [] = []
  take (suc n) (x ∷ xs) = x ∷ take n xs

  abbrev pub drop : ℕ → List A → List A
  drop zero xs = xs
  drop (suc n) [] = []
  drop (suc n) (x ∷ xs) = drop n xs

  abbrev pub replicate : ℕ → A → List A
  replicate zero a = []
  replicate (suc n) a = a ∷ replicate n a

  pub take-append-drop : (n : ℕ) (xs : List A) → take n xs ++ drop n xs ≡ xs
  take-append-drop zero xs = refl
  take-append-drop (suc n) [] = refl
  take-append-drop (suc n) (x ∷ xs) = rw (take-append-drop n xs)

  pub length-take : (n : ℕ) (xs : List A) → length (take n xs) ≡ min n (length xs)
  length-take zero xs = omega arith
  length-take (suc n) [] = omega arith
  length-take (suc n) (x ∷ xs) = omega (arith, length-take n xs)

  pub length-drop : (n : ℕ) (xs : List A) → length (drop n xs) ≡ length xs - n
  length-drop zero xs = omega arith
  length-drop (suc n) [] = omega arith
  length-drop (suc n) (x ∷ xs) = omega (arith, length-drop n xs)

  pub length-replicate : (n : ℕ) (a : A) → length (replicate n a) ≡ n
  length-replicate zero a = refl
  length-replicate (suc n) a = ap suc (length-replicate n a)

  pub length-map {κ} : {B : Type κ} (xs : List A) (f : A → B) → length (map f xs) ≡ length xs
  length-map [] f = refl
  length-map (x ∷ xs) f = ap suc (length-map xs f)

module _ {ℓ} {A : Type ℓ} where
  -- `xs[i] = f(xs[i])`; out of bounds nothing changes.
  abbrev pub update : List A → ℕ → (A → A) → List A
  update [] i f = []
  update (x ∷ xs) zero f = f x ∷ xs
  update (x ∷ xs) (suc i) f = x ∷ update xs i f

  pub length-update : (xs : List A) (i : ℕ) (f : A → A) → length (update xs i f) ≡ length xs
  length-update [] i f = refl
  length-update (x ∷ xs) zero f = refl
  length-update (x ∷ xs) (suc i) f = ap suc (length-update xs i f)

  pub get_elem?-update_self :
      (xs : List A) (i : ℕ) (f : A → A) {x : A}
      → get_elem? xs i ≡ some x
      → get_elem? (update xs i f) i ≡ some (f x)
  get_elem?-update_self [] i f h = cc
  get_elem?-update_self (x ∷ xs) zero f h = cc
  get_elem?-update_self (x ∷ xs) (suc i) f h = get_elem?-update_self xs i f h

  pub get_elem?-update_ne :
      (xs : List A) (i j : ℕ) (f : A → A) → i ≢ j → get_elem? (update xs i f) j ≡ get_elem? xs j
  get_elem?-update_ne [] i j f h = refl
  get_elem?-update_ne (x ∷ xs) zero zero f h = absurd (h refl)
  get_elem?-update_ne (x ∷ xs) zero (suc j) f h = refl
  get_elem?-update_ne (x ∷ xs) (suc i) zero f h = refl
  get_elem?-update_ne (x ∷ xs) (suc i) (suc j) f h =
      get_elem?-update_ne xs i j f (λ e. h (ap suc e))

  pub get_elem?-some : (xs : List A) (i : ℕ) → i < length xs → (x : A) × (get_elem? xs i ≡ some x)
  get_elem?-some [] i h = absurd (omega arith)
  get_elem?-some (x ∷ xs) zero h = (x, refl)
  get_elem?-some (x ∷ xs) (suc i) h = get_elem?-some xs i (omega arith)

  pub get_elem?-none : (xs : List A) (i : ℕ) → length xs ≤ i → get_elem? xs i ≡ none
  get_elem?-none [] i h = refl
  get_elem?-none (x ∷ xs) zero h = absurd (omega arith)
  get_elem?-none (x ∷ xs) (suc i) h = get_elem?-none xs i (omega arith)

  pub get_elem?-drop :
      (k : ℕ) (xs : List A) (i : ℕ) → get_elem? (drop k xs) i ≡ get_elem? xs (k + i)
  get_elem?-drop zero xs i = ap (get_elem? xs) (omega arith)
  get_elem?-drop (suc k) [] i = refl
  get_elem?-drop (suc k) (x ∷ xs) i =
      get_elem?-drop k xs i ∙ ap (get_elem? (x ∷ xs)) {x = suc (k + i)} (omega arith)

  pub get_elem?-append_last :
      (xs : List A) (m : A) → get_elem? (xs ++ (m ∷ [])) (length xs) ≡ some m
  get_elem?-append_last [] m = refl
  get_elem?-append_last (x ∷ xs) m = get_elem?-append_last xs m

  pub get_elem?-append_left :
      (xs ys : List A) (i : ℕ) → i < length xs → get_elem? (xs ++ ys) i ≡ get_elem? xs i
  get_elem?-append_left [] ys i h = absurd (omega arith)
  get_elem?-append_left (x ∷ xs) ys zero h = refl
  get_elem?-append_left (x ∷ xs) ys (suc i) h = get_elem?-append_left xs ys i (omega arith)

  pub drop-append : (k : ℕ) (xs ys : List A) → k ≤ length xs → drop k (xs ++ ys) ≡ drop k xs ++ ys
  drop-append zero xs ys h = refl
  drop-append (suc k) [] ys h = absurd (omega arith)
  drop-append (suc k) (x ∷ xs) ys h = drop-append k xs ys (omega arith)

  drop-nil : (n : ℕ) → drop {A = A} n [] ≡ []
  drop-nil zero = refl
  drop-nil (suc n) = refl

  pub drop-drop : (j k : ℕ) (xs : List A) → drop j (drop k xs) ≡ drop (k + j) xs
  drop-drop j zero xs = ap (λ n. drop n xs) (omega arith)
  drop-drop zero (suc k) [] = sym (drop-nil (suc k + 0))
  drop-drop (suc j) (suc k) [] = sym (drop-nil (suc k + suc j))
  drop-drop j (suc k) (x ∷ xs) =
      drop-drop j k xs ∙ ap (λ n. drop n (x ∷ xs)) {x = suc (k + j)} (omega arith)

  -- The last `n` elements.
  abbrev pub newest : ℕ → List A → List A
  newest n xs = drop (length xs - n) xs

  -- What falls out of the newest `n` at one step is not needed later.
  pub newest-append : (n : ℕ) (xs ys : List A) → newest n (newest n xs ++ ys) ≡ newest n (xs ++ ys)
  newest-append n xs ys =
      let e : length (xs ++ ys) ≡ length xs + length ys = length-append xs ys in
      let d : length (newest n xs ++ ys) ≡ length xs - (length xs - n) + length ys =
        length-append (newest n xs) ys ∙ ap (λ k. k + length ys) (length-drop (length xs - n) xs) in
      elim (dec_lt n (length xs)) [
        | yes more ↦
            rw (d, e, ← drop-append (length xs - n) xs ys (omega arith), drop-drop)
              (ap (λ k. drop k (xs ++ ys)) (omega arith))
        | no few ↦ let z : length xs - n ≡ 0 = omega arith in rw z
      ]

  pub newest_few : (n : ℕ) (xs : List A) → length xs ≤ n → newest n xs ≡ xs
  newest_few n xs h = let z : length xs - n ≡ 0 = omega arith in rw z
