-- ===== src/Timed/Calendar.antt =====
-- `from_epoch` and `to_epoch` of kernel/core/timed.c.
mod Tests
use os.Prelude.{
  ℕ, zero, suc, ◌+◌, ◌-◌, ◌*◌, ◌/◌, ◌%◌, ◌^◌, ◌≤◌, ◌<◌, ◌≡◌, refl, sym, ap, ◌∙◌, List, [], ◌∷◌,
  Bool, true, false, not, ◌&&◌, ◌||◌, if◌then◌else◌, leb, ◌==◌, get_or, arith, inl, inr, Bool-cases,
  sub_size, leb→le,
}
use mathlib.Core.Path.{subst}
use os.Rtc.{RtcTime}
use os.Timed.{
  leap, month_lengths, month_days, year_days, years_days, months_days, to_epoch, year_loop,
  month_loop, from_epoch,
}

year_days-le : (y : ℕ) → (365 ≤ year_days y) × (year_days y ≤ 366)
unfolding year_days
year_days-le y = ground arith

years_days-le : (n y : ℕ) → n * 365 ≤ years_days n y
years_days-le zero y = omega arith
years_days-le (suc n) y = omega (arith, year_days-le y, years_days-le n (y + 1))

-- The loop over the years, from the year `y` on.
year_loop_lem :
    (f days y : ℕ)
    → days < f * 365
    → (k : ℕ) × ((year_loop f days y).0 ≡ y + k)
      × (years_days k y + (year_loop f days y).1 ≡ days)
      × ((year_loop f days y).1 < year_days (y + k))
unfolding year_loop
year_loop_lem zero days y lt = absurd (omega arith)
year_loop_lem (suc f) days y lt = elim (Bool-cases (leb (year_days y) days)) [
  | inl e ↦
      let le = leb→le (year_days y) days e in
      let (k, year, sum, small) =
        year_loop_lem f (days - year_days y) (y + 1) (omega (arith, le, year_days-le y)) in
      let same : y + 1 + k ≡ y + suc k = omega arith in
      (
        suc k,
        rw e (omega (arith, year)),
        rw e (omega (arith, sum, le)),
        rw e (subst (λ x. (year_loop f (days - year_days y) (y + 1)).1 < year_days x) same small),
      )
  | inr e ↦
      let lt' : days < year_days y = ground arith in
      let same : y ≡ y + 0 = omega arith in
      (0, rw e same, rw e (omega arith), rw e (subst (λ x. days < year_days x) same lt'))
]

-- The loop over the months, from the month `m` on.
month_loop_lem :
    (f y days m : ℕ)
    → days < months_days f y m
    → (k : ℕ) × ((month_loop f y days m).0 ≡ m + k)
      × (months_days k y m + (month_loop f y days m).1 ≡ days)
      × ((month_loop f y days m).1 < month_days y (m + k))
      × (k < f)
unfolding month_loop
month_loop_lem zero y days m lt = absurd (omega arith)
month_loop_lem (suc f) y days m lt = elim (Bool-cases (leb (month_days y m) days)) [
  | inl e ↦
      let le = leb→le (month_days y m) days e in
      let (k, month, sum, small, less) =
        month_loop_lem f y (days - month_days y m) (m + 1) (omega (arith, le)) in
      let same : m + 1 + k ≡ m + suc k = omega arith in
      (
        suc k,
        rw e (omega (arith, month)),
        rw e (omega (arith, sum, le)),
        rw e (
            subst (λ x. (month_loop f y (days - month_days y m) (m + 1)).1 < month_days y x) same
              small),
        omega (arith, less),
      )
  | inr e ↦
      let lt' : days < month_days y m = ground arith in
      let same : m ≡ m + 0 = omega arith in
      (
        0,
        rw e same,
        rw e (omega arith),
        rw e (subst (λ x. days < month_days y x) same lt'),
        omega arith,
      )
]

whole_year : (y : ℕ) → months_days 12 y 1 ≡ year_days y
unfolding month_days year_days
whole_year y = elim (Bool-cases (leap y)) [ inl e ↦ rw e | inr e ↦ rw e ]

abbrev AllBelow : ℕ → List ℕ → Type 0
AllBelow b [] = Unit {0}
AllBelow b (x ∷ xs) = (x ≤ b) × AllBelow b xs

get_or-le : (b : ℕ) (xs : List ℕ) (i : ℕ) → AllBelow b xs → get_or xs i 0 ≤ b
get_or-le b [] i h = omega arith
get_or-le b (x ∷ xs) zero h = h.0
get_or-le b (x ∷ xs) (suc i) h = get_or-le b xs i h.1

month_lengths_below : AllBelow 31 month_lengths
month_lengths_below = (
  omega arith,
  (
    omega arith,
    (
      omega arith,
      (
        omega arith,
        (
          omega arith,
          (
            omega arith,
            (
              omega arith,
              (omega arith, (omega arith, (omega arith, (omega arith, (omega arith, tt))))),
            ),
          ),
        ),
      ),
    ),
  ),
)

month_days-le : (y m : ℕ) → month_days y m ≤ 32
unfolding month_days
month_days-le y m =
    let le = get_or-le 31 month_lengths (m - 1) month_lengths_below in
    elim (Bool-cases ((m == 2) && leap y)) [
      | inl e ↦ rw e (omega (arith, le))
      | inr e ↦ rw e (omega (arith, le))
    ]

-- For every count of seconds below 2^40, `to_epoch` of the calendar time that `from_epoch` gives is that
-- count: the loops over the years and months leave no day out and count none twice, in leap years too.
pub to_epoch-from_epoch : (value : ℕ) → value < 2 ^ 40 → to_epoch (from_epoch value) ≡ value
unfolding to_epoch from_epoch
to_epoch-from_epoch value h =
    let days = value / 86400 in
    let year = (year_loop (days / 365 + 1) days 1970).0 in
    let in_year = (year_loop (days / 365 + 1) days 1970).1 in
    let (k, is_year, years, small) = year_loop_lem (days / 365 + 1) days 1970 (omega arith) in
    let fits : in_year < months_days 12 year 1 =
      omega (arith, whole_year year, ap year_days is_year, small) in
    let month = (month_loop 12 year in_year 1).0 in
    let in_month = (month_loop 12 year in_year 1).1 in
    let (j, is_month, months, short, twelve) = month_loop_lem 12 year in_year 1 fits in
    let bound = years_days-le k 1970 in
    let y : year % 2 ^ 16 ≡ year = omega (arith, is_year, years, bound) in
    let count : year - 1970 ≡ k = omega (arith, is_year) in
    let m : month % 2 ^ 8 - 1 ≡ j = omega (arith, is_month, twelve) in
    let d : (in_month + 1) % 2 ^ 8 ≡ in_month + 1 =
      omega (arith, short, month_days-le year (1 + j)) in
    rw (y, count, m, d) (omega (arith, years, months))
