-- ===== src/Streams/Choice.antt =====
-- src/stream.c: sample formats and sample rates. A list of formats or rates is what stands before its
-- closing entry; NULL is none. `AV_SAMPLE_FMT_NONE` is -1.
use mathlib.Core.Path.{subst}
use musicd.Base.{
  ℕ, ◌+◌, ◌-◌, ◌≤◌, ◌<◌, ◌≡◌, refl, sym, Bool, true, false, List, [], ◌∷◌, Option, none, some, ◌==◌,
  ltb, ltb→lt, if◌then◌else◌, ℤ, pos, negsuc, All, arith, Bool-cases, inl, inr, ◌⊎◌,
}

abbrev pub is_in : ℕ → List ℕ → Bool
is_in x [] = false
is_in x (y ∷ ys) = if x == y then true else is_in x ys

unfoldable pub common_from : List ℕ → List ℕ → ℤ
common_from [] fmts2 = negsuc 0
common_from (fmt ∷ fmts1) fmts2 = if is_in fmt fmts2 then pos fmt else common_from fmts1 fmts2

unfoldable pub find_common_sample_fmt : Option (List ℕ) → Option (List ℕ) → ℤ
unfolding common_from
find_common_sample_fmt none fmts2 = negsuc 0
find_common_sample_fmt (some fmts1) none = negsuc 0
find_common_sample_fmt (some fmts1) (some fmts2) = common_from fmts1 fmts2

unfoldable pub find_sample_fmt : ℕ → Option (List ℕ) → ℤ
find_sample_fmt src_fmt none = pos src_fmt
find_sample_fmt src_fmt (some []) = negsuc 0
find_sample_fmt src_fmt (some (fmt ∷ fmts)) =
    if is_in src_fmt (fmt ∷ fmts) then pos src_fmt else pos fmt

-- `abs(a - b)`
abbrev pub distance : ℕ → ℕ → ℕ
distance a b = (a - b) + (b - a)

-- The loop, with `closest` so far.
unfoldable pub closest_rate : ℕ → ℕ → List ℕ → ℕ
closest_rate sample_rate closest [] = closest
closest_rate sample_rate closest (rate ∷ rates) =
    if rate == sample_rate
    then sample_rate
    else closest_rate sample_rate
        (if ltb (distance rate sample_rate) (distance closest sample_rate) then rate else closest)
        rates

unfoldable pub find_sample_rate : ℕ → Option (List ℕ) → ℕ
unfolding closest_rate
find_sample_rate sample_rate none = sample_rate
find_sample_rate sample_rate (some rates) = closest_rate sample_rate 0 rates

zero_least :
    (sample_rate : ℕ) (rates : List ℕ)
    → All (λ rate. distance sample_rate sample_rate ≤ distance rate sample_rate) rates
zero_least sample_rate [] = tt
zero_least sample_rate (rate ∷ rates) = (omega arith, zero_least sample_rate rates)

All-from_zero :
    (sample_rate : ℕ) (rates : List ℕ)
    → All (λ rate. distance 0 sample_rate ≤ distance rate sample_rate) rates
    → All (λ rate. sample_rate ≤ distance rate sample_rate) rates
All-from_zero sample_rate [] h = tt
All-from_zero sample_rate (rate ∷ rates) h =
    (omega (arith, h.0), All-from_zero sample_rate rates h.1)

closest_rate-le :
    (sample_rate closest : ℕ) (rates : List ℕ)
    → distance (closest_rate sample_rate closest rates) sample_rate ≤ distance closest sample_rate
unfolding closest_rate
closest_rate-le sample_rate closest [] = omega arith
closest_rate-le sample_rate closest (rate ∷ rates) = elim (Bool-cases (rate == sample_rate)) [
  | inl e ↦ rw e (omega arith)
  | inr e ↦ elim (Bool-cases (ltb (distance rate sample_rate) (distance closest sample_rate))) [
    | inl l ↦
        let less : distance rate sample_rate < distance closest sample_rate =
          ltb→lt (distance rate sample_rate) (distance closest sample_rate) l in
        rw (e, l) (omega (arith, closest_rate-le sample_rate rate rates, less))
    | inr l ↦ rw (e, l) (closest_rate-le sample_rate closest rates)
  ]
]

module _ (sample_rate closest rate : ℕ) (rates : List ℕ) where
  rate_exact :
      (rate == sample_rate) ≡ true → closest_rate sample_rate closest (rate ∷ rates) ≡ sample_rate
  unfolding closest_rate
  rate_exact e = rw e refl

  rate_nearer :
      (rate == sample_rate) ≡ false
      → ltb (distance rate sample_rate) (distance closest sample_rate) ≡ true
      → closest_rate sample_rate closest (rate ∷ rates) ≡ closest_rate sample_rate rate rates
  unfolding closest_rate
  rate_nearer e l = rw (e, l) refl

  rate_farther :
      (rate == sample_rate) ≡ false
      → ltb (distance rate sample_rate) (distance closest sample_rate) ≡ false
      → closest_rate sample_rate closest (rate ∷ rates) ≡ closest_rate sample_rate closest rates
  unfolding closest_rate
  rate_farther e l = rw (e, l) refl

-- No rate of the list is nearer to the source's than this one.
abbrev pub IsNearest : ℕ → List ℕ → ℕ → Type 0
IsNearest sample_rate rates x =
    All (λ rate. distance x sample_rate ≤ distance rate sample_rate) rates

-- The rate is the one begun with, or stands in the list.
abbrev IsChosen : ℕ → List ℕ → ℕ → Type 0
IsChosen closest rates x = (x ≡ closest) ⊎ (is_in x rates ≡ true)

is_in_more : (x y : ℕ) (ys : List ℕ) → is_in x ys ≡ true → is_in x (y ∷ ys) ≡ true
is_in_more x y ys h = ground (arith, h)

is_in_here : (x y : ℕ) (ys : List ℕ) → x ≡ y → is_in x (y ∷ ys) ≡ true
is_in_here x y ys h = ground (arith, h)

closest_rate-IsNearest :
    (sample_rate closest : ℕ) (rates : List ℕ)
    → IsNearest sample_rate rates (closest_rate sample_rate closest rates)
      × IsChosen closest rates (closest_rate sample_rate closest rates)
closest_rate-IsNearest sample_rate closest [] = (tt, inl (unfold closest_rate in refl))
closest_rate-IsNearest sample_rate closest (rate ∷ rates) =
    let Good : ℕ → Type 0 =
      λ x. IsNearest sample_rate (rate ∷ rates) x × IsChosen closest (rate ∷ rates) x in
    elim (Bool-cases (rate == sample_rate)) [
      | inl e ↦ subst Good (sym (rate_exact sample_rate closest rate rates e)) (
        (omega arith, zero_least sample_rate rates),
        inr (is_in_here sample_rate rate rates (ground (arith, e))),
      )
      | inr e ↦ elim (Bool-cases (ltb (distance rate sample_rate) (distance closest sample_rate))) [
        | inl l ↦
            let (near, from) = closest_rate-IsNearest sample_rate rate rates in
            subst Good (sym (rate_nearer sample_rate closest rate rates e l)) (
              (closest_rate-le sample_rate rate rates, near),
              elim from [
                | inl same ↦ inr (is_in_here _ rate rates same)
                | inr there ↦ inr (is_in_more _ rate rates there)
              ],
            )
        | inr l ↦
            let (near, from) = closest_rate-IsNearest sample_rate closest rates in
            let le : distance closest sample_rate ≤ distance rate sample_rate = ground (arith, l) in
            subst Good (sym (rate_farther sample_rate closest rate rates e l)) (
              (omega (arith, closest_rate-le sample_rate closest rates, le), near),
              elim from [ inl same ↦ inl same | inr there ↦ inr (is_in_more _ rate rates there) ],
            )
      ]
    ]

-- No rate of the encoder is nearer to the source's than the one chosen, which is one of them, or 0, where
-- every rate is at least as far from the source's as 0 is.
pub find_sample_rate-IsNearest :
    (sample_rate : ℕ) (rates : List ℕ)
    → IsNearest sample_rate rates (find_sample_rate sample_rate (some rates))
      × ((is_in (find_sample_rate sample_rate (some rates)) rates ≡ true)
          ⊎ ((find_sample_rate sample_rate (some rates) ≡ 0)
              × All (λ rate. sample_rate ≤ distance rate sample_rate) rates))
unfolding find_sample_rate
find_sample_rate-IsNearest sample_rate rates =
    let (nearest, from) = closest_rate-IsNearest sample_rate 0 rates in
    (
      nearest,
      elim from [
        | inr there ↦ inl there
        | inl zero_rate ↦ inr (
          zero_rate,
          All-from_zero sample_rate rates (subst (IsNearest sample_rate rates) zero_rate nearest),
        )
      ],
    )
