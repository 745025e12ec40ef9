-- ===== src/Market/Opening.antt =====
-- The next opening of market/session.py: that it is found, and that it is the next one.
use xbottrader.Prelude.{
  ltb, ◌==◌, Bool-cases, ℕ, zero, suc, ◌+◌, ◌≤◌, ◌<◌, ◌≡◌, refl, ◌⊎◌, inl, inr, Bool, true, false,
  ◌&&◌, ◌||◌, some, List, [], ◌∷◌, arith,
}
use xbottrader.Market.Session.{
  TimeZone, weekday, opening_time, nyse_holidays, is_one_of, is_trading_day, opening_ms, is_open,
  scan_days, next_open_ms,
}

-- The days from 1970 on that `datetime` has, by their ordinals.
abbrev pub IsDay : ℕ → Type 0
IsDay day = (719163 ≤ day) × (day ≤ 3652059)

-- What the code relies on of the time zone at 09:30 of those days, which each of them has once: a later day has a
-- later opening, and an instant lies before the openings of later days and not before those of earlier ones.
pub record IsZone (zone : TimeZone) : Type 0 where
  pub local_opening :
      (day : ℕ)
      → IsDay day
      → zone.local_of (opening_ms zone day) ≡ record { day = day; time = opening_time }
  pub opening_after : (d e : ℕ) → IsDay d → IsDay e → d < e → opening_ms zone d < opening_ms zone e
  pub before_later :
      (ts day : ℕ) → IsDay day → (zone.local_of ts).day < day → ts < opening_ms zone day
  pub after_earlier :
      (ts day : ℕ) → IsDay day → day < (zone.local_of ts).day → opening_ms zone day ≤ ts

abbrev are_below : ℕ → List ℕ → Bool
are_below day [] = true
are_below day (other ∷ days) = ltb other day && are_below day days

abbrev are_above : ℕ → List ℕ → Bool
are_above day [] = true
are_above day (other ∷ days) = ltb day other && are_above day days

is_one_of-above :
    (bound day : ℕ) (days : List ℕ)
    → are_below bound days ≡ true
    → bound ≤ day
    → is_one_of day days ≡ false
is_one_of-above bound day [] h le = refl
is_one_of-above bound day (other ∷ days) h le = ground (arith, is_one_of-above bound day days)

is_one_of-below :
    (bound day : ℕ) (days : List ℕ)
    → are_above bound days ≡ true
    → day ≤ bound
    → is_one_of day days ≡ false
is_one_of-below bound day [] h le = refl
is_one_of-below bound day (other ∷ days) h le = ground (arith, is_one_of-below bound day days)

-- one of the next three days is no day of a weekend
next_weekday : (n : ℕ) → (j : ℕ) × (n < j) × (j ≤ n + 3) × (ltb (weekday j) 5 ≡ true)
next_weekday n = elim (Bool-cases (ltb (weekday (n + 1)) 5)) [
  | inl h ↦ (n + 1, omega arith, omega arith, h)
  | inr h ↦ elim (Bool-cases (ltb (weekday (n + 2)) 5)) [
    | inl k ↦ (n + 2, omega arith, omega arith, k)
    | inr k ↦ (n + 3, omega arith, omega arith, ground arith)
  ]
]

-- one of the next `k` days is a trading day
abbrev trades_within : ℕ → ℕ → Bool
trades_within zero day = false
trades_within (suc k) day = is_trading_day (day + 1) || trades_within k (day + 1)

abbrev all_trade_within : ℕ → ℕ → ℕ → Bool
all_trade_within k day zero = true
all_trade_within k day (suc n) = trades_within k day && all_trade_within k (day + 1) n

trades_within-elim :
    (k day : ℕ)
    → trades_within k day ≡ true
    → (j : ℕ) × (day < j) × (j ≤ day + k) × (is_trading_day j ≡ true)
trades_within-elim zero day h = absurd (ground arith)
trades_within-elim (suc k) day h = elim (Bool-cases (is_trading_day (day + 1))) [
  | inl now ↦ (day + 1, omega arith, omega arith, now)
  | inr later ↦
      let (j, lt, le, trading) = trades_within-elim k (day + 1) (ground arith) in
      (j, omega arith, omega arith, trading)
]

all_trade_within-elim :
    (k day n other : ℕ)
    → all_trade_within k day n ≡ true
    → day ≤ other
    → other < day + n
    → trades_within k other ≡ true
all_trade_within-elim k day zero other h le lt = absurd (omega arith)
all_trade_within-elim k day (suc n) other h le lt = elim (Bool-cases (day == other)) [
  | inl same ↦ let e : day ≡ other = ground arith in rw (← e) (ground arith)
  | inr before ↦
      all_trade_within-elim k (day + 1) n other (ground arith) (ground arith) (ground arith)
]

-- the days from the week before the first holiday to the last one
calendar : all_trade_within 7 739610 730 ≡ true
unfolding is_trading_day nyse_holidays
calendar = refl

first : are_above 739613 nyse_holidays ≡ true
unfolding nyse_holidays
first = refl

last : are_below 740340 nyse_holidays ≡ true
unfolding nyse_holidays
last = refl

outside :
    (n : ℕ)
    → ((n < 739610) ⊎ (739610 + 730 ≤ n))
    → (j : ℕ) × (n < j) × (j ≤ n + 7) × (is_trading_day j ≡ true)
unfolding is_trading_day
outside n h =
    let (j, lt, le, work) = next_weekday n in
    let free : is_one_of j nyse_holidays ≡ false = elim h [
      | inl early ↦ is_one_of-below 739613 j nyse_holidays first (omega arith)
      | inr late ↦ is_one_of-above 740340 j nyse_holidays last (omega arith)
    ] in
    (j, lt, omega arith, rw (work, free) refl)

-- Of any seven days in a row one is a trading day.
pub week-trades : (n : ℕ) → (j : ℕ) × (n < j) × (j ≤ n + 7) × (is_trading_day j ≡ true)
week-trades n = elim (Bool-cases (ltb n 739610)) [
  | inl early ↦ outside n (inl (ground arith))
  | inr not_early ↦ elim (Bool-cases (ltb n 740340)) [
    | inl between ↦
        trades_within-elim 7 n
          (all_trade_within-elim 7 739610 730 n calendar (ground arith) (ground arith))
    | inr late ↦ outside n (inr (ground arith))
  ]
]

below_of : (a b : ℕ) → ltb a b ≡ true → a < b
below_of a b h = ground arith

above_of : (a b : ℕ) → ltb a b ≡ false → b ≤ a
above_of a b h = ground arith

module _ (zone : TimeZone) (h : IsZone zone) where
  -- The first opening after an instant, among the trading days from the given one on.
  record IsFirstOpening (ts_ms day opening : ℕ) : Type 0 where
    pub opening_day : ℕ
    pub is_of_day : opening ≡ opening_ms zone opening_day
    pub trading : is_trading_day opening_day ≡ true
    pub is_day : IsDay opening_day
    pub later : ts_ms < opening
    pub first :
        (d : ℕ)
        → day ≤ d
        → IsDay d
        → is_trading_day d ≡ true
        → ts_ms < opening_ms zone d
        → opening ≤ opening_ms zone d

  opening_ms_mono : (d e : ℕ) → IsDay d → IsDay e → d ≤ e → opening_ms zone d ≤ opening_ms zone e
  opening_ms_mono d e hd he le = elim (Bool-cases (d == e)) [
    | inl same ↦ let eq : d ≡ e = ground arith in rw eq (omega arith)
    | inr apart ↦ omega (arith, h.opening_after d e hd he (ground arith))
  ]

  not_here :
      (ts_ms day d : ℕ)
      → day ≤ d
      → (is_trading_day day && ltb ts_ms (opening_ms zone day)) ≡ false
      → is_trading_day d ≡ true
      → ts_ms < opening_ms zone d
      → day + 1 ≤ d
  not_here ts_ms day d le missed trading later = elim (Bool-cases (day == d)) [
    | inl same ↦
        let e : day ≡ d = ground arith in
        let here : (is_trading_day d && ltb ts_ms (opening_ms zone d)) ≡ false = rw (← e) missed in
        absurd (ground arith)
    | inr apart ↦ ground arith
  ]

  scan_days-IsFirstOpening :
      (ts_ms n day j : ℕ)
      → 719163 ≤ day
      → j ≤ 3652059
      → day ≤ j
      → j < day + n
      → is_trading_day j ≡ true
      → ts_ms < opening_ms zone j
      → (opening : ℕ) × (scan_days zone ts_ms n day ≡ some opening)
        × IsFirstOpening ts_ms day opening
  unfolding scan_days
  scan_days-IsFirstOpening ts_ms zero day j low high le lt trading later = absurd (omega arith)
  scan_days-IsFirstOpening ts_ms (suc n) day j low high le lt trading later =
      elim (Bool-cases (is_trading_day day && ltb ts_ms (opening_ms zone day))) [
        | inl found ↦ (
          opening_ms zone day,
          rw found refl,
          record {
            opening_day = day;
            is_of_day = refl;
            trading = ground arith;
            is_day = (low, omega arith);
            later = ground arith;
            first = λ d le in_range t l. opening_ms_mono day d (low, omega arith) in_range le;
          },
        )
        | inr missed ↦
            let (opening, e, o) =
              scan_days-IsFirstOpening ts_ms n (day + 1) j (omega arith) high
                (not_here ts_ms day j le missed trading later) (omega arith) trading later in
            (
              opening,
              rw missed e,
              record {
                opening_day = o.opening_day;
                is_of_day = o.is_of_day;
                trading = o.trading;
                is_day = o.is_day;
                later = o.later;
                first = λ d le in_range t l.
                    o.first d (not_here ts_ms day d le missed t l) in_range t l;
              },
            )
      ]

  -- For an instant whose local day, and the week after it, are days of 1970 to 9999, the next opening is found,
  -- within 366 days. It lies after the instant, the market is open at it, and no trading day of those
  -- years opens between the two. The zone shows 09:30 once on each of those days, and an instant lies before the
  -- openings of later days and not before those of earlier ones.
  pub next_open_ms-IsNext :
      (ts_ms : ℕ)
      → 719163 ≤ (zone.local_of ts_ms).day
      → (zone.local_of ts_ms).day + 7 ≤ 3652059
      → (opening : ℕ) × (next_open_ms zone ts_ms ≡ some opening)
        × (ts_ms < opening)
        × (is_open zone opening ≡ true)
        × ((day : ℕ)
            → IsDay day
            → is_trading_day day ≡ true
            → ts_ms < opening_ms zone day
            → opening ≤ opening_ms zone day)
  unfolding next_open_ms is_open
  next_open_ms-IsNext ts_ms low high =
      let today = (zone.local_of ts_ms).day in
      let (j, lt, le, trading) = week-trades today in
      let j_high : j ≤ 3652059 = omega arith in
      let (opening, e, o) =
        scan_days-IsFirstOpening ts_ms 366 today j low j_high (omega arith) (omega arith) trading
          (h.before_later ts_ms j (omega arith, j_high) lt) in
      (
        opening,
        e,
        o.later,
        rw (o.is_of_day, h.local_opening o.opening_day o.is_day, o.trading) refl,
        λ day in_range t l. elim (Bool-cases (ltb day today)) [
          | inl past ↦
              absurd (omega (arith, h.after_earlier ts_ms day in_range (below_of day today past)))
          | inr ahead ↦ o.first day (above_of day today ahead) in_range t l
        ],
      )
