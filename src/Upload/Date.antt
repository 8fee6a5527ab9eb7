-- ===== src/Upload/Date.antt =====
-- The time of a request in its headers.
use npm.Common.{ℕ, ◌+◌, ◌-◌, ◌*◌, ◌/◌, ◌%◌, ◌<◌, Option, none, some, [], ◌∷◌, ◌≡◌, refl, arith}
use npm.Text.{Text}
use npm.Upload.{DateTime, digit, amz_date}

abbrev two_of : ℕ → ℕ → ℕ
two_of a b = (a - 48) * 10 + (b - 48)

-- `YYYYMMDD'T'HHMMSS'Z'`.
pub read_date : Text → Option DateTime
read_date (y ∷ y1 ∷ y2 ∷ y3 ∷ m ∷ m1 ∷ d ∷ d1 ∷ t ∷ h ∷ h1 ∷ i ∷ i1 ∷ s ∷ s1 ∷ z ∷ []) =
    some (record {
      year = two_of y y1 * 100 + two_of y2 y3;
      month = two_of m m1;
      day = two_of d d1;
      hour = two_of h h1;
      minute = two_of i i1;
      second = two_of s s1;
    })
read_date _ = none

two-digit : (n : ℕ) → n < 100 → two_of (digit (n / 10)) (digit (n % 10)) ≡ n
unfolding digit
two-digit n h = omega (arith, h)

year_digits :
    (n : ℕ)
    → n < 10000
    → two_of (digit (n / 1000)) (digit (n / 100 % 10)) * 100
        + two_of (digit (n / 10 % 10)) (digit (n % 10))
      ≡ n
unfolding digit
year_digits n h = omega (arith, h)

of_fields :
    (y m d h i s : ℕ)
    → y < 10000
    → m < 100
    → d < 100
    → h < 100
    → i < 100
    → s < 100
    → read_date
        (amz_date (record { year = y; month = m; day = d; hour = h; minute = i; second = s }))
      ≡ some (record { year = y; month = m; day = d; hour = h; minute = i; second = s })
unfolding read_date amz_date
of_fields y m d h i s hy hm hd hh hi hs =
    rw
      (
        year_digits y hy,
        two-digit m hm,
        two-digit d hd,
        two-digit h hh,
        two-digit i hi,
        two-digit s hs,
      )
      refl

-- A time before the year 10000 whose other fields have at most two digits is read back from the text
-- that goes with the request.
pub read_date-amz_date :
    (t : DateTime)
    → t.year < 10000
    → t.month < 100
    → t.day < 100
    → t.hour < 100
    → t.minute < 100
    → t.second < 100
    → read_date (amz_date t) ≡ some t
read_date-amz_date t hy hm hd hh hi hs =
    of_fields t.year t.month t.day t.hour t.minute t.second hy hm hd hh hi hs
