-- ===== src/Upload/Values.antt =====
-- Values as version 4 of the signature writes them, and those that a header may hold.
use npm.Common.{
  ℕ, ◌+◌, ◌/◌, ◌%◌, ◌≡◌, refl, ap, Bool, true, false, ◌&&◌, ◌||◌, Option, none, some, List, [], ◌∷◌,
  ◌++◌, ◌⊎◌, inl, inr, leb, ltb, ◌==◌, if◌then◌else◌, All, Bool-cases,
}
use npm.Text.{Text, codes, join, split, filled}
use npm.Upload.{Error, invalid_header_value, insert_all}

-- The characters of a path that stay: letters, digits, `-`, `.`, `_`, `~` and the slash.
abbrev pub stays : ℕ → Bool
stays c =
    (leb b'A' c && leb c b'Z')
    || (leb b'a' c && leb c b'z')
    || (leb b'0' c && leb c b'9')
    || (c == b'-')
    || (c == b'.')
    || (c == b'_')
    || (c == b'~')
    || (c == b'/')

abbrev pub hex_digit : ℕ → ℕ
hex_digit n = if ltb n 10 then 48 + n else 55 + n

abbrev pub uri_encode : Text → Text
uri_encode [] = []
uri_encode (c ∷ s) =
    (if stays c then c ∷ [] else b'%' ∷ hex_digit (c / 16) ∷ hex_digit (c % 16) ∷ [])
    ++ uri_encode s

abbrev pub Stays : Text → Type 0
Stays = All (λ c. stays c ≡ true)

pub uri_encode-Stays : (s : Text) → Stays s → uri_encode s ≡ s
uri_encode-Stays [] h = refl
uri_encode-Stays (c ∷ s) h = rw (h.0) (ap (λ t. c ∷ t) (uri_encode-Stays s h.1))

-- Without spaces at its ends, and with one where there are several in a row.
abbrev pub trim_all : Text → Text
trim_all value = join (codes " ") (filled (split (λ c. c == 32) value))

-- The first value that no header may hold.
abbrev pub first_refused : (Text → Bool) → List Text → Option Text
first_refused valid [] = none
first_refused valid (v ∷ vs) = if valid v then first_refused valid vs else some v

-- The headers, or the error of the value that is refused.
abbrev pub headers_or : List (Text × Text) → Option Text → List (Text × Text) ⊎ Error
headers_or headers none = inl headers
headers_or headers (some v) = inr (invalid_header_value v)

abbrev checked : List (Bool × Text × Text) → List Text
checked [] = []
checked ((true, name, value) ∷ headers) = checked headers
checked ((false, name, value) ∷ headers) = value ∷ checked headers

abbrev named : List (Bool × Text × Text) → List (Text × Text)
named [] = []
named ((free, name, value) ∷ headers) = (name, value) ∷ named headers

add_header :
    (name value : Text) (headers : List (Text × Text)) (o : Option Text)
    → (elim (headers_or headers o) as (λ x. List (Text × Text) ⊎ Error) [
      | inl hs ↦ inl ((name, value) ∷ hs)
      | inr e ↦ inr e
    ])
      ≡ headers_or ((name, value) ∷ headers) o
add_header name value headers none = refl
add_header name value headers (some v) = refl

pub insert_all_lem :
    (valid : Text → Bool) (headers : List (Bool × Text × Text))
    → insert_all valid headers ≡ headers_or (named headers) (first_refused valid (checked headers))
unfolding insert_all
insert_all_lem valid [] = refl
insert_all_lem valid ((true, name, value) ∷ headers) =
    rw (insert_all_lem valid headers)
      (add_header name value (named headers) (first_refused valid (checked headers)))
insert_all_lem valid ((false, name, value) ∷ headers) = elim (Bool-cases (valid value)) [
  | inl e ↦
      rw (e, insert_all_lem valid headers)
        (add_header name value (named headers) (first_refused valid (checked headers)))
  | inr e ↦ rw e refl
]
