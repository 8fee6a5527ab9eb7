-- ===== src/Upload/Tests.antt =====
-- A signed request, with hash functions that leave the text as it is.
use npm.Common.{some, [], ◌∷◌, ◌++◌, true, ◌≡◌, refl, arith}
use npm.Text.{codes, join, filled, split}
use npm.Text.Cut.{Lacks}
use npm.Upload.{Crates, S3, DateTime, prefix_of, amz_date, sign}
use npm.Upload.Signed.{spec_sign, sign_lem}
use npm.Upload.Date.{read_date, read_date-amz_date}

abbrev crates : Crates
crates = record {
  hmac = λ key msg. key ++ msg;
  sha256 = λ s. s;
  hex = λ s. s;
  display = λ n. n ∷ [];
  is_header_value = λ s. true;
}

abbrev s3 : S3
s3 = record {
  s3_id = codes "id";
  s3_sk = codes "key";
  s3_region = codes "r1";
  url_prefix = prefix_of (codes "h.com") (codes "b");
}

abbrev now : DateTime
now = record { year = 2025; month = 1; day = 2; hour = 3; minute = 40; second = 59 }

date_text : amz_date now ≡ codes "20250102T034059Z"
unfolding amz_date
date_text = refl

read_date-amz_date_example : read_date (amz_date now) ≡ some now
read_date-amz_date_example =
    read_date-amz_date now (omega arith) (omega arith) (omega arith) (omega arith) (omega arith)
      (omega arith)

host-Lacks : Lacks b'/' (codes "h.com")
host-Lacks = (refl, (refl, (refl, (refl, (refl, tt)))))

sign_lem_example :
    sign crates
      (codes "PUT")
      s3
      (codes "data")
      (codes "p")
      (codes "text/plain")
      (codes "public")
      now
    ≡ some (
        spec_sign crates s3
          (codes "PUT")
          (codes "h.com")
          (codes "b")
          (codes "data")
          (codes "p")
          (codes "text/plain")
          (codes "public")
          now)
unfolding join filled split
sign_lem_example =
    sign_lem crates s3 (codes "PUT") (codes "h.com") (codes "b") (codes "data") (codes "p")
      (codes "text/plain") (codes "public") now host-Lacks refl (refl, tt) (refl, tt) refl refl refl
