-- ===== src/Pkcs11/Ec.antt =====
-- src/pkcs11/EcEncoding.cpp: points of a curve as PKCS#11 has them.
pub mod Curve
pub mod Point
mod Runs
use libre_agent.Common.{
  ℕ, suc, ◌+◌, ◌*◌, ◌/◌, ◌%◌, Bool, true, false, not, ◌&&◌, ◌||◌, Option, none, some, List, [], ◌∷◌,
  ◌++◌, ◌==◌, ltb, leb, if◌then◌else◌, length, take, drop,
}

-- A definite length below 64 KiB, less the high bits of a longer one.
unfoldable pub der_length : ℕ → List ℕ
der_length n =
    if ltb n 128
    then n ∷ []
    else if leb n 255
    then 129 ∷ n ∷ []
    else 130 ∷ (n / 256 % 256) ∷ (n % 256) ∷ []

unfoldable pub ec_point_octet_string : List ℕ → List ℕ → List ℕ
ec_point_octet_string x y =
    if length x == 0 || not (length x == length y)
    then []
    else 4 ∷ (der_length (1 + length x + length y) ++ (4 ∷ (x ++ y)))

-- Whether the first list begins the second, as `std::equal` finds.
unfoldable pub begins : List ℕ → List ℕ → Bool
begins [] bytes = true
begins (h ∷ header) [] = false
begins (h ∷ header) (b ∷ bytes) = h == b && begins header bytes

unfoldable pub uncompressed : List ℕ → Option (List ℕ)
uncompressed [] = none
uncompressed (b ∷ point) = if b == 4 then some (b ∷ point) else none

unfoldable pub peer_point_from_public_data : List ℕ → ℕ → Option (List ℕ)
peer_point_from_public_data public_data key_bits =
    let n = (key_bits + 7) / 8 in
    let point_len = 1 + 2 * n in
    let header = 4 ∷ der_length point_len in
    if n == 0
    then none
    else if length public_data == point_len
    then uncompressed public_data
    else if not (length public_data == length header + point_len) || not (begins header public_data)
    then none
    else uncompressed (drop (length header) public_data)
