-- ===== src/Pkcs11/Ec/Point.antt =====
-- Both forms of a peer's point are read.
use libre_agent.Common.{
  ℕ, ◌+◌, ◌*◌, ◌/◌, ◌<◌, ◌≡◌, refl, ap, ◌∙◌, true, some, List, [], ◌∷◌, ◌++◌, arith, length,
  length-append, drop-length-append,
}
use libre_agent.Pkcs11.Ec.{
  der_length, ec_point_octet_string, begins, uncompressed, peer_point_from_public_data,
}

begins-append : (header bytes : List ℕ) → begins header (header ++ bytes) ≡ true
unfolding begins
begins-append [] bytes = refl
begins-append (h ∷ header) bytes = ground (arith, begins-append header bytes)

octet_string :
    (key_bits : ℕ) (point : List ℕ)
    → 0 < (key_bits + 7) / 8
    → length point ≡ 1 + 2 * ((key_bits + 7) / 8)
    → peer_point_from_public_data
        (4 ∷ (der_length (1 + 2 * ((key_bits + 7) / 8)) ++ point))
        key_bits
      ≡ uncompressed point
unfolding peer_point_from_public_data
octet_string key_bits point pos fits =
    let header = der_length (1 + 2 * ((key_bits + 7) / 8)) in
    ground (
      arith,
      length-append header point,
      begins-append (4 ∷ header) point,
      drop-length-append (4 ∷ header) point,
    )

bare :
    (key_bits : ℕ) (point : List ℕ)
    → 0 < (key_bits + 7) / 8
    → length point ≡ 1 + 2 * ((key_bits + 7) / 8)
    → peer_point_from_public_data point key_bits ≡ uncompressed point
unfolding peer_point_from_public_data
bare key_bits point pos fits = ground arith

the_sum : (n a b : ℕ) → a ≡ n → b ≡ n → 1 + a + b ≡ 1 + 2 * n
the_sum n a b fa fb = omega (arith, fa, fb)

point_fits :
    (n : ℕ) (x y : List ℕ) → length x ≡ n → length y ≡ n → length (4 ∷ (x ++ y)) ≡ 1 + 2 * n
point_fits n x y fx fy = omega (arith, length-append x y, fx, fy)

ec_point :
    (n : ℕ) (x y : List ℕ)
    → 0 < n
    → length x ≡ n
    → length y ≡ n
    → ec_point_octet_string x y ≡ 4 ∷ (der_length (1 + 2 * n) ++ (4 ∷ (x ++ y)))
unfolding ec_point_octet_string
ec_point n x y pos fx fy = ground (arith, ap der_length (the_sum n (length x) (length y) fx fy))

-- The point of a key, as a certificate's coordinates give it, is read back from its octet string and from the
-- bare point alike, for every key length whose coordinates have those bytes.
pub peer_point-ec_point :
    (key_bits : ℕ) (x y : List ℕ)
    → 0 < length x
    → length x ≡ (key_bits + 7) / 8
    → length y ≡ length x
    → (peer_point_from_public_data (ec_point_octet_string x y) key_bits ≡ some (4 ∷ (x ++ y)))
      × (peer_point_from_public_data (4 ∷ (x ++ y)) key_bits ≡ some (4 ∷ (x ++ y)))
unfolding uncompressed
peer_point-ec_point key_bits x y pos fx fy = (
  ap (λ d. peer_point_from_public_data d key_bits)
        (ec_point ((key_bits + 7) / 8) x y (omega (arith, fx, pos)) fx (fy ∙ fx))
      ∙ octet_string key_bits (4 ∷ (x ++ y)) (omega (arith, fx, pos))
          (point_fits ((key_bits + 7) / 8) x y fx (fy ∙ fx)),
  bare key_bits (4 ∷ (x ++ y)) (omega (arith, fx, pos))
      (point_fits ((key_bits + 7) / 8) x y fx (fy ∙ fx)),
)
