-- ===== src/Pkcs11/Ec/Curve.antt =====
-- include/LibreSCRS/Agent/KeyType.h, the table of the NIST curves, and what src/pkcs11/EcEncoding.cpp looks up in it. The
-- names that OpenSSL has for the curves are left out.
use libre_agent.Common.{
  ℕ, Bool, false, ◌&&◌, Option, none, some, List, [], ◌∷◌, String, ◌==◌, if◌then◌else◌, length,
}
use text.Mathlib.Text.{◌==◌ as text_eq}

pub record NistCurve : Type 0 where
  pub key_bits : ℕ
  pub field_bytes : ℕ
  pub crv : String
  pub oid_der : List ℕ

abbrev pub nist_curves : List NistCurve
nist_curves =
    record {
      key_bits = 256;
      field_bytes = 32;
      crv = "P-256";
      oid_der = 6 ∷ 8 ∷ 42 ∷ 134 ∷ 72 ∷ 206 ∷ 61 ∷ 3 ∷ 1 ∷ 7 ∷ [];
    }
    ∷ record {
      key_bits = 384;
      field_bytes = 48;
      crv = "P-384";
      oid_der = 6 ∷ 5 ∷ 43 ∷ 129 ∷ 4 ∷ 0 ∷ 34 ∷ [];
    }
    ∷ record {
      key_bits = 521;
      field_bytes = 66;
      crv = "P-521";
      oid_der = 6 ∷ 5 ∷ 43 ∷ 129 ∷ 4 ∷ 0 ∷ 35 ∷ [];
    }
    ∷ []

unfoldable pub first_curve : (NistCurve → Bool) → List NistCurve → Option NistCurve
first_curve p [] = none
first_curve p (c ∷ curves) = if p c then some c else first_curve p curves

unfoldable pub nist_curve_by_bits : ℕ → Option NistCurve
unfolding first_curve
nist_curve_by_bits bits = first_curve (λ c. c.key_bits == bits) nist_curves

unfoldable pub nist_curve_by_name : String → Option NistCurve
unfolding first_curve
nist_curve_by_name crv = first_curve (λ c. text_eq c.crv crv) nist_curves

unfoldable pub ec_params_der_for : ℕ → List ℕ
unfolding nist_curve_by_bits
ec_params_der_for key_bits = elim (nist_curve_by_bits key_bits) [ none ↦ [] | some c ↦ c.oid_der ]

unfoldable pub is_named_curve_point : String → List ℕ → List ℕ → Bool
unfolding nist_curve_by_name
is_named_curve_point crv x y = elim (nist_curve_by_name crv) [
  | none ↦ false
  | some c ↦ length x == c.field_bytes && length y == c.field_bytes
]

unfoldable pub is_point_of_key : ℕ → String → List ℕ → List ℕ → Bool
unfolding nist_curve_by_bits is_named_curve_point
is_point_of_key key_bits crv x y = elim (nist_curve_by_bits key_bits) [
  | none ↦ false
  | some c ↦ text_eq c.crv crv && is_named_curve_point crv x y
]
