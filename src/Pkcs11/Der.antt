-- ===== src/Pkcs11/Der.antt =====
-- src/util/DerLength.h and, of src/pkcs11/Module.cpp, the element at the front of some DER. A byte is below 256, and
-- four of them stay far below the width of the value, so nothing wraps.
pub mod Encoding
use libre_agent.Common.{
  ℕ, ◌+◌, ◌-◌, ◌*◌, ◌/◌, ◌%◌, Bool, not, ◌||◌, Option, none, some, List, [], ◌∷◌, ◌==◌, ltb, leb,
  if◌then◌else◌, length, take, drop, get_elem?,
}

pub record DerLength : Type 0 where
  pub length : ℕ
  pub length_octets : ℕ

abbrev pub max_der_length_octets : ℕ
max_der_length_octets = 4

-- The loop, from the value that it has so far.
unfoldable pub big_endian : ℕ → List ℕ → ℕ
big_endian value [] = value
big_endian value (b ∷ bs) = big_endian (value * 256 + b) bs

-- The value must lie in the data behind its length.
unfoldable pub contained : ℕ → ℕ → ℕ → Option DerLength
contained value length_octets left =
    if ltb left value then none else some (record { length = value; length_octets = length_octets })

unfoldable pub long_form : List ℕ → ℕ → ℕ → Option DerLength
unfolding big_endian contained
long_form bytes pos octets =
    if octets == 0 || ltb max_der_length_octets octets || ltb (length bytes - pos - 1) octets
    then none
    else contained (big_endian 0 (take octets (drop (pos + 1) bytes))) (1 + octets)
        (length bytes - pos - (1 + octets))

unfoldable pub read_der_length : List ℕ → ℕ → Option DerLength
unfolding long_form contained
read_der_length bytes pos = elim (get_elem? bytes pos) [
  | none ↦ none
  | some first ↦
      if not (first / 128 % 2 == 0)
      then long_form bytes pos (first % 128)
      else contained first 1 (length bytes - pos - 1)
]

pub record DerElement : Type 0 where
  pub whole : List ℕ
  pub content : List ℕ

-- The element at the front, and what is behind it.
unfoldable pub take_der_element : List ℕ → Option (DerElement × List ℕ)
unfolding read_der_length
take_der_element [] = none
take_der_element (tag ∷ rest) =
    if tag % 32 == 31 then none else elim (read_der_length (tag ∷ rest) 1) [
      | none ↦ none
      | some len ↦
          let header = 1 + len.length_octets in
          some (
            record {
              whole = take (header + len.length) (tag ∷ rest);
              content = take len.length (drop header (tag ∷ rest));
            },
            drop (header + len.length) (tag ∷ rest),
          )
    ]
