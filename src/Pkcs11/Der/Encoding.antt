-- ===== src/Pkcs11/Der/Encoding.antt =====
-- Elements as DER writes them, and that they are read back.
use libre_agent.Common.{
  ℕ, ◌+◌, ◌/◌, ◌%◌, ◌^◌, ◌<◌, ◌≤◌, ◌≡◌, refl, some, List, [], ◌∷◌, ◌++◌, ◌==◌, ltb, if◌then◌else◌,
  length, take, drop, arith, length-append, take-length-append, drop-length-append, subst, ap, sym,
  ◌∙◌, suc, append_assoc, false,
}
use libre_agent.Pkcs11.Der.{big_endian, contained, long_form, read_der_length, take_der_element}

-- A length below 2^32, in as few bytes as there can be.
unfoldable pub length_bytes : ℕ → List ℕ
length_bytes n =
    if ltb n 128
    then n ∷ []
    else if ltb n 256
    then 129 ∷ n ∷ []
    else if ltb n 65536
    then 130 ∷ n / 256 ∷ n % 256 ∷ []
    else if ltb n 16777216
    then 131 ∷ n / 65536 ∷ n / 256 % 256 ∷ n % 256 ∷ []
    else 132 ∷ n / 16777216 ∷ n / 65536 % 256 ∷ n / 256 % 256 ∷ n % 256 ∷ []

unfoldable pub element : ℕ → List ℕ → List ℕ
unfolding length_bytes
element tag content = tag ∷ (length_bytes (length content) ++ content)

read_length :
    (tag n : ℕ) (rest : List ℕ)
    → n < 2 ^ 32
    → n ≤ length rest
    → read_der_length (tag ∷ (length_bytes n ++ rest)) 1
      ≡ some (record { length = n; length_octets = length (length_bytes n) })
unfolding read_der_length long_form contained big_endian length_bytes
read_length tag n rest small fits = ground arith

one_more : (n : ℕ) → 1 + n ≡ suc n
one_more n = omega arith

take_cons : (n x : ℕ) (xs : List ℕ) → take (1 + n) (x ∷ xs) ≡ x ∷ take n xs
take_cons n x xs = subst (λ k. take k (x ∷ xs) ≡ x ∷ take n xs) (sym (one_more n)) refl

drop_cons : (n x : ℕ) (xs : List ℕ) → drop (1 + n) (x ∷ xs) ≡ drop n xs
drop_cons n x xs = subst (λ k. drop k (x ∷ xs) ≡ drop n xs) (sym (one_more n)) refl

-- What the element is cut at: the tag, so many bytes of length, and so many of content.
take_whole :
    (tag : ℕ) (xs content more : List ℕ)
    → take (1 + (length xs + length content)) (tag ∷ ((xs ++ content) ++ more))
      ≡ tag ∷ (xs ++ content)
take_whole tag xs content more =
    take_cons (length xs + length content) tag ((xs ++ content) ++ more)
    ∙ ap (λ ys. tag ∷ ys)
        (subst (λ n. take n ((xs ++ content) ++ more) ≡ xs ++ content) (length-append xs content)
          (take-length-append (xs ++ content) more))

drop_whole :
    (tag : ℕ) (xs content more : List ℕ)
    → drop (1 + (length xs + length content)) (tag ∷ ((xs ++ content) ++ more)) ≡ more
drop_whole tag xs content more =
    drop_cons (length xs + length content) tag ((xs ++ content) ++ more)
    ∙ subst (λ n. drop n ((xs ++ content) ++ more) ≡ more) (length-append xs content)
        (drop-length-append (xs ++ content) more)

cut_content :
    (tag : ℕ) (xs content more : List ℕ)
    → take (length content) (drop (1 + length xs) (tag ∷ ((xs ++ content) ++ more))) ≡ content
cut_content tag xs content more =
    ap (λ ys. take (length content) ys)
      (drop_cons (length xs) tag ((xs ++ content) ++ more)
        ∙ ap (λ ys. drop (length xs) ys) (append_assoc xs content more)
        ∙ drop-length-append xs (content ++ more))
    ∙ take-length-append content more

cut_at :
    (tag n k : ℕ) (bytes : List ℕ)
    → (tag % 32 == 31) ≡ false
    → read_der_length (tag ∷ bytes) 1 ≡ some (record { length = n; length_octets = k })
    → take_der_element (tag ∷ bytes)
      ≡ some (
        record {
          whole = take (1 + k + n) (tag ∷ bytes);
          content = take n (drop (1 + k) (tag ∷ bytes));
        },
        drop (1 + k + n) (tag ∷ bytes),
      )
unfolding take_der_element
cut_at tag n k bytes low e = rw (low, e) refl

add_ones : (k n : ℕ) → 1 + k + n ≡ 1 + (k + n)
add_ones k n = omega arith

-- An element with a low tag number and a content below 4 GiB is read off the front of whatever follows it.
pub take_der_element-element :
    (tag : ℕ) (content more : List ℕ)
    → (tag % 32 == 31) ≡ false
    → length content < 2 ^ 32
    → take_der_element (element tag content ++ more)
      ≡ some (record { whole = element tag content; content = content }, more)
unfolding element
take_der_element-element tag content more low small =
    let xs = length_bytes (length content) in
    let n = length content in
    let bytes = (xs ++ content) ++ more in
    let read : read_der_length (tag ∷ bytes) 1
        ≡ some (record { length = n; length_octets = length xs }) =
      rw (append_assoc xs content more)
        (read_length tag n (content ++ more) small (omega (arith, length-append content more))) in
    cut_at tag n (length xs) bytes low read
    ∙ rw
        (
          add_ones (length xs) n,
          take_whole tag xs content more,
          drop_whole tag xs content more,
          cut_content tag xs content more,
        )
        refl
