-- ===== src/Pkcs11/Session/Handle.antt =====
-- The handles of token objects.
use libre_agent.Common.{
  ℕ, ◌+◌, ◌<◌, ◌≡◌, Option, some, none, List, arith, if◌then◌else◌, ◌==◌, get_elem?, ◌/◌, ◌%◌, ◌^◌,
}
use libre_agent.Pkcs11.Session.{encode_handle, resolve_object}

slot_part :
    (slot index : ℕ) → slot < 2 ^ 32 → index + 1 < 2 ^ 32 → encode_handle slot index / 2 ^ 32 ≡ slot
unfolding encode_handle
slot_part slot index a b = omega (arith, a, b)

index_part :
    (slot index : ℕ)
    → slot < 2 ^ 32
    → index + 1 < 2 ^ 32
    → encode_handle slot index % 2 ^ 32 ≡ index + 1
unfolding encode_handle
index_part slot index a b = omega (arith, a, b)

-- A handle resolves on its own slot to the object at its index, if there is one, and on no other slot.
pub resolve_object-encode_handle :
    {O : Type 0} (slot_by_id : ℕ → Option (List O)) (slot index at : ℕ) (objects : List O)
    → slot < 2 ^ 32
    → index + 1 < 2 ^ 32
    → slot_by_id slot ≡ some objects
    → resolve_object slot_by_id at (encode_handle slot index)
      ≡ (if at == slot then get_elem? objects index else none)
unfolding resolve_object
resolve_object-encode_handle slot_by_id slot index at objects a b e =
    ground (arith, e, slot_part slot index a b, index_part slot index a b)
