-- ===== src/Pkcs11/Ec/Runs.antt =====
-- A point of a key with coordinates of two bytes.
use libre_agent.Common.{ℕ, ◌≡◌, ◌++◌, refl, some, List, [], ◌∷◌, arith}
use libre_agent.Pkcs11.Ec.{ec_point_octet_string, peer_point_from_public_data}
use libre_agent.Pkcs11.Ec.Point.{peer_point-ec_point}

abbrev x_bytes : List ℕ
x_bytes = 17 ∷ 18 ∷ []

abbrev y_bytes : List ℕ
y_bytes = 19 ∷ 20 ∷ []

peer_point-ec_point_example :
    (peer_point_from_public_data (ec_point_octet_string x_bytes y_bytes) 16
      ≡ some (4 ∷ (x_bytes ++ y_bytes)))
    × (peer_point_from_public_data (4 ∷ (x_bytes ++ y_bytes)) 16 ≡ some (4 ∷ (x_bytes ++ y_bytes)))
peer_point-ec_point_example = peer_point-ec_point 16 x_bytes y_bytes (omega arith) refl refl
