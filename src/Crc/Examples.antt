-- ===== src/Crc/Examples.antt =====
-- A stored byte that has changed.
use cnc_3d.Common.{◌≢◌, arith, [], ◌∷◌, ◌++◌}
use cnc_3d.Crc.{grbl_crc8}
use cnc_3d.Crc.Detect.{grbl_crc8_lem}

grbl_crc8_lem_example :
    grbl_crc8 ((1 ∷ (200 ∷ [])) ++ (7 ∷ (255 ∷ [])))
    ≢ grbl_crc8 ((1 ∷ (200 ∷ [])) ++ (135 ∷ (255 ∷ [])))
grbl_crc8_lem_example =
    grbl_crc8_lem (1 ∷ (200 ∷ [])) (255 ∷ []) 7 135 (omega arith) (omega arith) (omega arith, tt)
      (λ e. absurd (omega arith))
