-- ===== src/Office/Placement/Bounds.antt =====
-- Where desks stand, and the avatars.
use virtual_office_sagara_ag.Prelude.{
  ℕ, ◌+◌, ◌*◌, ◌%◌, ◌^◌, ◌≤◌, ◌<◌, ◌≡◌, ◌≢◌, ap, List, [], ◌∷◌, arith,
}
use virtual_office_sagara_ag.Office.Rooms.{hash_step, hash_codes, abs_int32}
use virtual_office_sagara_ag.Office.Desks.{dev_room, dev_x, dev_y}

-- Two desks of the dev zone stand at different places, and each of the first six stands in the zone,
-- which is 570 wide and 305 high at (415, 40).
dev_room-bounds :
    (i j : ℕ)
    → (i ≢ j → dev_room.desk_position i ≢ dev_room.desk_position j)
      × (i < 6 → (415 ≤ dev_x i × dev_x i ≤ 415 + 570) × (40 ≤ dev_y i × dev_y i ≤ 40 + 305))
dev_room-bounds i j = (
  λ ne e. ne (same (ap (λ p. p.x) e) (ap (λ p. p.y) e)),
  λ h. ((omega arith, omega arith), (omega arith, omega (arith, h))),
)
  where
    same : dev_x i ≡ dev_x j → dev_y i ≡ dev_y j → i ≡ j
    same ex ey = omega (arith, ex, ey)

hash_codes-bounds : (codes : List ℕ) (h : ℕ) → h < 2 ^ 32 → hash_codes h codes < 2 ^ 32
unfolding hash_codes hash_step
hash_codes-bounds [] h b = b
hash_codes-bounds (c ∷ rest) h b = hash_codes-bounds rest ((h * 31 + c) % 2 ^ 32) (omega arith)

-- The hash of an id stays a 32-bit word, and its absolute value is at most 2 ^ 31.
pub abs_int32-hash_codes : (codes : List ℕ) → abs_int32 (hash_codes 0 codes) ≤ 2 ^ 31
unfolding abs_int32
abs_int32-hash_codes codes = ground (arith, hash_codes-bounds codes 0 (omega arith))
