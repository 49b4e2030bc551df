-- ===== src/World/View.antt =====
-- The chunks around a player, and the entity ids that a world hands out.
use rustbound_server.Prelude.{
  ℕ, zero, suc, ◌+◌, ◌*◌, ◌^◌, ◌<◌, ◌≡◌, refl, sym, ap, ◌∙◌, arith, List, [], ◌∷◌, ◌++◌, length,
  length-append, get_elem?, get_elem?-append_left, get_elem?-append_right, some,
}
use rustbound_server.Prelude.Int.{ℤ, pos, ◌+ℤ◌, ◌-ℤ◌}
use rustbound_server.Prelude.Words.{as_i32, as_signed, as_unsigned}
use rustbound_server.Garden.{GardenSpec}
use rustbound_server.World.{
  World, range_from, range_inclusive, chunk_column, chunk_columns, desired_chunks,
  allocate_entity_id, with_garden,
}

length-range_from : (low : ℤ) (n : ℕ) → length (range_from low n) ≡ n
unfolding range_from
length-range_from low zero = refl
length-range_from low (suc n) = ap suc (length-range_from (low +ℤ pos 1) n)

get_elem?-range_from :
    (low : ℤ) (n i : ℕ) → i < n → get_elem? (range_from low n) i ≡ some (low +ℤ pos i)
unfolding range_from ◌+ℤ◌
get_elem?-range_from low zero i h = absurd (omega arith)
get_elem?-range_from low (suc n) zero h = ground arith
get_elem?-range_from low (suc n) (suc i) h =
    get_elem?-range_from (low +ℤ pos 1) n i (omega arith) ∙ ap some (shift low i)
  where
    shift : (low : ℤ) (i : ℕ) → low +ℤ pos 1 +ℤ pos i ≡ low +ℤ pos (suc i)
    shift low i = ground arith

length-chunk_column :
    (x center_z : ℤ) (dzs : List ℤ) → length (chunk_column x center_z dzs) ≡ length dzs
unfolding chunk_column
length-chunk_column x center_z [] = refl
length-chunk_column x center_z (dz ∷ dzs) = ap suc (length-chunk_column x center_z dzs)

length-chunk_columns :
    (center_x center_z : ℤ) (dxs dzs : List ℤ)
    → length (chunk_columns center_x center_z dxs dzs) ≡ length dxs * length dzs
unfolding chunk_columns
length-chunk_columns center_x center_z [] dzs = omega arith
length-chunk_columns center_x center_z (dx ∷ dxs) dzs =
    let column = chunk_column (as_i32 (center_x +ℤ dx)) center_z dzs in
    let others = chunk_columns center_x center_z dxs dzs in
    omega (
      arith,
      length-append column others,
      length-chunk_column (as_i32 (center_x +ℤ dx)) center_z dzs,
      length-chunk_columns center_x center_z dxs dzs,
    )

get_elem?-chunk_column :
    (x center_z dz : ℤ) (dzs : List ℤ) (j : ℕ)
    → get_elem? dzs j ≡ some dz
    → get_elem? (chunk_column x center_z dzs) j
      ≡ some (record { x = x; z = as_i32 (center_z +ℤ dz) })
unfolding chunk_column
get_elem?-chunk_column x center_z dz [] j e = absurd cc
get_elem?-chunk_column x center_z dz (d ∷ dzs) zero e = cc
get_elem?-chunk_column x center_z dz (d ∷ dzs) (suc j) e =
    get_elem?-chunk_column x center_z dz dzs j e

get_elem?-chunk_columns :
    (center_x center_z dx dz : ℤ) (dxs dzs : List ℤ) (i j : ℕ)
    → j < length dzs
    → get_elem? dxs i ≡ some dx
    → get_elem? dzs j ≡ some dz
    → get_elem? (chunk_columns center_x center_z dxs dzs) (i * length dzs + j)
      ≡ some (record { x = as_i32 (center_x +ℤ dx); z = as_i32 (center_z +ℤ dz) })
unfolding chunk_columns
get_elem?-chunk_columns center_x center_z dx dz [] dzs i j h e f = absurd cc
get_elem?-chunk_columns center_x center_z dx dz (d ∷ dxs) dzs zero j h e f =
    let x = as_i32 (center_x +ℤ d) in
    ap (get_elem? (chunk_column x center_z dzs ++ chunk_columns center_x center_z dxs dzs))
      (omega arith)
    ∙ get_elem?-append_left (chunk_column x center_z dzs) (chunk_columns center_x center_z dxs dzs)
        j (omega (arith, length-chunk_column x center_z dzs))
    ∙ get_elem?-chunk_column x center_z dz dzs j f
    ∙ cc
get_elem?-chunk_columns center_x center_z dx dz (d ∷ dxs) dzs (suc i) j h e f =
    let x = as_i32 (center_x +ℤ d) in
    let column = chunk_column x center_z dzs in
    let others = chunk_columns center_x center_z dxs dzs in
    let split : suc i * length dzs + j ≡ length column + (i * length dzs + j) =
      omega (arith, length-chunk_column x center_z dzs) in
    ap (get_elem? (column ++ others)) split
    ∙ get_elem?-append_right column others (i * length dzs + j)
    ∙ get_elem?-chunk_columns center_x center_z dx dz dxs dzs i j h e f

square_count : (r : ℕ) → length (range_inclusive (pos 0 -ℤ pos r) (pos r)) ≡ 2 * r + 1
unfolding range_inclusive ◌-ℤ◌ ◌+ℤ◌
square_count r = length-range_from (pos 0 -ℤ pos r) _ ∙ ground arith

square_elem :
    (r i : ℕ)
    → i < 2 * r + 1
    → get_elem? (range_inclusive (pos 0 -ℤ pos r) (pos r)) i ≡ some (pos i -ℤ pos r)
unfolding range_inclusive ◌-ℤ◌ ◌+ℤ◌
square_elem r i h =
    get_elem?-range_from (pos 0 -ℤ pos r) _ i (ground arith) ∙ ap some (ground arith)

-- `desired_chunks` lists the whole square around its centre, each chunk in its place: (2r + 1)² of
-- them, x by x, the one at offsets i and j from the corner in place i(2r + 1) + j.
pub desired_chunks_square :
    (center_x center_z : ℤ) (r i j : ℕ)
    → i < 2 * r + 1
    → j < 2 * r + 1
    → (length (desired_chunks center_x center_z (pos r)) ≡ (2 * r + 1) * (2 * r + 1))
      × (get_elem? (desired_chunks center_x center_z (pos r)) (i * (2 * r + 1) + j)
          ≡ some (record {
            x = as_i32 (center_x +ℤ (pos i -ℤ pos r));
            z = as_i32 (center_z +ℤ (pos j -ℤ pos r));
          }))
unfolding desired_chunks
desired_chunks_square center_x center_z r i j hi hj =
    let square = range_inclusive (pos 0 -ℤ pos r) (pos r) in
    (
      rw (length-chunk_columns center_x center_z square square, square_count r),
      ap (λ n. get_elem? (chunk_columns center_x center_z square square) (i * n + j))
            (sym (square_count r))
          ∙ get_elem?-chunk_columns center_x center_z (pos i -ℤ pos r) (pos j -ℤ pos r) square
              square i j (omega (arith, square_count r)) (square_elem r i hi) (square_elem r j hj),
    )

-- The world behind n allocations.
unfoldable pub allocations : ℕ → World → World
allocations zero w = w
allocations (suc n) w = allocations n (allocate_entity_id w).1

allocations_from :
    (n m : ℕ) (w : World)
    → w.next_entity_id ≡ pos m
    → n + m < 2 ^ 31
    → (allocate_entity_id (allocations n w)).0 ≡ pos (n + m)
unfolding allocations allocate_entity_id as_i32 as_signed as_unsigned ◌+ℤ◌
allocations_from zero m w e h = e ∙ ap pos (omega arith)
allocations_from (suc n) m w e h =
    allocations_from n (suc m) (allocate_entity_id w).1 (ground arith) (omega arith)
    ∙ ap pos (omega arith)

-- A new world hands out the entity ids 1, 2, 3, … in this order, up to the largest i32.
pub allocate_entity_id_counts :
    (garden : GardenSpec) (n : ℕ)
    → n + 1 < 2 ^ 31
    → (allocate_entity_id (allocations n (with_garden garden))).0 ≡ pos (n + 1)
unfolding with_garden
allocate_entity_id_counts garden n h = allocations_from n 1 (with_garden garden) refl h
