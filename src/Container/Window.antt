-- ===== src/Container/Window.antt =====
-- The window of an open chest: what a write to a window slot shows.
use rustbound_server.Prelude.{
  ℕ, zero, suc, ◌+◌, ◌-◌, ◌≤◌, ◌<◌, ◌≡◌, ◌⊎◌, refl, ap, ◌∙◌, arith, List, ◌++◌, length, set, get_or,
  get_elem?, get_elem?-append_left, get_elem?-append_right, get_elem?-set_self, get_elem?-set_ne,
  get_or-set_self, get_or-set_ne, length-set, Option, some, ◌==◌, if◌then◌else◌, inl, inr,
}
use rustbound_server.Prelude.Int.{pos}
use rustbound_server.Container.{
  Slot, empty, chest_slot_count, chest_window_slot_count, is_chest_window_slot,
  window_slot_to_player_slot, player_slots, build_chest_window_slots, apply_player_slot,
  apply_window_slot,
}

length-player_slots : (player : List Slot) (s n : ℕ) → length (player_slots player s n) ≡ n
unfolding player_slots
length-player_slots player s zero = refl
length-player_slots player s (suc n) = ap suc (length-player_slots player (s + 1) n)

get_elem?-player_slots :
    (player : List Slot) (s n i : ℕ)
    → i < n
    → get_elem? (player_slots player s n) i ≡ some (get_or player (s + i) empty)
unfolding player_slots
get_elem?-player_slots player s zero i h = absurd (omega arith)
get_elem?-player_slots player s (suc n) zero h =
    ap (λ k. some (get_or player k empty)) (omega arith)
get_elem?-player_slots player s (suc n) (suc i) h =
    get_elem?-player_slots player (s + 1) n i (omega arith)
    ∙ ap (λ k. some (get_or player k empty)) (omega arith)

-- What stands at a window slot behind the chest.
window_player :
    (chest player : List Slot) (v k : ℕ)
    → length chest ≡ chest_slot_count
    → window_slot_to_player_slot (pos v) ≡ some k
    → get_elem? (build_chest_window_slots chest player) v ≡ some (get_or player k empty)
unfolding build_chest_window_slots window_slot_to_player_slot
window_player chest player v k h e =
    let side : (v < 54) ⊎ (54 ≤ v) = omega arith in
    elim side [
      | inl main ↦
          let at_main : v ≡ length chest + (v - 27) = ground arith in
          let offset : 9 + (v - 27) ≡ k = ground arith in
          ap (get_elem? (chest ++ (player_slots player 9 27 ++ player_slots player 0 9))) at_main
          ∙ get_elem?-append_right chest (player_slots player 9 27 ++ player_slots player 0 9)
              (v - 27)
          ∙ get_elem?-append_left (player_slots player 9 27) (player_slots player 0 9) (v - 27)
              (omega (arith, length-player_slots player 9 27))
          ∙ get_elem?-player_slots player 9 27 (v - 27) (omega arith)
          ∙ ap (λ i. some (get_or player i empty)) offset
      | inr hotbar ↦
          let main = player_slots player 9 27 in
          let at_hotbar : v ≡ length chest + (length main + (v - 54)) =
            omega (arith, length-player_slots player 9 27) in
          let offset : 0 + (v - 54) ≡ k = ground arith in
          let short : v - 54 < 9 = ground arith in
          ap (get_elem? (chest ++ (main ++ player_slots player 0 9))) at_hotbar
          ∙ get_elem?-append_right chest (main ++ player_slots player 0 9) (length main + (v - 54))
          ∙ get_elem?-append_right main (player_slots player 0 9) (v - 54)
          ∙ get_elem?-player_slots player 0 9 (v - 54) short
          ∙ ap (λ i. some (get_or player i empty)) offset
    ]

-- The window's slots are the chest's 27 and then the player's, each once.
window_slot-cases :
    (v : ℕ)
    → v < chest_window_slot_count
    → (v < chest_slot_count) ⊎ ((k : ℕ) × (window_slot_to_player_slot (pos v) ≡ some k) × (k < 36))
unfolding window_slot_to_player_slot
window_slot-cases v h =
    let side : (v < 27) ⊎ ((27 ≤ v) × (v < 54)) ⊎ (54 ≤ v) = omega arith in
    elim side [
      | inl c ↦ inl c
      | inr (inl c) ↦ inr (v - 27 + 9, ground arith, omega arith)
      | inr (inr c) ↦ inr (v - 54, ground arith, omega arith)
    ]

window_slot_injective :
    (v w k : ℕ)
    → window_slot_to_player_slot (pos v) ≡ some k
    → window_slot_to_player_slot (pos w) ≡ some k
    → v ≡ w
unfolding window_slot_to_player_slot
window_slot_injective v w k e f = ground arith

player_slot_behind : (v k : ℕ) → window_slot_to_player_slot (pos v) ≡ some k → chest_slot_count ≤ v
unfolding window_slot_to_player_slot
player_slot_behind v k e = ground arith

chest_side :
    (chest player : List Slot) (v : ℕ)
    → length chest ≡ chest_slot_count
    → v < chest_slot_count
    → get_elem? (build_chest_window_slots chest player) v ≡ get_elem? chest v
unfolding build_chest_window_slots
chest_side chest player v h g = get_elem?-append_left chest _ v (omega arith)

apply_chest_side :
    (chest player : List Slot) (w : ℕ) (slot : Slot)
    → w < chest_slot_count
    → apply_window_slot chest player (pos w) slot ≡ (set chest w slot, player)
unfolding apply_window_slot is_chest_window_slot
apply_chest_side chest player w slot h = ground arith

apply_player_side :
    (chest player : List Slot) (w k : ℕ) (slot : Slot)
    → window_slot_to_player_slot (pos w) ≡ some k
    → k < length player
    → apply_window_slot chest player (pos w) slot ≡ (chest, set player k slot)
unfolding apply_window_slot is_chest_window_slot window_slot_to_player_slot apply_player_slot
apply_player_side chest player w k slot e h = ground arith

-- What the window shows at a slot behind a write to a slot.
abbrev pub shown : List Slot → List Slot → ℕ → Slot → ℕ → Option Slot
shown chest player w slot v =
    let applied = apply_window_slot chest player (pos w) slot in
    get_elem? (build_chest_window_slots (applied.0) (applied.1)) v

-- With a full chest and the player's 36 slots, a write to a slot of the window shows at that slot and
-- changes what no other slot of the window shows.
pub build-apply_window_slot :
    (chest player : List Slot) (w v : ℕ) (slot : Slot)
    → length chest ≡ chest_slot_count
    → 36 ≤ length player
    → w < chest_window_slot_count
    → v < chest_window_slot_count
    → shown chest player w slot v
      ≡ (if v == w then some slot else get_elem? (build_chest_window_slots chest player) v)
build-apply_window_slot chest player w v slot h g hw hv = elim (window_slot-cases w hw) [
  | inl cw ↦ elim (window_slot-cases v hv) [
    | inl cv ↦ rw (apply_chest_side chest player w slot cw) (
        chest_side (set chest w slot) player v (length-set chest w slot ∙ h) cv
        ∙ ground (
          arith,
          chest_side chest player v h cv,
          get_elem?-set_self chest w slot,
          get_elem?-set_ne chest {i = w} {j = v} slot,
        ))
    | inr (k, e, kv) ↦ rw (apply_chest_side chest player w slot cw) (
        window_player (set chest w slot) player v k (length-set chest w slot ∙ h) e
        ∙ ground (arith, window_player chest player v k h e, player_slot_behind v k e))
  ]
  | inr (i, f, kw) ↦ elim (window_slot-cases v hv) [
    | inl cv ↦ rw (apply_player_side chest player w i slot f (omega arith)) (
        chest_side chest (set player i slot) v h cv
        ∙ ground (arith, chest_side chest player v h cv, player_slot_behind w i f))
    | inr (k, e, kv) ↦ rw (apply_player_side chest player w i slot f (omega arith)) (
        window_player chest (set player i slot) v k h e
        ∙ ground (
          arith,
          window_player chest player v k h e,
          window_slot_injective v w i,
          e,
          f,
          get_or-set_self player i slot empty (omega arith),
          get_or-set_ne player {i = i} {j = k} slot empty,
        ))
  ]
]
