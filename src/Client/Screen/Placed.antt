-- ===== src/Client/Screen/Placed.antt =====
-- Where the cursor of the admin view stands.
use consensus_lab.Base.{
  ℕ, zero, suc, ◌+◌, ◌-◌, ◌≤◌, ◌<◌, ◌≡◌, ◌≢◌, refl, ap, ◌∙◌, ◌||◌, String, str_eq, eq_iff, if_cases,
  some, List, [], ◌∷◌, length, get_elem?, Option-cases, Bool-cases, inl, inr, arith,
}
use consensus_lab.Client.{AdminRow, clamp_int}
use consensus_lab.Client.Screen.{
  AdminModel, new_admin_model, Msg, window_size, tick, rows_polled, key, Cmd, recalc_cols,
  visible_row_count, clamp_scroll, id_at, Move, up, down, moved, move_cursor, index_of,
  selection_gone, restore_selection, update_key, update, updates,
}

-- The cursor stands on the row of the node that is selected, unless there is no row.
abbrev pub IsPlaced : AdminModel → Type 0
IsPlaced m =
    0 < length m.rows → (m.cursor < length m.rows) × (m.selected_id ≡ id_at m.rows m.cursor)

pub clamp_scroll_frame :
    (m : AdminModel)
    → let n = clamp_scroll m in
      (n.rows ≡ m.rows)
      × (n.cursor ≡ m.cursor)
      × (n.selected_id ≡ m.selected_id)
      × (n.height ≡ m.height)
unfolding clamp_scroll
clamp_scroll_frame m = ground arith

-- The cursor is in the window that the view shows.
abbrev pub IsShown : AdminModel → Type 0
IsShown m = (m.scroll_off ≤ m.cursor) × (m.cursor < m.scroll_off + visible_row_count m)

clamp_scroll-IsShown : (m : AdminModel) → IsShown (clamp_scroll m)
unfolding clamp_scroll visible_row_count
clamp_scroll-IsShown m = ground arith

moved_within : (move : Move) (cursor last : ℕ) → moved move cursor last ≤ last
unfolding moved clamp_int
moved_within up cursor last = ground arith
moved_within down cursor last = ground arith

move_cursor-IsPlaced : (move : Move) (m : AdminModel) → IsPlaced m → IsPlaced (move_cursor move m)
unfolding move_cursor
move_cursor-IsPlaced move m good = ground (
  arith,
  good,
  clamp_scroll_frame (record m { cursor = moved move m.cursor (length m.rows - 1) }),
  moved_within move m.cursor (length m.rows - 1),
)

index_of-some :
    (id : String) (rows : List AdminRow) (i : ℕ)
    → index_of id rows ≡ some i
    → (i < length rows) × (id_at rows i ≡ id)
unfolding index_of id_at
index_of-some id [] i e = cc e
index_of-some id (r ∷ rows) i e = elim (Option-cases (index_of id rows)) [
  | inl absent ↦ ground (arith, eq_iff r.node_id id, absent)
  | inr (k, found) ↦ ground (arith, eq_iff r.node_id id, found, index_of-some id rows k found)
]

index_of-found :
    (id : String) (rows : List AdminRow) (k : ℕ) (r : AdminRow)
    → get_elem? rows k ≡ some r
    → r.node_id ≡ id
    → (i : ℕ) × (index_of id rows ≡ some i)
unfolding index_of
index_of-found id [] k r read e = absurd (cc read)
index_of-found id (x ∷ rows) zero r read e =
    let same : x ≡ r = cc read in
    (0, rw ((eq_iff x.node_id id).1 (ap (λ (y : AdminRow). y.node_id) same ∙ e)) refl)
index_of-found id (x ∷ rows) (suc k) r read e =
    let (i, found) = index_of-found id rows k r read e in
    elim (Bool-cases (str_eq x.node_id id)) [
      | inl here ↦ (0, rw here refl)
      | inr other ↦ (suc i, rw (other, found) refl)
    ]

selection_gone-IsPlaced : (m : AdminModel) → IsPlaced (selection_gone m)
unfolding selection_gone
selection_gone-IsPlaced m = ground arith

restore_selection-IsPlaced : (m : AdminModel) → IsPlaced (restore_selection m)
unfolding restore_selection
restore_selection-IsPlaced m = elim (Bool-cases (str_eq m.selected_id "")) [
  | inl blank ↦ ground (arith, blank)
  | inr chosen ↦ elim (Option-cases (index_of m.selected_id m.rows)) [
    | inl gone ↦ rw (chosen, gone) (selection_gone-IsPlaced m)
    | inr (i, found) ↦ ground (
      arith,
      chosen,
      found,
      index_of-some m.selected_id m.rows i found,
      clamp_scroll_frame (record m { cursor = i }),
    )
  ]
]

recalc_cols-IsPlaced : (m : AdminModel) → IsPlaced m → IsPlaced (recalc_cols m)
unfolding recalc_cols
recalc_cols-IsPlaced m good = good

update_key-IsPlaced : (name : String) (m : AdminModel) → IsPlaced m → IsPlaced (update_key name m).0
unfolding update_key
update_key-IsPlaced name m good =
    let Good = λ (r : AdminModel × Cmd). IsPlaced r.0 in
    if_cases Good (str_eq name "ctrl+c" || str_eq name "q") (λ _. good)
      λ _.
        if_cases Good (str_eq name "up" || str_eq name "k") (λ _. move_cursor-IsPlaced up m good)
          λ _.
            if_cases Good (str_eq name "down" || str_eq name "j")
              (λ _. move_cursor-IsPlaced down m good) (λ _. good)

update-IsPlaced : (msg : Msg) (m : AdminModel) → IsPlaced m → IsPlaced (update msg m).0
unfolding update
update-IsPlaced (window_size width height) m good =
    recalc_cols-IsPlaced (record m { width = width; height = height }) good
update-IsPlaced tick m good = good
update-IsPlaced (rows_polled rows) m good =
    restore_selection-IsPlaced (recalc_cols (record m { rows = rows }))
update-IsPlaced (key name) m good = update_key-IsPlaced name m good

updates_keep : (msgs : List Msg) (m : AdminModel) → IsPlaced m → IsPlaced (updates msgs m)
unfolding updates
updates_keep [] m good = good
updates_keep (msg ∷ msgs) m good = updates_keep msgs (update msg m).0 (update-IsPlaced msg m good)

-- Whatever messages the admin view gets from its start on, if it has rows, then the cursor stands
-- on one of them, and the selected id is that row's.
pub updates-IsPlaced : (msgs : List Msg) → IsPlaced (updates msgs new_admin_model)
updates-IsPlaced msgs =
    updates_keep msgs new_admin_model (unfold new_admin_model in λ some_row. absurd (omega arith))

restore_selection-found :
    (m : AdminModel) (i : ℕ)
    → m.selected_id ≢ ""
    → index_of m.selected_id m.rows ≡ some i
    → restore_selection m ≡ clamp_scroll (record m { cursor = i })
unfolding restore_selection
restore_selection-found m i chosen found = elim (Bool-cases (str_eq m.selected_id "")) [
  | inl blank ↦ absurd (chosen ((eq_iff m.selected_id "").0 blank))
  | inr some_id ↦ rw (some_id, found) refl
]

-- A selected node that is in the new rows stays selected: the cursor stands on a row with its id, in the
-- window that the view shows.
pub selection_followed :
    (m : AdminModel) (rows : List AdminRow) (k : ℕ) (r : AdminRow)
    → m.selected_id ≢ ""
    → get_elem? rows k ≡ some r
    → r.node_id ≡ m.selected_id
    → let after = (update (rows_polled rows) m).0 in
      (after.rows ≡ rows)
      × (id_at rows after.cursor ≡ m.selected_id)
      × (after.cursor < length rows)
      × IsShown after
unfolding update recalc_cols
selection_followed m rows k r chosen read own =
    let (i, found) = index_of-found m.selected_id rows k r read own in
    let (within, here) = index_of-some m.selected_id rows i found in
    let n = recalc_cols (record m { rows = rows }) in
    let placed = record n { cursor = i } in
    let (same_rows, at_i, same_id, same_height) = clamp_scroll_frame placed in
    rw (restore_selection-found n i chosen found)
      (same_rows, ap (id_at rows) at_i ∙ here, omega arith, clamp_scroll-IsShown placed)

pub restore_selection-blank :
    (m : AdminModel)
    → m.selected_id ≡ ""
    → 0 < length m.rows
    → ((restore_selection m).cursor ≡ 0) × ((restore_selection m).selected_id ≡ id_at m.rows 0)
unfolding restore_selection
restore_selection-blank m blank some_row = ground (arith, (eq_iff m.selected_id "").1 blank)
