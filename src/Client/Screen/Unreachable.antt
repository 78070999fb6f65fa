-- ===== src/Client/Screen/Unreachable.antt =====
-- The cursor on the row of a node that cannot be reached.
use consensus_lab.Base.{
  ℕ, zero, suc, ◌+◌, ◌-◌, ◌<◌, ◌≡◌, refl, ap, ◌∙◌, String, inl, some, List, [], ◌∷◌, length,
  get_elem?, get_elem?-lt, arith,
}
use consensus_lab.Client.{AdminRow, clamp_int}
use consensus_lab.Client.Poll.{Formats, poll_row}
use consensus_lab.Client.Screen.{
  AdminModel, new_admin_model, Msg, rows_polled, key, recalc_cols, id_of, id_at, down, moved,
  move_cursor, restore_selection, update_key, update, updates,
}
use consensus_lab.Client.Screen.Placed.{
  clamp_scroll_frame, restore_selection-blank, updates-IsPlaced,
}

-- the key is pressed `n` times
unfoldable pub downs : ℕ → List Msg
downs zero = []
downs (suc n) = key "down" ∷ downs n

move_down :
    (m : AdminModel)
    → m.cursor + 1 < length m.rows
    → let n = move_cursor down m in (n.rows ≡ m.rows) × (n.cursor ≡ m.cursor + 1)
unfolding move_cursor moved clamp_int
move_down m more =
    ground
      (arith, clamp_scroll_frame (record m { cursor = moved down m.cursor (length m.rows - 1) }))

move_downs :
    (k : ℕ) (m : AdminModel)
    → m.cursor + k < length m.rows
    → let n = updates (downs k) m in (n.rows ≡ m.rows) × (n.cursor ≡ m.cursor + k)
unfolding updates downs update update_key
move_downs zero m more = (refl, omega arith)
move_downs (suc k) m more =
    let (rows, cursor) = move_down m (omega arith) in
    let (rows', cursor') =
      move_downs k (move_cursor down m) (omega (arith, cursor, ap length rows)) in
    (rows' ∙ rows, omega (arith, cursor, cursor'))

first_poll :
    (rows : List AdminRow)
    → 0 < length rows
    → let n = (update (rows_polled rows) new_admin_model).0 in (n.rows ≡ rows) × (n.cursor ≡ 0)
unfolding update recalc_cols restore_selection new_admin_model
first_poll rows more = ground arith

id_unreachable :
    (rows : List AdminRow) (k : ℕ) (f : Formats) (addr err : String)
    → get_elem? rows k ≡ some (poll_row f addr (inl err))
    → id_at rows k ≡ ""
unfolding id_at poll_row
id_unreachable rows k f addr err read = ap id_of read

-- The admin view starts and gets rows, one of which is that of a node that could not be reached,
-- and the cursor is moved down onto it. The cursor stands on that row, and the next rows, if there
-- are any, take it away to the first one, also if they are the same rows.
pub unreachable_deselected :
    (f : Formats) (rows again : List AdminRow) (k : ℕ) (addr err : String)
    → get_elem? rows k ≡ some (poll_row f addr (inl err))
    → 0 < length again
    → let on = updates (rows_polled rows ∷ downs k) new_admin_model in
      (on.cursor ≡ k)
      × (get_elem? on.rows on.cursor ≡ some (poll_row f addr (inl err)))
      × ((update (rows_polled again) on).0.cursor ≡ 0)
unfolding updates update recalc_cols
unreachable_deselected f rows again k addr err read more =
    let inside = get_elem?-lt rows k (poll_row f addr (inl err)) read in
    let (rows', cursor') = first_poll rows (omega (arith, inside)) in
    let start = (update (rows_polled rows) new_admin_model).0 in
    let on = updates (downs k) start in
    let (same, at_k) = move_downs k start (omega (arith, inside, cursor', ap length rows')) in
    let own : on.rows ≡ rows = same ∙ rows' in
    let here : on.cursor ≡ k = omega (arith, at_k, cursor') in
    let placed =
      updates-IsPlaced (rows_polled rows ∷ downs k) (omega (arith, inside, ap length own)) in
    let blank : on.selected_id ≡ "" =
      placed.1
      ∙ ap (λ (r : List AdminRow). id_at r on.cursor) own
      ∙ ap (id_at rows) here
      ∙ id_unreachable rows k f addr err read in
    (
      here,
      rw (own, here) read,
      (restore_selection-blank (recalc_cols (record on { rows = again })) blank more).0,
    )
