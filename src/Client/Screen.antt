-- ===== src/Client/Screen.antt =====
-- The model of the admin view, `adminModel` of cmd/client/admin.go, with its messages. The time of the
-- last answers and the connections are left out. The answers of a poll come in a message.
pub mod Placed
pub mod Unreachable
use consensus_lab.Base.{
  ℕ, zero, suc, ◌+◌, ◌-◌, min, max, ltb, leb, ◌==◌, String, str_eq, Bool, true, false, ◌||◌,
  if◌then◌else◌, Option, none, some, List, [], ◌∷◌, length, take, drop, get_elem?,
}
use consensus_lab.Client.{AdminRow, clamp_int, shorten}
use consensus_lab.Client.Columns.{AdminColWidths, admin_columns_for_width}

pub record AdminModel : Type 0 where
  pub rows : List AdminRow
  pub width : ℕ
  pub height : ℕ
  pub cursor : ℕ
  pub scroll_off : ℕ
  pub selected_id : String
  pub show_aat : Bool
  pub cols : AdminColWidths

unfoldable pub new_admin_model : AdminModel
new_admin_model = record {
  rows = [];
  width = 120;
  height = 40;
  cursor = 0;
  scroll_off = 0;
  selected_id = "";
  show_aat = false;
  cols = record { addr = 0; node = 0; role = 0; leader = 0 };
}

pub data Msg : Type 0 where
  window_size : ℕ → ℕ → Msg
  tick : Msg
  rows_polled : List AdminRow → Msg
  key : String → Msg

-- what is to run next
pub data Cmd : Type 0 where
  nothing poll tick_later quit : Cmd

unfoldable pub content_width : AdminModel → ℕ
content_width m = if leb m.width 2 then 80 else m.width - 2

unfoldable pub recalc_cols : AdminModel → AdminModel
unfolding content_width
recalc_cols m =
    let (cols, show_aat) = admin_columns_for_width m.rows (content_width m) in
    record m { cols = cols; show_aat = show_aat }

unfoldable pub visible_row_count : AdminModel → ℕ
visible_row_count m = max 2 (m.height - 9)

unfoldable pub clamp_scroll : AdminModel → AdminModel
unfolding visible_row_count
clamp_scroll m =
    if ltb m.cursor m.scroll_off
    then record m { scroll_off = m.cursor }
    else if leb (m.scroll_off + visible_row_count m) m.cursor
    then record m { scroll_off = m.cursor - visible_row_count m + 1 }
    else m

abbrev pub id_of : Option AdminRow → String
id_of none = ""
id_of (some r) = r.node_id

-- `rows[cursor].nodeID`; the code indexes only inside the rows, which Placed shows
unfoldable pub id_at : List AdminRow → ℕ → String
id_at rows i = id_of (get_elem? rows i)

-- A step up or down, for a `delta` of -1 or 1.
pub data Move : Type 0 where
  up down : Move

unfoldable pub moved : Move → ℕ → ℕ → ℕ
unfolding clamp_int
moved up cursor last = clamp_int (cursor - 1) 0 last
moved down cursor last = clamp_int (cursor + 1) 0 last

unfoldable pub move_cursor : Move → AdminModel → AdminModel
unfolding moved clamp_scroll id_at
move_cursor move m =
    if length m.rows == 0
    then m
    else let n = clamp_scroll (record m { cursor = moved move m.cursor (length m.rows - 1) }) in
      record n { selected_id = id_at n.rows n.cursor }

-- the first row with an id
unfoldable pub index_of : String → List AdminRow → Option ℕ
index_of id [] = none
index_of id (r ∷ rows) =
    let rest = index_of id rows in
    if str_eq r.node_id id then some 0 else elim rest [ none ↦ none | some i ↦ some (suc i) ]

-- the selected node is not in the new rows
unfoldable pub selection_gone : AdminModel → AdminModel
unfolding id_at
selection_gone m =
    let n = if leb (length m.rows) m.cursor then record m { cursor = length m.rows - 1 } else m in
    if length n.rows == 0 then n else record n { selected_id = id_at n.rows n.cursor }

unfoldable pub restore_selection : AdminModel → AdminModel
unfolding index_of clamp_scroll selection_gone id_at
restore_selection m =
    if str_eq m.selected_id ""
    then (if length m.rows == 0 then m else record m { cursor = 0; selected_id = id_at m.rows 0 })
    else elim (index_of m.selected_id m.rows) [
      | some i ↦ clamp_scroll (record m { cursor = i })
      | none ↦ selection_gone m
    ]

unfoldable pub update_key : String → AdminModel → AdminModel × Cmd
unfolding move_cursor
update_key name m =
    if str_eq name "ctrl+c" || str_eq name "q"
    then (m, quit)
    else if str_eq name "up" || str_eq name "k"
    then (move_cursor up m, nothing)
    else if str_eq name "down" || str_eq name "j"
    then (move_cursor down m, nothing)
    else (m, nothing)

unfoldable pub update : Msg → AdminModel → AdminModel × Cmd
unfolding recalc_cols restore_selection update_key
update (window_size width height) m =
    (recalc_cols (record m { width = width; height = height }), nothing)
update tick m = (m, poll)
update (rows_polled rows) m =
    (restore_selection (recalc_cols (record m { rows = rows })), tick_later)
update (key name) m = update_key name m

unfoldable pub updates : List Msg → AdminModel → AdminModel
unfolding update
updates [] m = m
updates (msg ∷ msgs) m = updates msgs (update msg m).0

-- the rows that the view shows, from the scroll offset on
unfoldable pub visible_rows : AdminModel → List AdminRow
unfolding visible_row_count
visible_rows m =
    let end = min (m.scroll_off + visible_row_count m) (length m.rows) in
    take (end - m.scroll_off) (drop m.scroll_off m.rows)

-- the pane below the table, for the row at the cursor
unfoldable pub peers_pane : AdminModel → String
unfolding content_width
peers_pane m =
    let shown : String = elim (get_elem? m.rows m.cursor) [
      | none ↦ "-"
      | some r ↦ if str_eq r.peers "" then "-" else r.peers
    ] in
    shorten shown (max 10 (content_width m - 12))
