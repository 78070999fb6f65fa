-- ===== src/Client/Cells/Lines.antt =====
-- The lines of the table are as wide as its columns.
use consensus_lab.Base.{
  ℕ, ◌+◌, ◌≤◌, ◌<◌, ◌≡◌, refl, String, str_eq, Bool, true, false, if◌then◌else◌, if_cases, List, [],
  ◌∷◌, ◌++◌, count, length, arith, eq_iff,
}
use text.Mathlib.TextLemmas.{length-append}
use consensus_lab.Client.{AdminRow, shorten, header_label}
use consensus_lab.Client.Columns.{
  AdminColWidths, variable_width, fixed_width, admin_columns_for_width,
}
use consensus_lab.Client.Columns.Fit.{AreLeast, columns_fit}
use consensus_lab.Client.Cells.{
  Span, pad_right, pad_left, text_cell, render_status_dot, render_node_cell, render_role_cell,
  render_leader_cell, render_cfg_cell, spaced, error_cells, node_cells, make_table_row,
  header_cells, header_line, text_of, render_header,
}
use consensus_lab.Client.Cells.Width.{
  count-pad_right, count-pad_left, count-shorten, count-header_label,
}

-- the number of the characters of a line
unfoldable pub shown : List Span → ℕ
shown [] = 0
shown ((style, s) ∷ line) = count s + shown line

shown-append : (xs ys : List Span) → shown (xs ++ ys) ≡ shown xs + shown ys
unfolding shown
shown-append [] ys = omega arith
shown-append ((style, s) ∷ xs) ys = omega (arith, shown-append xs ys)

shown-spaced : (cells : List Span) → shown (spaced cells) ≡ length cells + shown cells
unfolding shown spaced
shown-spaced [] = refl
shown-spaced ((style, s) ∷ cells) = omega (arith, shown-spaced cells)

shown-dot :
    (status err : String) (selected : Bool) → shown (render_status_dot status err selected) ≡ 2
unfolding render_status_dot shown
shown-dot status err selected = ground arith

count-text_cell : (s : String) (width : ℕ) → 0 < width → count (text_cell s width) ≡ width
count-text_cell s width pos = count-pad_right width (shorten s width) (count-shorten s width pos)

node_cell :
    (s : String) (width : ℕ) (role : String)
    → 0 < width
    → count (render_node_cell s width role).1 ≡ width
unfolding render_node_cell
node_cell s width role pos = ground (arith, count-text_cell s width pos)

role_cell :
    (s : String) (width : ℕ) (role : String)
    → 0 < width
    → count (render_role_cell s width role).1 ≡ width
unfolding render_role_cell
role_cell s width role pos = ground (arith, count-text_cell s width pos)

leader_cell :
    (s : String) (width : ℕ) (role : String)
    → 0 < width
    → count (render_leader_cell s width role).1 ≡ width
unfolding render_leader_cell
leader_cell s width role pos = ground (arith, count-text_cell s width pos)

cfg_cell :
    (trim : String → String) (s : String) (width : ℕ)
    → 0 < width
    → count (render_cfg_cell trim s width).1 ≡ width
unfolding render_cfg_cell
cfg_cell trim s width pos = ground (arith, count-text_cell s width pos)

-- the width of the cells, without the dot and the spaces
abbrev cells_width : AdminColWidths → Bool → ℕ
cells_width c show_aat = variable_width c + (if show_aat then 35 else 27)

abbrev columns : Bool → ℕ
columns show_aat = if show_aat then 11 else 10

abbrev Fills : List Span → AdminColWidths → Bool → Type 0
Fills cells c show_aat = (length cells ≡ columns show_aat) × (shown cells ≡ cells_width c show_aat)

-- The numbers of a row are no wider than their columns.
abbrev pub NumbersFit : (ℕ → String) → AdminRow → Type 0
NumbersFit digits r =
    (count (digits r.term) ≤ 4)
    × (count (digits r.commit) ≤ 5)
    × (count (digits r.applied) ≤ 5)
    × (count (digits r.last_log) ≤ 5)
    × (count (digits r.snapshot) ≤ 5)

-- A header label in its column, and a dash.
label_cell :
    (label : String) (width : ℕ)
    → 0 < width
    → count (pad_right width (header_label label width)) ≡ width
label_cell label width pos =
    count-pad_right width (header_label label width) (count-header_label label width pos)

dash_right : (width : ℕ) → 1 ≤ width → count (pad_right width "-") ≡ width
dash_right width h = count-pad_right width "-" h

dash_left : (width : ℕ) → 1 ≤ width → count (pad_left width "-") ≡ width
dash_left width h = count-pad_left width "-" h

module _ (c : AdminColWidths) (least : AreLeast c) where
  error_cells-Fills : (r : AdminRow) (show_aat : Bool) → Fills (error_cells r c show_aat) c show_aat
  unfolding error_cells shown
  error_cells-Fills r show_aat = ground (
    arith,
    count-text_cell r.addr c.addr (omega arith),
    dash_right c.node (omega arith),
    dash_right c.role (omega arith),
    dash_right c.leader (omega arith),
    dash_left 4 (omega arith),
    dash_left 5 (omega arith),
    dash_right 8 (omega arith),
    dash_right 3 (omega arith),
  )

  node_cells-Fills :
      (digits : ℕ → String) (trim : String → String) (r : AdminRow) (show_aat : Bool)
      → NumbersFit digits r
      → Fills (node_cells digits trim r c show_aat) c show_aat
  unfolding node_cells shown
  node_cells-Fills digits trim r show_aat fit = ground (
    arith,
    count-text_cell r.addr c.addr (omega arith),
    node_cell r.node_id c.node r.role (omega arith),
    role_cell r.role c.role r.role (omega arith),
    leader_cell r.leader_id c.leader r.role (omega arith),
    count-pad_left 4 (digits r.term) fit.0,
    count-pad_left 5 (digits r.commit) fit.1,
    count-pad_left 5 (digits r.applied) fit.2,
    count-pad_left 5 (digits r.last_log) fit.3,
    count-pad_left 5 (digits r.snapshot) fit.4,
    count-text_cell r.last_applied_at 8 (omega arith),
    cfg_cell trim r.cfg 3 (omega arith),
  )

  header_cells-Fills : (show_aat : Bool) → Fills (header_cells c show_aat) c show_aat
  unfolding header_cells shown
  header_cells-Fills show_aat = ground (
    arith,
    label_cell "ADDR" c.addr (omega arith),
    label_cell "NODE" c.node (omega arith),
    label_cell "ROLE" c.role (omega arith),
    label_cell "LEADER" c.leader (omega arith),
    count-pad_left 4 "TERM" (omega arith),
    count-pad_left 5 "CMT" (omega arith),
    count-pad_left 5 "APL" (omega arith),
    count-pad_left 5 "LOG" (omega arith),
    count-pad_left 5 "SNAP" (omega arith),
    count-pad_right 8 "A_AT" (omega arith),
    count-pad_right 3 "CFG" (omega arith),
  )

  spaced-Fills :
      (cells : List Span) (show_aat : Bool)
      → Fills cells c show_aat
      → shown (spaced cells) + 2 ≡ fixed_width show_aat + variable_width c
  spaced-Fills cells true fills = omega (arith, shown-spaced cells, fills)
  spaced-Fills cells false fills = omega (arith, shown-spaced cells, fills)

  shown-header_line :
      (show_aat : Bool) → shown (header_line c show_aat) ≡ fixed_width show_aat + variable_width c
  unfolding header_line shown
  shown-header_line show_aat = omega (
    arith,
    spaced-Fills (header_cells c show_aat) show_aat (header_cells-Fills show_aat),
    count-pad_right 2 "ST" (omega arith),
  )

  shown-make_table_row :
      (digits : ℕ → String) (trim : String → String) (r : AdminRow) (show_aat selected : Bool)
      → (r.err ≡ "" → NumbersFit digits r)
      → shown (make_table_row digits trim r c show_aat selected)
        ≡ fixed_width show_aat + variable_width c
  unfolding make_table_row
  shown-make_table_row digits trim r show_aat selected fit =
      let dot = render_status_dot r.status r.err selected in
      let cells =
        if str_eq r.err "" then node_cells digits trim r c show_aat else error_cells r c show_aat in
      let fills =
        if_cases (λ x. Fills x c show_aat) (str_eq r.err "")
          (λ e. node_cells-Fills digits trim r show_aat (fit ((eq_iff r.err "").0 e)))
          (λ e. error_cells-Fills r show_aat) in
      omega (
        arith,
        shown-append dot (spaced cells),
        shown-dot r.status r.err selected,
        spaced-Fills cells show_aat fills,
      )

count-text_of : (line : List Span) → count (text_of line) ≡ shown line
unfolding text_of shown
count-text_of [] = refl
count-text_of ((style, s) ∷ line) =
    omega (arith, length-append s (text_of line), count-text_of line)

-- On a terminal with room for at least 55 characters, each row of the admin view's table is as wide
-- as the header's text and no wider than that room, provided the numbers of the row, if its node
-- answers, are no wider than their columns; and the header, with its style, is exactly as wide as
-- the room, provided the style fills a text that is no wider up to its width.
pub table_fits :
    (digits : ℕ → String) (trim : String → String) (fill : ℕ → String → String)
    (rows : List AdminRow) (r : AdminRow) (w : ℕ) (selected : Bool)
    → ((width : ℕ) (s : String) → count s ≤ width → count (fill width s) ≡ width)
    → 55 ≤ w
    → (r.err ≡ "" → NumbersFit digits r)
    → let (c, show_aat) = admin_columns_for_width rows w in
      (shown (make_table_row digits trim r c show_aat selected) ≡ shown (header_line c show_aat))
      × (shown (make_table_row digits trim r c show_aat selected) ≤ w)
      × (count (render_header fill c show_aat w) ≡ w)
unfolding render_header
table_fits digits trim fill rows r w selected filled wide fit =
    let (c, show_aat) = admin_columns_for_width rows w in
    let (least, fits) = columns_fit rows w wide in
    let row = shown-make_table_row c least digits trim r show_aat selected fit in
    let line = shown-header_line c least show_aat in
    let within : count (text_of (header_line c show_aat)) ≤ w =
      omega (arith, count-text_of (header_line c show_aat), line, fits) in
    (
      omega (arith, row, line),
      omega (arith, row, fits),
      filled w (text_of (header_line c show_aat)) within,
    )
