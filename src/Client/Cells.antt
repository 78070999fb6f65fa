-- ===== src/Client/Cells.antt =====
-- The lines of the admin view's table, as texts with styles: cmd/client/admin.go. How a style is
-- drawn is left to the terminal; `digits` writes a number as `%d` does.

pub mod Width
pub mod Lines
use consensus_lab.Base.{
  ℕ, ◌+◌, ◌-◌, zero, suc, String, str_eq, Bool, if◌then◌else◌, Option, none, some, List, [], ◌∷◌,
  ◌++◌ as append, count,
}
use consensus_lab.Client.{AdminRow, shorten, header_label}
use consensus_lab.Client.Columns.{AdminColWidths}
use Prim.Native.String.{◌++◌}

-- the fields of `uiStyles` that the table uses
pub data Style : Type 0 where
  dot_healthy dot_degraded dot_unavail dot_unknown dot_selected : Style
  addr node_lead role_leader role_cand role_follow leader_self leader_other leader_none : Style
  term_val metric time_val cfg_val : Style

-- a text with its style, if it has one
abbrev pub Span : Type 0
Span = Option Style × String

abbrev pub plain : String → Span
plain s = (none, s)

abbrev pub styled : Style → String → Span
styled style s = (some style, s)

unfoldable pub spaces : ℕ → String
spaces zero = ""
spaces (suc n) = " " ++ spaces n

-- `%-*s` and `%*s`
unfoldable pub pad_right : ℕ → String → String
unfolding spaces
pad_right width s = s ++ spaces (width - count s)

unfoldable pub pad_left : ℕ → String → String
unfolding spaces
pad_left width s = spaces (width - count s) ++ s

abbrev pub text_cell : String → ℕ → String
text_cell s width = pad_right width (shorten s width)

unfoldable pub render_status_dot : String → String → Bool → List Span
render_status_dot status err selected =
    if selected
    then styled dot_selected "▶" ∷ plain " " ∷ []
    else if str_eq err ""
    then (if str_eq status "healthy"
        then styled dot_healthy "●" ∷ plain " " ∷ []
        else if str_eq status "degraded"
        then styled dot_degraded "●" ∷ plain " " ∷ []
        else if str_eq status "unavailable"
        then styled dot_unavail "●" ∷ plain " " ∷ []
        else styled dot_unknown "·" ∷ plain " " ∷ [])
    else styled dot_unavail "●" ∷ plain " " ∷ []

unfoldable pub render_node_cell : String → ℕ → String → Span
render_node_cell s width role =
    if str_eq role "leader" then styled node_lead (text_cell s width) else plain (text_cell s width)

unfoldable pub render_role_cell : String → ℕ → String → Span
render_role_cell s width role =
    if str_eq role "leader"
    then styled role_leader (text_cell s width)
    else if str_eq role "candidate"
    then styled role_cand (text_cell s width)
    else if str_eq role "follower"
    then styled role_follow (text_cell s width)
    else plain (text_cell s width)

unfoldable pub render_leader_cell : String → ℕ → String → Span
render_leader_cell s width role =
    if str_eq s ""
    then styled leader_none (text_cell s width)
    else if str_eq role "leader"
    then styled leader_self (text_cell s width)
    else styled leader_other (text_cell s width)

module _ (trim_space : String → String) where
  unfoldable pub render_cfg_cell : String → ℕ → Span
  render_cfg_cell s width =
      if str_eq (trim_space s) ""
      then plain (text_cell s width)
      else styled cfg_val (text_cell s width)

-- the cells of a line with a space before each
unfoldable pub spaced : List Span → List Span
spaced [] = []
spaced (c ∷ cells) = plain " " ∷ c ∷ spaced cells

-- The line of a node that cannot be reached, without its dot.
unfoldable pub error_cells : AdminRow → AdminColWidths → Bool → List Span
error_cells r cols show_aat =
    let tail : List Span =
      if show_aat
      then plain (pad_right 8 "-") ∷ plain (pad_right 3 "-") ∷ []
      else plain (pad_right 3 "-") ∷ [] in
    styled addr (text_cell r.addr cols.addr)
    ∷ plain (pad_right cols.node "-")
    ∷ plain (pad_right cols.role "-")
    ∷ plain (pad_right cols.leader "-")
    ∷ plain (pad_left 4 "-")
    ∷ plain (pad_left 5 "-")
    ∷ plain (pad_left 5 "-")
    ∷ plain (pad_left 5 "-")
    ∷ plain (pad_left 5 "-")
    ∷ tail

module _ (digits : ℕ → String) (trim_space : String → String) where
  unfoldable pub node_cells : AdminRow → AdminColWidths → Bool → List Span
  unfolding render_node_cell render_role_cell render_leader_cell render_cfg_cell
  node_cells r cols show_aat =
      let tail : List Span =
        if show_aat
        then styled time_val (text_cell r.last_applied_at 8)
          ∷ render_cfg_cell trim_space r.cfg 3
          ∷ []
        else render_cfg_cell trim_space r.cfg 3 ∷ [] in
      styled addr (text_cell r.addr cols.addr)
      ∷ render_node_cell r.node_id cols.node r.role
      ∷ render_role_cell r.role cols.role r.role
      ∷ render_leader_cell r.leader_id cols.leader r.role
      ∷ styled term_val (pad_left 4 (digits r.term))
      ∷ styled metric (pad_left 5 (digits r.commit))
      ∷ styled metric (pad_left 5 (digits r.applied))
      ∷ styled metric (pad_left 5 (digits r.last_log))
      ∷ styled metric (pad_left 5 (digits r.snapshot))
      ∷ tail

  unfoldable pub make_table_row : AdminRow → AdminColWidths → Bool → Bool → List Span
  unfolding node_cells error_cells render_status_dot spaced
  make_table_row r cols show_aat selected =
      append (render_status_dot r.status r.err selected) (
        spaced
          (if str_eq r.err "" then node_cells r cols show_aat else error_cells r cols show_aat))

-- the cells of the header line, without "ST"
unfoldable pub header_cells : AdminColWidths → Bool → List Span
header_cells cols show_aat =
    let tail : List Span =
      if show_aat
      then plain (pad_right 8 "A_AT") ∷ plain (pad_right 3 "CFG") ∷ []
      else plain (pad_right 3 "CFG") ∷ [] in
    plain (pad_right cols.addr (header_label "ADDR" cols.addr))
    ∷ plain (pad_right cols.node (header_label "NODE" cols.node))
    ∷ plain (pad_right cols.role (header_label "ROLE" cols.role))
    ∷ plain (pad_right cols.leader (header_label "LEADER" cols.leader))
    ∷ plain (pad_left 4 "TERM")
    ∷ plain (pad_left 5 "CMT")
    ∷ plain (pad_left 5 "APL")
    ∷ plain (pad_left 5 "LOG")
    ∷ plain (pad_left 5 "SNAP")
    ∷ tail

-- the header line before its style
unfoldable pub header_line : AdminColWidths → Bool → List Span
unfolding header_cells spaced
header_line cols show_aat = plain (pad_right 2 "ST") ∷ spaced (header_cells cols show_aat)

unfoldable pub text_of : List Span → String
text_of [] = ""
text_of ((style, s) ∷ line) = s ++ text_of line

-- `fill w` is what a lipgloss style of width and maximal width `w` makes of a text.
unfoldable pub render_header : (ℕ → String → String) → AdminColWidths → Bool → ℕ → String
unfolding header_line text_of
render_header fill cols show_aat content_width =
    fill content_width (text_of (header_line cols show_aat))
