-- ===== src/Client/Columns.antt =====
-- The widths of the columns of the admin view: `adminColumnsForWidth` of cmd/client/admin.go.
pub mod Fit
use consensus_lab.Base.{
  ℕ, ◌+◌, ◌-◌, ◌≤◌, ◌<◌, ◌≡◌, min, max, ltb, leb, ◌==◌, Bool, true, false, if◌then◌else◌, List, [],
  ◌∷◌, len, arith, Bool-cases,
}
use consensus_lab.Client.{AdminRow, clamp_int}

pub record AdminColWidths : Type 0 where
  pub addr : ℕ
  pub node : ℕ
  pub role : ℕ
  pub leader : ℕ

-- the loop over the rows
unfoldable pub widest : AdminColWidths → List AdminRow → AdminColWidths
widest c [] = c
widest c (r ∷ rows) =
    widest
      (record {
        addr = max c.addr (len r.addr);
        node = max c.node (len r.node_id);
        role = max c.role (len r.role);
        leader = max c.leader (len r.leader_id);
      })
      rows

-- the lengths of "ADDR", "NODE", "ROLE" and "LEADER"
abbrev pub header_widths : AdminColWidths
header_widths = record { addr = 4; node = 4; role = 4; leader = 6 }

-- the widths before the terminal's width is looked at
unfoldable pub natural_widths : List AdminRow → AdminColWidths
unfolding widest clamp_int
natural_widths rows =
    let c = widest header_widths rows in
    record {
      addr = clamp_int c.addr 8 14;
      node = clamp_int c.node 4 7;
      role = clamp_int c.role 6 8;
      leader = clamp_int c.leader 2 6;
    }

abbrev pub variable_width : AdminColWidths → ℕ
variable_width c = c.addr + c.node + c.role + c.leader

-- One round of the loop that shrinks: the column's width and what is left of the deficit.
unfoldable pub shrink : ℕ → ℕ → ℕ → ℕ × ℕ
shrink deficit cur least =
    if deficit == 0
    then (cur, deficit)
    else if leb cur least
    then (cur, deficit)
    else (cur - min deficit (cur - least), deficit - min deficit (cur - least))

unfoldable pub shrink_all : ℕ → AdminColWidths → AdminColWidths
unfolding shrink
shrink_all deficit c =
    let (addr, d) = shrink deficit c.addr 4 in
    let (leader, d') = shrink d c.leader 2 in
    let (node, d'') = shrink d' c.node 4 in
    let (role, _) = shrink d'' c.role 6 in
    record { addr = addr; node = node; role = role; leader = leader }

abbrev pub fixed_width : Bool → ℕ
fixed_width show_aat = if show_aat then 48 else 39

-- The widths, and whether the column of the last application is shown.
unfoldable pub admin_columns_for_width : List AdminRow → ℕ → AdminColWidths × Bool
unfolding natural_widths shrink_all
admin_columns_for_width rows content_width =
    let col = natural_widths rows in
    let show_aat = leb 96 content_width in
    let fixed = fixed_width show_aat in
    let base = variable_width col in
    if leb content_width fixed
    then (col, show_aat)
    else if ltb (content_width - fixed) base
    then (shrink_all (base - (content_width - fixed)) col, show_aat)
    else (record col { addr = col.addr + min (content_width - fixed - base) 8 }, show_aat)
