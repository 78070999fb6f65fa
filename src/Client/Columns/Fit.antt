-- ===== src/Client/Columns/Fit.antt =====
-- The columns fit the terminal.
use consensus_lab.Base.{
  ℕ, ◌+◌, ◌-◌, ◌≤◌, ◌≡◌, min, ltb, leb, if◌then◌else◌, List, arith, Bool-cases, inl, inr, leb→le,
  ltb→lt, ltb→ge,
}
use consensus_lab.Client.{AdminRow, clamp_int}
use consensus_lab.Client.Columns.{
  AdminColWidths, widest, header_widths, natural_widths, variable_width, shrink, shrink_all,
  fixed_width, admin_columns_for_width,
}

clamp_int_bounds : (v lo hi : ℕ) → lo ≤ hi → (lo ≤ clamp_int v lo hi) × (clamp_int v lo hi ≤ hi)
unfolding clamp_int
clamp_int_bounds v lo hi h = ground arith

-- no column is narrower than the least width that the loop goes down to
abbrev pub AreLeast : AdminColWidths → Type 0
AreLeast c = (4 ≤ c.addr) × (4 ≤ c.node) × (6 ≤ c.role) × (2 ≤ c.leader)

natural_widths-AreLeast : (rows : List AdminRow) → AreLeast (natural_widths rows)
unfolding natural_widths
natural_widths-AreLeast rows =
    let c = widest header_widths rows in
    omega (
      arith,
      clamp_int_bounds c.addr 8 14 (omega arith),
      clamp_int_bounds c.node 4 7 (omega arith),
      clamp_int_bounds c.role 6 8 (omega arith),
      clamp_int_bounds c.leader 2 6 (omega arith),
    )

shrink_lem :
    (deficit cur least : ℕ)
    → least ≤ cur
    → let (c, d) = shrink deficit cur least in
      (least ≤ c) × (c + deficit ≡ cur + d) × (d ≡ deficit - (cur - least))
unfolding shrink
shrink_lem deficit cur least h = ground arith

shrink_all_lem :
    (deficit : ℕ) (c : AdminColWidths)
    → AreLeast c
    → deficit + 16 ≤ variable_width c
    → AreLeast (shrink_all deficit c)
      × (variable_width (shrink_all deficit c) + deficit ≡ variable_width c)
unfolding shrink_all
shrink_all_lem deficit c least h =
    let (addr, d) = shrink deficit c.addr 4 in
    let (leader, d') = shrink d c.leader 2 in
    let (node, d'') = shrink d' c.node 4 in
    omega (
      arith,
      least,
      h,
      shrink_lem deficit c.addr 4 least.0,
      shrink_lem d c.leader 2 least.3,
      shrink_lem d' c.node 4 least.1,
      shrink_lem d'' c.role 6 least.2,
    )

-- the three cases, with the fixed width and the natural widths as variables
fit_cases :
    (fixed w : ℕ) (col : AdminColWidths)
    → fixed + 16 ≤ w
    → AreLeast col
    → let base = variable_width col in
      let c =
        if leb w fixed
        then col
        else if ltb (w - fixed) base
        then shrink_all (base - (w - fixed)) col
        else record col { addr = col.addr + min (w - fixed - base) 8 } in
      AreLeast c × (fixed + variable_width c ≤ w)
fit_cases fixed w col wide least = elim (Bool-cases (leb w fixed)) [
  | inl narrow ↦ absurd (omega (arith, leb→le _ _ narrow))
  | inr roomy ↦ elim (Bool-cases (ltb (w - fixed) (variable_width col))) [
    | inl short ↦
        let few = ltb→lt _ _ short in
        rw (roomy, short)
          (omega (arith, shrink_all_lem (variable_width col - (w - fixed)) col least (omega arith)))
    | inr enough ↦ rw (roomy, enough) (omega (arith, least, ltb→ge _ _ enough))
  ]
]

pub columns_fit :
    (rows : List AdminRow) (w : ℕ)
    → 55 ≤ w
    → let (c, show_aat) = admin_columns_for_width rows w in
      AreLeast c × (fixed_width show_aat + variable_width c ≤ w)
unfolding admin_columns_for_width
columns_fit rows w wide =
    let facts =
      fit_cases (fixed_width (leb 96 w)) w (natural_widths rows) (ground arith)
        (natural_widths-AreLeast rows) in
    ground (arith, facts)
