-- ===== src/Client.antt =====
-- The terminal client: cmd/client. A row of the admin view, and the helpers for its texts. A text that
-- is cut inside a character loses the character, of which the program keeps the first bytes.
pub mod Columns
pub mod Cells
pub mod Screen
pub mod Poll
pub mod Batch
use consensus_lab.Base.{
  ℕ, ◌+◌, ◌-◌, ltb, leb, ◌==◌, String, str_eq, if◌then◌else◌, Bool, ◌&&◌, len, slice,
}
use Prim.Native.String.{◌++◌}

pub record AdminRow : Type 0 where
  pub addr : String
  pub node_id : String
  pub consensus : String
  pub role : String
  pub status : String
  pub leader_id : String
  pub term : ℕ
  pub commit : ℕ
  pub applied : ℕ
  pub last_log : ℕ
  pub last_log_term : ℕ
  pub snapshot : ℕ
  pub cfg : String
  pub peers : String
  pub last_applied_at : String
  pub err : String

unfoldable pub clamp_int : ℕ → ℕ → ℕ → ℕ
clamp_int v lo hi = if ltb v lo then lo else if ltb hi v then hi else v

unfoldable pub shorten : String → ℕ → String
shorten s n =
    if n == 0
    then s
    else if leb (len s) n
    then s
    else if leb n 3
    then slice s 0 n
    else slice s 0 (n - 3) ++ "..."

-- the `switch` of `headerLabel`
unfoldable pub short_label : String → ℕ → String
short_label label width =
    if str_eq label "LEADER" && leb 3 width
    then "LDR"
    else if str_eq label "ADDR" && leb 2 width
    then "AD"
    else if str_eq label "NODE" && leb 2 width
    then "ND"
    else if str_eq label "ROLE" && leb 2 width
    then "RL"
    else slice label 0 width

unfoldable pub header_label : String → ℕ → String
unfolding short_label
header_label label width =
    if width == 0 then "" else if leb (len label) width then label else short_label label width
