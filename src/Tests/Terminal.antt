-- ===== src/Tests/Terminal.antt =====
-- The terminal client on concrete rows and lines.
use consensus_lab.Base.{
  ℕ, ◌≡◌, ◌≤◌, ◌<◌, ◌+◌, refl, inl, inr, String, str_eq, if◌then◌else◌, false, true, none, some,
  List, [], ◌∷◌, length, eq_iff, get_elem?, count, inl, map, arith, ◌==◌, not, ◌&&◌, leb,
}
use consensus_lab.Transport.KvServer.{not_the_leader}
use consensus_lab.Client.{AdminRow}
use consensus_lab.Client.Columns.{admin_columns_for_width}
use consensus_lab.Client.Cells.{pad_right, make_table_row, header_line, render_header}
use consensus_lab.Client.Cells.Width.{count-pad_right}
use consensus_lab.Client.Cells.Lines.{shown, table_fits}
use consensus_lab.Client.Screen.{
  AdminModel, new_admin_model, key, rows_polled, id_at, update, updates,
}
use consensus_lab.Client.Screen.Placed.{IsPlaced, IsShown, updates-IsPlaced, selection_followed}
use consensus_lab.Client.Screen.Unreachable.{downs, unreachable_deselected}
use consensus_lab.Raft.Types.{follower}
use consensus_lab.Raft.Node.{Node}
use consensus_lab.Transport.Admin.{safe_int32}
use consensus_lab.Client.Poll.{Formats, poll_row, detect_leader_missing}
use consensus_lab.Client.Poll.Alert.{
  Readable, rows_of, any_leader, well_nodes, quorum_of, detect_leader_missing_iff,
}
use consensus_lab.Tests.Cluster.{node_b, trio}
use consensus_lab.Client.Batch.{Calls, cmd_put_batch}
use consensus_lab.Client.Batch.Numbered.{
  number_of, upto, not_blank, put_all, cmd_put_batch_in_order,
}

-- a healthy follower with an id, or a node that cannot be reached, without one
abbrev row : String → String → AdminRow
row id err = record {
  addr = "127.0.0.1:9091";
  node_id = id;
  consensus = "raft";
  role = "follower";
  status = "healthy";
  leader_id = "node-1";
  term = 3;
  commit = 40;
  applied = 40;
  last_log = 41;
  last_log_term = 3;
  snapshot = 0;
  cfg = "2/3";
  peers = "node-1,node-3";
  last_applied_at = "10:00:00";
  err = err;
}

abbrev three_rows : List AdminRow
three_rows = row "node-1" "" ∷ row "node-2" "" ∷ row "" "code = Unavailable" ∷ []

-- a text in a field of a width: nothing is cut here that is no longer
abbrev filled : ℕ → String → String
filled width s = pad_right width s

table_fits_example :
    let (c, show_aat) = admin_columns_for_width three_rows 80 in
    let line = make_table_row (λ _. "7") (λ s. s) (row "node-2" "") c show_aat true in
    (shown line ≡ shown (header_line c show_aat))
    × (shown line ≤ 80)
    × (count (render_header filled c show_aat 80) ≡ 80)
table_fits_example =
    table_fits (λ _. "7") (λ s. s) filled three_rows (row "node-2" "") 80 true
      (λ width s short. count-pad_right width s short) (omega arith)
      (λ _. (omega arith, omega arith, omega arith, omega arith, omega arith))

updates-IsPlaced_example : IsPlaced (
    updates
      (rows_polled three_rows ∷ key "j" ∷ rows_polled (row "node-2" "" ∷ []) ∷ [])
      new_admin_model)
updates-IsPlaced_example =
    updates-IsPlaced (rows_polled three_rows ∷ key "j" ∷ rows_polled (row "node-2" "" ∷ []) ∷ [])

-- "node-2" is selected
abbrev on_second : AdminModel
on_second = record new_admin_model { rows = three_rows; cursor = 1; selected_id = "node-2" }

abbrev moved_rows : List AdminRow
moved_rows = row "node-2" "" ∷ row "" "code = Unavailable" ∷ []

selection_kept :
    let after = (update (rows_polled moved_rows) on_second).0 in
    (after.rows ≡ moved_rows)
    × (id_at moved_rows after.cursor ≡ "node-2")
    × (after.cursor < 2)
    × IsShown after
selection_kept =
    selection_followed on_second moved_rows 0 (row "node-2" "") (λ e. cc ((eq_iff "node-2" "").1 e))
      refl refl

-- the texts of the figures 2 and 3
abbrev plain_texts : Formats
plain_texts = record {
  digits = λ k. if k == 2 then "2" else "3";
  scan_int = λ s. if str_eq s "2" then some 2 else some 3;
  trim_space = λ s. s;
  split_slash = λ s. if str_eq s "2/3" then some ("2", "3") else none;
  join_comma = λ s. "";
  sort = λ s. s;
  clock_time = λ t. "";
  epoch_time = "00:00:00";
}

-- the rows of two nodes, the second of which cannot be reached
abbrev polled_rows : List AdminRow
polled_rows = row "node-1" "" ∷ poll_row plain_texts "h:2" (inl "code = Unavailable") ∷ []

unreachable_deselected_example :
    let on = updates (rows_polled polled_rows ∷ downs 1) new_admin_model in
    (on.cursor ≡ 1)
    × (get_elem? on.rows on.cursor ≡ some (poll_row plain_texts "h:2" (inl "code = Unavailable")))
    × ((update (rows_polled polled_rows) on).0.cursor ≡ 0)
unreachable_deselected_example =
    unreachable_deselected plain_texts polled_rows polled_rows 1 "h:2" "code = Unavailable" refl
      (omega arith)

-- a cluster whose writes go to the key "k" and count up
abbrev counting : Calls ℕ
counting = record {
  put = λ key value w. (inr (w + 1), w + 1);
  get = λ key w. (inl not_the_leader, w);
  delete = λ key w. (inl not_the_leader, w);
  milliseconds = λ w. w;
  microseconds = λ w. w;
  trim_space = λ s. s;
  cut_tab = λ s. if str_eq s "k\tv" then some ("k", "v") else none;
  deadline_exceeded = λ e. false;
  one_line_err = λ e. "";
}

abbrev lines : List String
lines = "k\tv" ∷ "" ∷ "k" ∷ "k\tv" ∷ []

batch_in_order :
    (map number_of (cmd_put_batch counting lines 0 5).0
      ≡ upto 0 (length (not_blank counting lines)))
    × ((cmd_put_batch counting lines 0 5).1 ≡ put_all counting (not_blank counting lines) 5)
batch_in_order = cmd_put_batch_in_order counting lines 0 5

numbered : upto 0 (length (not_blank counting lines)) ≡ 1 ∷ 2 ∷ 3 ∷ []
unfolding upto not_blank
numbered = refl

-- three followers
abbrev leaderless : List (String × Node)
leaderless =
    ("a", node_b follower 1 "" [] 0 0)
    ∷ ("b", node_b follower 1 "" [] 0 0)
    ∷ ("c", node_b follower 1 "" [] 0 0)
    ∷ []

detect_leader_missing_iff_example :
    (detect_leader_missing plain_texts (rows_of plain_texts [] leaderless)).0 ≡ (
      not (any_leader plain_texts [] leaderless)
      && leb (quorum_of plain_texts [] trio.members) (well_nodes plain_texts [] leaderless))
detect_leader_missing_iff_example =
    detect_leader_missing_iff plain_texts [] trio.members leaderless figures
      (refl, (refl, (refl, tt)))
  where
    figures : Readable plain_texts [] (quorum_of plain_texts [] trio.members) 3
    figures = unfold safe_int32 in (refl, refl, refl)
