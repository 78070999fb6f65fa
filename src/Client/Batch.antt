-- ===== src/Client/Batch.antt =====
-- The commands of the terminal client: cmd/client/main.go. The calls of the cluster client act on a world
-- `W`; what a command prints is a list of lines. Opening the input file, the flags and the deadline of
-- the context are left out: the lines of the input are an argument.
pub mod Numbered
use consensus_lab.Base.{
  ℕ, zero, suc, ◌+◌, ◌-◌, ◌⊎◌, inl, inr, String, str_eq, Bool, true, false, if◌then◌else◌, Option,
  none, some, List, [], ◌∷◌, len,
}
use consensus_lab.Transport.KvServer.{ClientError, no_leader}

-- what the commands call: the cluster client, strings, errors and the clock
pub record Calls (W : Type 0) : Type 0 where
  pub put : String → String → W → (ClientError ⊎ ℕ) × W
  pub get : String → W → (ClientError ⊎ (String × Bool)) × W
  pub delete : String → W → (ClientError ⊎ ℕ) × W
  pub milliseconds : W → ℕ
  pub microseconds : W → ℕ
  pub trim_space : String → String
  -- `strings.Cut` at the first tab
  pub cut_tab : String → Option (String × String)
  pub deadline_exceeded : ClientError → Bool
  pub one_line_err : ClientError → String

-- A printed line: first its number, then the time taken. The index of a write is 0 in a line
-- of an error.
pub data Printed : Type 0 where
  invalid_tsv_line : ℕ → Printed
  ok_write : ℕ → ℕ → ℕ → String → Printed
  ok_read : ℕ → ℕ → String → ℕ → Printed
  not_found : ℕ → ℕ → String → Printed
  timed_out failed : ℕ → ℕ → String → String → Printed

-- what a single command prints, or the error that it returns
pub data Said : Type 0 where
  value_of : String → String → Said
  missing : String → Said
  written : ℕ → Said
  no_leader_available : Said
  call_failed : ClientError → Said

unfoldable pub get_said : String → ClientError ⊎ (String × Bool) → Said
get_said key (inl e) = call_failed e
get_said key (inr (value, false)) = missing key
get_said key (inr (value, true)) = value_of key value

unfoldable pub write_said : ClientError ⊎ ℕ → Said
write_said (inl no_leader) = no_leader_available
write_said (inl e) = call_failed e
write_said (inr index) = written index

module _ {W : Type 0} (c : Calls W) where
  unfoldable pub cmd_get : String → W → Said × W
  unfolding get_said
  cmd_get key w = let r = c.get key w in (get_said key r.0, r.1)

  unfoldable pub cmd_put : String → String → W → Said × W
  unfolding write_said
  cmd_put key value w = let r = c.put key value w in (write_said r.0, r.1)

  unfoldable pub cmd_delete : String → W → Said × W
  unfolding write_said
  cmd_delete key w = let r = c.delete key w in (write_said r.0, r.1)

  unfoldable pub failure : ℕ → ℕ → String → ClientError → Printed
  failure seq time key e =
      if c.deadline_exceeded e
      then timed_out seq time key (c.one_line_err e)
      else failed seq time key (c.one_line_err e)

  unfoldable pub write_line : ℕ → ℕ → String → ClientError ⊎ ℕ → Printed
  unfolding failure
  write_line seq ms key (inr index) = ok_write seq ms index key
  write_line seq ms key (inl e) = failure seq ms key e

  unfoldable pub read_line : ℕ → ℕ → String → ClientError ⊎ (String × Bool) → Printed
  unfolding failure
  read_line seq us key (inr (value, true)) = ok_read seq us key (len value)
  read_line seq us key (inr (value, false)) = not_found seq us key
  read_line seq us key (inl e) = failure seq us key e

  abbrev pub print : Printed → List Printed × W → List Printed × W
  print line (lines, w) = (line ∷ lines, w)

  -- The loop over the lines, after `seq` lines that were not blank.
  unfoldable pub cmd_put_batch : List String → ℕ → W → List Printed × W
  unfolding write_line
  cmd_put_batch [] seq w = ([], w)
  cmd_put_batch (line ∷ lines) seq w = elim (str_eq (c.trim_space line) "") [
    | true ↦ cmd_put_batch lines seq w
    | false ↦ elim (c.cut_tab line) [
      | none ↦ print (invalid_tsv_line (seq + 1)) (cmd_put_batch lines (seq + 1) w)
      | some (key, value) ↦
          let r = c.put key value w in
          print (write_line (seq + 1) (c.milliseconds r.1 - c.milliseconds w) key r.0)
            (cmd_put_batch lines (seq + 1) r.1)
    ]
  ]

  unfoldable pub cmd_get_batch : List String → ℕ → W → List Printed × W
  unfolding read_line
  cmd_get_batch [] seq w = ([], w)
  cmd_get_batch (line ∷ lines) seq w = elim (str_eq (c.trim_space line) "") [
    | true ↦ cmd_get_batch lines seq w
    | false ↦
        let key = c.trim_space line in
        let r = c.get key w in
        print (read_line (seq + 1) (c.microseconds r.1 - c.microseconds w) key r.0)
          (cmd_get_batch lines (seq + 1) r.1)
  ]

  unfoldable pub cmd_delete_batch : List String → ℕ → W → List Printed × W
  unfolding write_line
  cmd_delete_batch [] seq w = ([], w)
  cmd_delete_batch (line ∷ lines) seq w = elim (str_eq (c.trim_space line) "") [
    | true ↦ cmd_delete_batch lines seq w
    | false ↦
        let key = c.trim_space line in
        let r = c.delete key w in
        print (write_line (seq + 1) (c.milliseconds r.1 - c.milliseconds w) key r.0)
          (cmd_delete_batch lines (seq + 1) r.1)
  ]

  -- the entries of a comma-separated list that are not blank, trimmed
  unfoldable pub split_addrs : List String → List String
  split_addrs [] = []
  split_addrs (part ∷ parts) =
      let rest = split_addrs parts in
      if str_eq (c.trim_space part) "" then rest else c.trim_space part ∷ rest
