-- ===== src/Raft/Storage/Directory.antt =====
-- The directory of a `JSONStorage` and the atomic write of a file, of
-- internal/consensus/raft/storage_json.go. A file is its bytes, or none where it does not exist; each
-- call of the operating system takes its result from a list of faults, and succeeds when the list is
-- empty.
use consensus_lab.Base.{Option, none, some, ◌⊎◌, inl, inr, List, [], ◌∷◌}
use consensus_lab.Raft.Types.{Bytes, Error}

pub record Directory : Type 0 where
  pub hard_file : Option Bytes
  pub log_file : Option Bytes
  pub snapshot_file : Option Bytes
  -- the results of the next calls of the operating system
  pub faults : List (Option Error)

-- one call of the operating system
unfoldable pub os_result : List (Option Error) → Directory → Option Error × Directory
os_result [] d = (none, d)
os_result (r ∷ rs) d = (r, record d { faults = rs })

abbrev pub os_call : Directory → Option Error × Directory
os_call d = os_result d.faults d

unfoldable pub and_then :
    Option Error × Directory → (Directory → Option Error × Directory) → Option Error × Directory
and_then (none, d) next = next d
and_then (some e, d) next = (some e, d)

-- `CreateTemp`, `Write`, `Sync` and `Close` of the temporary file, which `Load` does not read
unfoldable pub write_temporary : Directory → Option Error × Directory
unfolding and_then os_result
write_temporary d = and_then (and_then (and_then (os_call d) os_call) os_call) os_call

-- `Rename`, which puts the payload in place, and then `Open` and `Sync` of the directory
unfoldable pub put_in_place : (Directory → Directory) → Directory → Option Error × Directory
unfolding and_then os_result
put_in_place replace d =
    and_then (and_then (and_then (os_call d) (λ d'. (none, replace d'))) os_call) os_call

-- `writeJSONAtomically` of a marshalled value; `replace` sets the file that is written.
unfoldable pub write_payload :
    Error ⊎ Bytes → (Bytes → Directory → Directory) → Directory → Option Error × Directory
unfolding and_then write_temporary put_in_place
write_payload (inl e) replace d = (some e, d)
write_payload (inr raw) replace d = and_then (write_temporary d) (put_in_place (replace raw))

unfoldable pub write_json_atomically :
    Error ⊎ Bytes → (Bytes → Directory → Directory) → Directory → Option Error × Directory
unfolding and_then os_result write_payload
write_json_atomically payload replace d = and_then (os_call d) (write_payload payload replace)

-- `hardStatePath`, `logPath` and `snapshotPath`
pub data File : Type 0 where
  hard_state_path log_path snapshot_path : File

abbrev pub put_file : File → Bytes → Directory → Directory
put_file hard_state_path raw d = record d { hard_file = some raw }
put_file log_path raw d = record d { log_file = some raw }
put_file snapshot_path raw d = record d { snapshot_file = some raw }
