-- ===== src/Raft/Storage/JsonFiles/Effects.antt =====
-- What a call that returns no error has done to the files.
use consensus_lab.Base.{
  ◌≡◌, refl, ap, sym, ◌∙◌, Option, none, some, ◌⊎◌, inl, inr, List, [], ◌∷◌, arith,
}
use consensus_lab.Raft.Types.{Bytes, Error}
use consensus_lab.Raft.Storage.JsonFiles.{
  Directory, os_result, os_call, and_then, write_temporary, put_in_place, write_payload,
  write_json_atomically, File, hard_state_path, log_path, snapshot_path, put_file,
}

abbrev pub SameFiles : Directory → Directory → Type 0
SameFiles d d' =
    (d'.hard_file ≡ d.hard_file) × (d'.log_file ≡ d.log_file) × (d'.snapshot_file ≡ d.snapshot_file)

os_result_files : (rs : List (Option Error)) (d : Directory) → SameFiles d (os_result rs d).1
unfolding os_result
os_result_files [] d = (refl, refl, refl)
os_result_files (r ∷ rs) d = (refl, refl, refl)

-- a sequence whose parts leave the files alone
and_then_files :
    (d : Directory) (r : Option Error × Directory) (next : Directory → Option Error × Directory)
    → SameFiles d r.1
    → ((x : Directory) → SameFiles x (next x).1)
    → SameFiles d (and_then r next).1
unfolding and_then
and_then_files d (none, x) next same later = ground (arith, later x)
and_then_files d (some e, x) next same later = same

pub and_then_ok :
    (r : Option Error × Directory) (next : Directory → Option Error × Directory)
    → (and_then r next).0 ≡ none
    → (r.0 ≡ none) × (and_then r next ≡ next r.1)
unfolding and_then
and_then_ok (none, x) next h = (refl, refl)
and_then_ok (some e, x) next h = cc

pub os_call_files : (d : Directory) → SameFiles d (os_call d).1
os_call_files d = os_result_files d.faults d

write_temporary_files : (d : Directory) → SameFiles d (write_temporary d).1
unfolding write_temporary
write_temporary_files d =
    and_then_files d (and_then (and_then (os_call d) os_call) os_call) os_call
      (and_then_files d (and_then (os_call d) os_call) os_call
        (and_then_files d (os_call d) os_call (os_call_files d) os_call_files) os_call_files)
      os_call_files

-- the payload is in place, and the other files are as they were
abbrev pub Written : File → Bytes → Directory → Directory → Type 0
Written hard_state_path raw d d' =
    (d'.hard_file ≡ some raw) × (d'.log_file ≡ d.log_file) × (d'.snapshot_file ≡ d.snapshot_file)
Written log_path raw d d' =
    (d'.hard_file ≡ d.hard_file) × (d'.log_file ≡ some raw) × (d'.snapshot_file ≡ d.snapshot_file)
Written snapshot_path raw d d' =
    (d'.hard_file ≡ d.hard_file) × (d'.log_file ≡ d.log_file) × (d'.snapshot_file ≡ some raw)

put_file-Written : (f : File) (raw : Bytes) (d : Directory) → Written f raw d (put_file f raw d)
put_file-Written hard_state_path raw d = (refl, refl, refl)
put_file-Written log_path raw d = (refl, refl, refl)
put_file-Written snapshot_path raw d = (refl, refl, refl)

Written-before :
    (f : File) (raw : Bytes) (d x y : Directory)
    → SameFiles d x
    → Written f raw x y
    → Written f raw d y
Written-before hard_state_path raw d x y same written = ground arith
Written-before log_path raw d x y same written = ground arith
Written-before snapshot_path raw d x y same written = ground arith

Written-after :
    (f : File) (raw : Bytes) (d x y : Directory)
    → Written f raw d x
    → SameFiles x y
    → Written f raw d y
Written-after hard_state_path raw d x y written same = ground arith
Written-after log_path raw d x y written same = ground arith
Written-after snapshot_path raw d x y written same = ground arith

abbrev renamed : File → Bytes → Directory → Option Error × Directory
renamed f raw d = and_then (os_call d) (λ x. (none, put_file f raw x))

pub and_then_fine :
    (r : Option Error × Directory) (next : Directory → Option Error × Directory)
    → r.0 ≡ none
    → and_then r next ≡ next r.1
unfolding and_then
and_then_fine (none, x) next h = refl
and_then_fine (some e, x) next h = cc

-- Once the file is renamed the calls that follow can fail, but the file has been replaced.
pub put_in_place-Written :
    (f : File) (raw : Bytes) (d : Directory)
    → (os_call d).0 ≡ none
    → Written f raw d (put_in_place (put_file f raw) d).1
unfolding put_in_place
put_in_place-Written f raw d fine =
    let x = put_file f raw (os_call d).1 in
    let start : renamed f raw d ≡ (none, x) =
      and_then_fine (os_call d) (λ y. (none, put_file f raw y)) fine in
    let synced =
      and_then_files x (and_then (none, x) os_call) os_call
        (and_then_files x (none, x) os_call (refl, refl, refl) os_call_files) os_call_files in
    rw start (
      Written-after f raw d x (and_then (and_then (none, x) os_call) os_call).1
        (Written-before f raw d (os_call d).1 x (os_call_files d)
          (put_file-Written f raw (os_call d).1))
        synced)

put_in_place_start :
    (f : File) (raw : Bytes) (d : Directory)
    → (put_in_place (put_file f raw) d).0 ≡ none
    → (os_call d).0 ≡ none
unfolding put_in_place
put_in_place_start f raw d h =
    let (a, _) = and_then_ok (and_then (renamed f raw d) os_call) os_call h in
    let (b, _) = and_then_ok (renamed f raw d) os_call a in
    (and_then_ok (os_call d) (λ x. (none, put_file f raw x)) b).0

pub write_json_atomically-Written :
    (f : File) (payload : Error ⊎ Bytes) (d : Directory)
    → (write_json_atomically payload (put_file f) d).0 ≡ none
    → (raw : Bytes) × (payload ≡ inr raw)
      × Written f raw d (write_json_atomically payload (put_file f) d).1
unfolding write_json_atomically write_payload
write_json_atomically-Written f (inl e) d h =
    let (start, rest) = and_then_ok (os_call d) (λ x. (some e, x)) h in cc
write_json_atomically-Written f (inr raw) d h =
    let next = λ (x : Directory). and_then (write_temporary x) (put_in_place (put_file f raw)) in
    let (start, rest) = and_then_ok (os_call d) next h in
    let x = (os_call d).1 in
    let (_, rest') =
      and_then_ok (write_temporary x) (put_in_place (put_file f raw))
        (ap (λ r. r.0) (sym rest) ∙ h) in
    let y = (write_temporary x).1 in
    let final : (put_in_place (put_file f raw) y).0 ≡ none =
      ap (λ r. r.0) (sym rest' ∙ sym rest) ∙ h in
    let written = put_in_place-Written f raw y (put_in_place_start f raw y final) in
    (
      raw,
      refl,
      rw (rest, rest')
          (Written-before f raw d x (put_in_place (put_file f raw) y).1 (os_call_files d) (
            Written-before f raw x y (put_in_place (put_file f raw) y).1 (write_temporary_files x)
              written)),
    )
