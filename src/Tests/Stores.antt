-- ===== src/Tests/Stores.antt =====
-- The store on a codec that knows two commands and the snapshot of one store.
use consensus_lab.Base.{
  zero, suc, ◌≡◌, ◌≢◌, ◌⊎◌, inl, inr, refl, ap, String, Option, none, some, List, [], ◌∷◌, ◌++◌,
  str_eq, eq_iff, Bool, ◌&&◌, if◌then◌else◌, Bool-cases, arith,
}
use consensus_lab.Raft.Types.{Bytes}
use consensus_lab.Kv.{
  Command, Contents, Json, IsFaithful, lookup, remove, put_cmd, delete_cmd, new_store, get, apply,
  apply_put, apply_delete, execute, snapshot, restore_snapshot, apply_all,
}
use consensus_lab.Kv.Contents.{
  last_write, write_of, overwritten, get-apply_all, apply_all-restore_snapshot,
}

-- the bytes 1 put "x", the bytes 2 delete it; 3 is the snapshot of the empty store
abbrev decode : Bytes → String ⊎ Command
decode (suc zero ∷ []) = inr (record { command_type = put_cmd; key = "x"; value = "7" })
decode (suc (suc zero) ∷ []) = inr (record { command_type = delete_cmd; key = "x"; value = "" })
decode _ = inl "syntax"

abbrev encode_contents : Contents → String ⊎ Bytes
encode_contents [] = inr (3 ∷ [])
encode_contents (_ ∷ _) = inl "too large"

abbrev decode_contents : Bytes → String ⊎ Option Contents
decode_contents (suc (suc (suc zero)) ∷ []) = inr (some [])
decode_contents _ = inl "syntax"

-- only the first of the two commands is encoded
abbrev is_put_x : Command → Bool
is_put_x cmd = str_eq cmd.command_type put_cmd && str_eq cmd.key "x" && str_eq cmd.value "7"

abbrev encode : Command → String ⊎ Bytes
encode cmd = if is_put_x cmd then inr (1 ∷ []) else inl "unknown"

command_round_trip : (cmd : Command) (raw : Bytes) → encode cmd ≡ inr raw → decode raw ≡ inr cmd
command_round_trip cmd raw coded = elim (Bool-cases (is_put_x cmd)) [
  | inl known ↦
      let same : raw ≡ 1 ∷ [] = ground arith in
      let own : record { command_type = put_cmd; key = "x"; value = "7" } ≡ cmd =
        ground (arith, eq_iff cmd.command_type put_cmd, eq_iff cmd.key "x", eq_iff cmd.value "7") in
      rw same (ap (λ c. inr c) own)
  | inr unknown ↦ absurd (ground arith)
]

abbrev pub json : Json String
json = record {
  marshal_command = encode;
  unmarshal_command = decode;
  marshal_contents = encode_contents;
  unmarshal_contents = decode_contents;
}

round_trip :
    (contents : Contents) (raw : Bytes)
    → encode_contents contents ≡ inr raw
    → (restored : Contents) × (decode_contents raw ≡ inr (some restored))
      × ((key : String) → lookup key restored ≡ lookup key contents)
round_trip [] raw coded = let same : raw ≡ 3 ∷ [] = cc coded in rw same ([], refl, λ key. refl)
round_trip (_ ∷ _) raw coded = cc coded

not_empty : (contents : Contents) → encode_contents contents ≢ inr []
not_empty [] = λ e. cc e
not_empty (_ ∷ _) = λ e. cc e

pub json-IsFaithful : IsFaithful json
json-IsFaithful = record {
  command_round_trip = command_round_trip;
  not_empty = not_empty;
  round_trip = round_trip;
}

abbrev before : List Bytes
before = (1 ∷ []) ∷ (9 ∷ []) ∷ (2 ∷ []) ∷ []

abbrev later : List Bytes
later = (1 ∷ []) ∷ []

get-apply_all_example :
    get "x" (apply_all json before new_store)
    ≡ overwritten (last_write json "x" before) (get "x" new_store)
get-apply_all_example = get-apply_all json "x" before new_store

deleted : last_write json "x" before ≡ some none
unfolding last_write write_of
deleted = refl

taken : snapshot json (apply_all json before new_store) ≡ inr (3 ∷ [])
unfolding snapshot apply_all apply execute apply_put apply_delete remove
taken = refl

replayed_after_snapshot :
    get "x" (apply_all json later (restore_snapshot json (3 ∷ []) new_store).1)
    ≡ get "x" (apply_all json (before ++ later) new_store)
replayed_after_snapshot =
    apply_all-restore_snapshot json before later new_store new_store (3 ∷ []) "x" json-IsFaithful
      taken
