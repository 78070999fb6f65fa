-- ===== src/Kv.antt =====
-- The key-value state machine: internal/kv/store.go and internal/kv/command.go. Spans are left out.
pub mod Contents
use consensus_lab.Base.{
  ◌≡◌, ◌≢◌, ◌⊎◌, inl, inr, String, str_eq, if◌then◌else◌, Option, none, some, List, [], ◌∷◌,
}
use consensus_lab.Raft.Types.{Bytes}

abbrev pub put_cmd : String
put_cmd = "put"

abbrev pub delete_cmd : String
delete_cmd = "delete"

pub record Command : Type 0 where
  pub command_type : String
  pub key : String
  pub value : String

-- the map of a store, as its keys with their values
abbrev pub Contents : Type 0
Contents = List (String × String)

unfoldable pub lookup : String → Contents → Option String
lookup key [] = none
lookup key ((k, v) ∷ m) = let rest = lookup key m in if str_eq key k then some v else rest

unfoldable pub remove : String → Contents → Contents
remove key [] = []
remove key ((k, v) ∷ m) = let rest = remove key m in if str_eq key k then rest else (k, v) ∷ rest

pub record Store : Type 0 where
  pub contents : Contents

-- What the store and the service use of encoding/json. `unmarshal_contents` gives `none` for the value null, which
-- decodes to a nil map.
pub record Json (E : Type 0) : Type 0 where
  pub marshal_command : Command → E ⊎ Bytes
  pub unmarshal_command : Bytes → E ⊎ Command
  pub marshal_contents : Contents → E ⊎ Bytes
  pub unmarshal_contents : Bytes → E ⊎ Option Contents

-- An encoded command decodes to the command. An encoded map is not empty, and decodes to a map with
-- the same values, in any order of the keys.
pub record IsFaithful {E : Type 0} (json : Json E) : Type 0 where
  pub command_round_trip :
      (cmd : Command) (raw : Bytes)
      → json.marshal_command cmd ≡ inr raw
      → json.unmarshal_command raw ≡ inr cmd
  pub not_empty : (contents : Contents) → json.marshal_contents contents ≢ inr []
  pub round_trip :
      (contents : Contents) (raw : Bytes)
      → json.marshal_contents contents ≡ inr raw
      → (restored : Contents) × (json.unmarshal_contents raw ≡ inr (some restored))
        × ((key : String) → lookup key restored ≡ lookup key contents)

abbrev pub new_store : Store
new_store = record { contents = [] }

unfoldable pub get : String → Store → Option String
unfolding lookup
get key s = lookup key s.contents

unfoldable pub apply_put : String → String → Store → Store
unfolding remove
apply_put key value s = record { contents = (key, value) ∷ remove key s.contents }

unfoldable pub apply_delete : String → Store → Store
unfolding remove
apply_delete key s = record { contents = remove key s.contents }

-- the switch of `Apply`: a command of another type has no effect
unfoldable pub execute : Command → Store → Store
unfolding apply_put apply_delete
execute cmd s =
    if str_eq cmd.command_type put_cmd
    then apply_put cmd.key cmd.value s
    else if str_eq cmd.command_type delete_cmd
    then apply_delete cmd.key s
    else s

module _ {E : Type 0} (json : Json E) where
  -- the error, if any, and the new store
  unfoldable pub apply : Bytes → Store → Option E × Store
  unfolding execute
  apply raw s = elim (json.unmarshal_command raw) [
    | inl e ↦ (some e, s)
    | inr cmd ↦ (none, execute cmd s)
  ]

  unfoldable pub snapshot : Store → E ⊎ Bytes
  snapshot s = json.marshal_contents s.contents

  -- null resets the store, as no bytes do
  unfoldable pub decoded : Option Contents → Store
  decoded none = new_store
  decoded (some contents) = record { contents = contents }

  unfoldable pub restore_snapshot : Bytes → Store → Option E × Store
  unfolding decoded
  restore_snapshot [] s = (none, new_store)
  restore_snapshot (b ∷ raw) s = elim (json.unmarshal_contents (b ∷ raw)) [
    | inl e ↦ (some e, s)
    | inr restored ↦ (none, decoded restored)
  ]

  -- the commands of a log, applied one after the other; an error does not stop them
  unfoldable pub apply_all : List Bytes → Store → Store
  unfolding apply
  apply_all [] s = s
  apply_all (raw ∷ raws) s = apply_all raws (apply raw s).1
