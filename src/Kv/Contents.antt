-- ===== src/Kv/Contents.antt =====
-- What a store holds after a log of commands, and what a snapshot of it is good for.
use consensus_lab.Base.{
  ◌≡◌, refl, sym, ap, ◌∙◌, inl, inr, String, str_eq, eq_iff, if◌then◌else◌, Option, none, some,
  List, [], ◌∷◌, ◌++◌, arith,
}
use consensus_lab.Raft.Types.{Bytes}
use consensus_lab.Kv.{
  Contents, Store, Json, lookup, remove, apply_put, apply_delete, IsFaithful, put_cmd, delete_cmd,
  get, execute, apply, snapshot, restore_snapshot, apply_all,
}

lookup-remove :
    (key other : String) (m : Contents)
    → lookup key (remove other m) ≡ (if str_eq key other then none else lookup key m)
unfolding lookup remove
lookup-remove key other [] = ground arith
lookup-remove key other ((k, v) ∷ m) =
    ground (arith, lookup-remove key other m, eq_iff key other, eq_iff key k, eq_iff other k)

-- the value of a key after a write, if there is one
abbrev pub overwritten : Option (Option String) → Option String → Option String
overwritten none old = old
overwritten (some w) old = w

module _ {E : Type 0} (json : Json E) where
  -- what a command writes to a key: nothing, or a value, or (`some none`) its absence
  unfoldable pub write_of : String → Bytes → Option (Option String)
  write_of key raw = elim (json.unmarshal_command raw) [
    | inl e ↦ none
    | inr cmd ↦
        if str_eq key cmd.key
        then (if str_eq cmd.command_type put_cmd
            then some (some cmd.value)
            else if str_eq cmd.command_type delete_cmd
            then some none
            else none)
        else none
  ]

  -- the last command of the log that writes to the key decides
  unfoldable pub last_write : String → List Bytes → Option (Option String)
  last_write key [] = none
  last_write key (raw ∷ raws) =
      let later = last_write key raws in elim later [ none ↦ write_of key raw | some w ↦ some w ]

  get-apply :
      (key : String) (raw : Bytes) (s : Store)
      → get key (apply json raw s).1 ≡ overwritten (write_of key raw) (get key s)
  unfolding get lookup apply execute apply_put apply_delete write_of
  get-apply key raw s = grind (arith, lookup-remove)

  -- After a list of commands a key of the store holds what the last command that writes to it has
  -- written, or what it held before if there is none; commands that do not decode, or of another
  -- type, write nothing.
  pub get-apply_all :
      (key : String) (raws : List Bytes) (s : Store)
      → get key (apply_all json raws s) ≡ overwritten (last_write key raws) (get key s)
  unfolding apply_all last_write
  get-apply_all key [] s = refl
  get-apply_all key (raw ∷ raws) s =
      ground (arith, get-apply key raw s, get-apply_all key raws (apply json raw s).1)

  -- A snapshot is restored without an error, and gives every key the value that it had in the store
  -- the snapshot was taken of, whatever the store it is restored in.
  pub restore_snapshot-snapshot :
      (s other : Store) (raw : Bytes) (key : String)
      → IsFaithful json
      → snapshot json s ≡ inr raw
      → ((restore_snapshot json raw other).0 ≡ none)
        × (get key (restore_snapshot json raw other).1 ≡ get key s)
  unfolding snapshot restore_snapshot get
  restore_snapshot-snapshot s other [] key faithful taken =
      absurd (faithful.not_empty s.contents taken)
  restore_snapshot-snapshot s other (b ∷ raw) key faithful taken =
      let (restored, back, same) = faithful.round_trip s.contents (b ∷ raw) taken in
      ground (arith, back, same key)

  apply_all-append :
      (before later : List Bytes) (s : Store)
      → apply_all json (before ++ later) s ≡ apply_all json later (apply_all json before s)
  unfolding apply_all
  apply_all-append [] later s = refl
  apply_all-append (raw ∷ before) later s = apply_all-append before later (apply json raw s).1

  -- With a faithful codec, a store that starts from a snapshot and applies the rest of the log
  -- gives every key the value that it has in a store that has applied the whole log.
  pub apply_all-restore_snapshot :
      (before later : List Bytes) (s other : Store) (raw : Bytes) (key : String)
      → IsFaithful json
      → snapshot json (apply_all json before s) ≡ inr raw
      → get key (apply_all json later (restore_snapshot json raw other).1)
        ≡ get key (apply_all json (before ++ later) s)
  apply_all-restore_snapshot before later s other raw key faithful taken =
      let old = apply_all json before s in
      let restored = (restore_snapshot json raw other).1 in
      get-apply_all key later restored
      ∙ ap (overwritten (last_write key later))
          (restore_snapshot-snapshot old other raw key faithful taken).1
      ∙ sym (get-apply_all key later old)
      ∙ ap (get key) (sym (apply_all-append before later s))
