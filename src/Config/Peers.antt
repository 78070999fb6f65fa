-- ===== src/Config/Peers.antt =====
-- The map of the peers' addresses.
pub mod Accepted
use consensus_lab.Base.{
  ℕ, zero, suc, ◌≡◌, ◌≢◌, sym, ◌∙◌, inl, inr, String, str_eq, eq_iff, none, some, List, [], ◌∷◌,
  get_elem?, Bool-cases, Sum-cases, arith,
}
use consensus_lab.Config.{
  Texts, Config, PeerMap, peer_addr, add_peer, peer_entry, peer_map_from, peer_addr_map,
}

-- A new entry is in the map, and takes no other's place.
pub add_peer_lem :
    (raw id addr : String) (out longer : PeerMap)
    → add_peer raw id addr out ≡ inr longer
    → (longer ≡ (id, addr) ∷ out) × (id ≢ "") × (addr ≢ "") × (peer_addr id out ≡ none)
unfolding add_peer
add_peer_lem raw id addr out longer added = ground (arith, eq_iff id "", eq_iff addr "")

peer_addr-kept :
    (raw id addr other : String) (v : String) (out longer : PeerMap)
    → add_peer raw id addr out ≡ inr longer
    → peer_addr other out ≡ some v
    → peer_addr other longer ≡ some v
unfolding peer_addr
peer_addr-kept raw id addr other v out longer added old =
    ground (arith, add_peer_lem raw id addr out longer added, eq_iff other id)

module _ (t : Texts) where
  pub peer_map_from_blank :
      (addr : String) (addrs : List String) (out : PeerMap)
      → t.trim_space addr ≡ ""
      → peer_map_from t (addr ∷ addrs) out ≡ peer_map_from t addrs out
  unfolding peer_map_from
  peer_map_from_blank addr addrs out blank = ground (arith, eq_iff (t.trim_space addr) "")

  pub peer_map_from_entry :
      (addr : String) (addrs : List String) (out m : PeerMap)
      → t.trim_space addr ≢ ""
      → peer_map_from t (addr ∷ addrs) out ≡ inr m
      → (longer : PeerMap) × (add_peer
            (t.trim_space addr)
            (peer_entry t (t.trim_space addr)).0
            (peer_entry t (t.trim_space addr)).1
            out
          ≡ inr longer)
        × (peer_map_from t addrs longer ≡ inr m)
  unfolding peer_map_from
  peer_map_from_entry addr addrs out m text built =
      let raw = t.trim_space addr in
      let entry = peer_entry t raw in
      elim (Sum-cases (add_peer raw entry.0 entry.1 out)) [
        | inl (e, bad) ↦ absurd (ground (arith, eq_iff raw ""))
        | inr (longer, added) ↦ (longer, added, ground (arith, eq_iff raw ""))
      ]

  kept :
      (addrs : List String) (out m : PeerMap) (id v : String)
      → peer_map_from t addrs out ≡ inr m
      → peer_addr id out ≡ some v
      → peer_addr id m ≡ some v
  unfolding peer_map_from
  kept [] out m id v built old = ground arith
  kept (addr ∷ addrs) out m id v built old = elim (Bool-cases (str_eq (t.trim_space addr) "")) [
    | inl blank ↦
        kept addrs out m id v
          (sym (peer_map_from_blank addr addrs out ((eq_iff (t.trim_space addr) "").0 blank))
            ∙ built)
          old
    | inr text ↦
        let raw = t.trim_space addr in
        let entry = peer_entry t raw in
        let (longer, added, rest) =
          peer_map_from_entry addr addrs out m (λ e. cc ((eq_iff raw "").1 e, text)) built in
        kept addrs longer m id v rest (peer_addr-kept raw entry.0 entry.1 id v out longer added old)
  ]

  in_map :
      (addrs : List String) (out m : PeerMap) (k : ℕ) (addr : String)
      → peer_map_from t addrs out ≡ inr m
      → get_elem? addrs k ≡ some addr
      → t.trim_space addr ≢ ""
      → let entry = peer_entry t (t.trim_space addr) in
        (entry.0 ≢ "") × (entry.1 ≢ "") × (peer_addr entry.0 m ≡ some entry.1)
  unfolding peer_addr
  in_map [] out m k addr built at text = cc
  in_map (x ∷ addrs) out m zero addr built at text =
      let own : x ≡ addr = cc in
      let raw = t.trim_space addr in
      let entry = peer_entry t raw in
      let (longer, added, rest) = peer_map_from_entry addr addrs out m text (rw own at built) in
      let facts = add_peer_lem raw entry.0 entry.1 out longer added in
      (
        facts.1,
        facts.2,
        kept addrs longer m entry.0 entry.1 rest (ground (arith, facts.0, eq_iff entry.0 entry.0)),
      )
  in_map (x ∷ addrs) out m (suc k) addr built at text =
      elim (Bool-cases (str_eq (t.trim_space x) "")) [
        | inl blank ↦
            in_map addrs out m k addr
              (sym (peer_map_from_blank x addrs out ((eq_iff (t.trim_space x) "").0 blank)) ∙ built)
              at text
        | inr full ↦
            let (longer, added, rest) =
              peer_map_from_entry x addrs out m (λ e. cc ((eq_iff (t.trim_space x) "").1 e, full))
                built in
            in_map addrs longer m k addr rest at text
      ]

  -- If the map of the peers is built, every entry that is not blank has an id and an address, and the
  -- map has that address for the id: no entry replaces another one.
  pub peer_addr_map-entry :
      (c : Config) (m : PeerMap) (k : ℕ) (addr : String)
      → peer_addr_map t c ≡ inr m
      → get_elem? c.peer_addrs k ≡ some addr
      → t.trim_space addr ≢ ""
      → let entry = peer_entry t (t.trim_space addr) in
        (entry.0 ≢ "") × (entry.1 ≢ "") × (peer_addr entry.0 m ≡ some entry.1)
  unfolding peer_addr_map
  peer_addr_map-entry c m k addr built at text = in_map c.peer_addrs [] m k addr built at text
