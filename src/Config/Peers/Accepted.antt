-- ===== src/Config/Peers/Accepted.antt =====
-- Which lists of peers have a map.
use consensus_lab.Base.{
  ℕ, zero, suc, ◌<◌, ◌≡◌, ◌≢◌, ◌↔◌, refl, sym, ◌∙◌, inl, inr, String, str_eq, eq_iff, false, none,
  some, List, [], ◌∷◌, get_elem?, Bool-cases, arith,
}
use consensus_lab.Config.{
  Texts, Config, PeerMap, peer_addr, add_peer, peer_entry, peer_map_from, peer_addr_map,
}
use consensus_lab.Config.Peers.{
  add_peer_lem, peer_map_from_blank, peer_map_from_entry, peer_addr_map-entry,
}

module _ (t : Texts) where
  -- the id and the address of an entry
  abbrev pub id_of_entry : String → String
  id_of_entry addr = (peer_entry t (t.trim_space addr)).0

  abbrev pub addr_of_entry : String → String
  addr_of_entry addr = (peer_entry t (t.trim_space addr)).1

  -- an entry that is not blank stands at the index
  abbrev pub Listed : List String → ℕ → String → Type 0
  Listed addrs k addr = (get_elem? addrs k ≡ some addr) × (t.trim_space addr ≢ "")

  -- Every entry has an id and an address, and no two entries have one id.
  pub record ArePeers (addrs : List String) : Type 0 where
    pub complete :
        (k : ℕ) (addr : String)
        → Listed addrs k addr
        → (id_of_entry addr ≢ "") × (addr_of_entry addr ≢ "")
    pub distinct :
        (j k : ℕ) (a b : String)
        → j < k
        → Listed addrs j a
        → Listed addrs k b
        → id_of_entry b ≢ id_of_entry a

  -- None of the entries has an id of the map.
  abbrev AreNew : List String → PeerMap → Type 0
  AreNew addrs out =
      (k : ℕ) (addr : String) → Listed addrs k addr → peer_addr (id_of_entry addr) out ≡ none

  ArePeers-tail : (addr : String) (addrs : List String) → ArePeers (addr ∷ addrs) → ArePeers addrs
  ArePeers-tail addr addrs fine = record {
    complete = λ k. fine.complete (suc k);
    distinct = λ j k a b before. fine.distinct (suc j) (suc k) a b (omega arith);
  }

  added_new :
      (raw id v other : String) (out longer : PeerMap)
      → add_peer raw id v out ≡ inr longer
      → peer_addr other longer ≡ none
      → (other ≢ id) × (peer_addr other out ≡ none)
  unfolding peer_addr
  added_new raw id v other out longer added new =
      ground (arith, add_peer_lem raw id v out longer added, eq_iff other id)

  new_kept :
      (id v other : String) (out : PeerMap)
      → other ≢ id
      → peer_addr other out ≡ none
      → peer_addr other ((id, v) ∷ out) ≡ none
  unfolding peer_addr
  new_kept id v other out apart new = ground (arith, eq_iff other id)

  add_peer_new :
      (raw id v : String) (out : PeerMap)
      → id ≢ ""
      → v ≢ ""
      → peer_addr id out ≡ none
      → add_peer raw id v out ≡ inr ((id, v) ∷ out)
  unfolding add_peer
  add_peer_new raw id v out some_id some_v new = ground (arith, eq_iff id "", eq_iff v "")

  text_of_full : (addr : String) → str_eq (t.trim_space addr) "" ≡ false → t.trim_space addr ≢ ""
  text_of_full addr full e = cc ((eq_iff (t.trim_space addr) "").1 e, full)

  built_complete :
      (addrs : List String) (out : PeerMap)
      → ArePeers addrs
      → AreNew addrs out
      → (m : PeerMap) × (peer_map_from t addrs out ≡ inr m)
  unfolding peer_map_from
  built_complete [] out fine new = (out, refl)
  built_complete (addr ∷ addrs) out fine new = elim (Bool-cases (str_eq (t.trim_space addr) "")) [
    | inl blank ↦
        let (m, built) =
          built_complete addrs out (ArePeers-tail addr addrs fine) (λ k. new (suc k)) in
        (m, peer_map_from_blank t addr addrs out ((eq_iff (t.trim_space addr) "").0 blank) ∙ built)
    | inr full ↦
        let text = text_of_full addr full in
        let id = id_of_entry addr in
        let v = addr_of_entry addr in
        let (some_id, some_v) = fine.complete 0 addr (refl, text) in
        let added =
          add_peer_new (t.trim_space addr) id v out some_id some_v (new 0 addr (refl, text)) in
        let (m, built) =
          built_complete addrs ((id, v) ∷ out) (ArePeers-tail addr addrs fine) (λ k b at.
            new_kept id v (id_of_entry b) out
              (fine.distinct 0 (suc k) addr b (omega arith) (refl, text) at) (new (suc k) b at)) in
        (m, ground (arith, full, added, built))
  ]

  built_new :
      (addrs : List String) (out m : PeerMap) → peer_map_from t addrs out ≡ inr m → AreNew addrs out
  unfolding peer_map_from
  built_new [] out m built k addr (at, text) = cc at
  built_new (x ∷ addrs) out m built zero addr (at, text) =
      let own : x ≡ addr = cc at in
      let (longer, added, rest) = peer_map_from_entry t addr addrs out m text (rw own at built) in
      (add_peer_lem (t.trim_space addr) (id_of_entry addr) (addr_of_entry addr) out longer added).3
  built_new (x ∷ addrs) out m built (suc k) addr (at, text) =
      elim (Bool-cases (str_eq (t.trim_space x) "")) [
        | inl blank ↦
            built_new addrs out m
              (sym (peer_map_from_blank t x addrs out ((eq_iff (t.trim_space x) "").0 blank))
                ∙ built)
              k addr (at, text)
        | inr full ↦
            let (longer, added, rest) =
              peer_map_from_entry t x addrs out m (text_of_full x full) built in
            (added_new (t.trim_space x) (id_of_entry x) (addr_of_entry x) (id_of_entry addr) out
              longer added (built_new addrs longer m rest k addr (at, text))).1
      ]

  built_distinct :
      (addrs : List String) (out m : PeerMap)
      → peer_map_from t addrs out ≡ inr m
      → (j k : ℕ) (a b : String) → j < k
      → Listed addrs j a
      → Listed addrs k b
      → id_of_entry b ≢ id_of_entry a
  built_distinct [] out m built j k a b before (at, text) other = absurd (cc at)
  built_distinct (x ∷ addrs) out m built j zero a b before one other = absurd (omega arith)
  built_distinct (x ∷ addrs) out m built zero (suc k) a b before (at, text) other =
      let own : x ≡ a = cc at in
      let (longer, added, rest) = peer_map_from_entry t a addrs out m text (rw own at built) in
      (added_new (t.trim_space a) (id_of_entry a) (addr_of_entry a) (id_of_entry b) out longer added
        (built_new addrs longer m rest k b other)).0
  built_distinct (x ∷ addrs) out m built (suc j) (suc k) a b before one other =
      elim (Bool-cases (str_eq (t.trim_space x) "")) [
        | inl blank ↦
            built_distinct addrs out m
              (sym (peer_map_from_blank t x addrs out ((eq_iff (t.trim_space x) "").0 blank))
                ∙ built)
              j k a b (omega arith) one other
        | inr full ↦
            let (longer, added, rest) =
              peer_map_from_entry t x addrs out m (text_of_full x full) built in
            built_distinct addrs longer m rest j k a b (omega arith) one other
      ]

  -- The map of the peers is built exactly if every entry that is not blank has an id and an address,
  -- and no two of them have one id.
  pub peer_addr_map_iff :
      (c : Config) → ((m : PeerMap) × (peer_addr_map t c ≡ inr m)) ↔ ArePeers c.peer_addrs
  unfolding peer_addr_map peer_addr
  peer_addr_map_iff c = (
    λ (m, built). record {
      complete = λ k addr (at, text).
          let facts = peer_addr_map-entry t c m k addr built at text in (facts.0, facts.1);
      distinct = built_distinct c.peer_addrs [] m built;
    },
    λ fine. built_complete c.peer_addrs [] fine (λ k addr at. refl),
  )
