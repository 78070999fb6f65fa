-- ===== src/Client/Batch/Numbered.antt =====
-- A batch calls for each of its lines in order, and prints one line for each.
use consensus_lab.Base.{
  ℕ, zero, suc, ◌+◌, ◌-◌, ◌⊎◌, inl, inr, ◌≡◌, refl, ap, String, str_eq, true, false, none, some,
  List, [], ◌∷◌, map, length, arith, Bool-cases, Option-cases,
}
use consensus_lab.Transport.KvServer.{ClientError}
use consensus_lab.Client.Batch.{
  Calls, Printed, invalid_tsv_line, ok_write, ok_read, not_found, timed_out, failed, failure,
  write_line, cmd_put_batch,
}

unfoldable pub number_of : Printed → ℕ
number_of (invalid_tsv_line n) = n
number_of (ok_write n ms index key) = n
number_of (ok_read n us key size) = n
number_of (not_found n us key) = n
number_of (timed_out n ms key e) = n
number_of (failed n ms key e) = n

-- the numbers from the one after `n` on
unfoldable pub upto : ℕ → ℕ → List ℕ
upto n zero = []
upto n (suc k) = (n + 1) ∷ upto (n + 1) k

module _ {W : Type 0} (c : Calls W) where
  unfoldable pub not_blank : List String → List String
  not_blank [] = []
  not_blank (line ∷ lines) = elim (str_eq (c.trim_space line) "") [
    | true ↦ not_blank lines
    | false ↦ line ∷ not_blank lines
  ]

  -- what the writes of the lines do to the world
  unfoldable pub put_all : List String → W → W
  put_all [] w = w
  put_all (line ∷ lines) w = elim (c.cut_tab line) [
    | none ↦ put_all lines w
    | some (key, value) ↦ put_all lines (c.put key value w).1
  ]

  number-write_line :
      (seq ms : ℕ) (key : String) (r : ClientError ⊎ ℕ)
      → number_of (write_line c seq ms key r) ≡ seq
  unfolding write_line number_of failure
  number-write_line seq ms key (inr index) = refl
  number-write_line seq ms key (inl e) = ground arith

  -- The lines that a batch prints are numbered one by one, as many as there are lines that are not blank,
  -- and the writes are those of these lines, in their order.
  pub cmd_put_batch_in_order :
      (lines : List String) (seq : ℕ) (w : W)
      → (map number_of (cmd_put_batch c lines seq w).0 ≡ upto seq (length (not_blank lines)))
        × ((cmd_put_batch c lines seq w).1 ≡ put_all (not_blank lines) w)
  unfolding cmd_put_batch not_blank put_all upto number_of
  cmd_put_batch_in_order [] seq w = (refl, refl)
  cmd_put_batch_in_order (line ∷ lines) seq w = elim (Bool-cases (str_eq (c.trim_space line) "")) [
    | inl blank ↦ rw (map, cmd_put_batch, not_blank, blank) (cmd_put_batch_in_order lines seq w)
    | inr text ↦ elim (Option-cases (c.cut_tab line)) [
      | inl whole ↦
          let (numbers, world) = cmd_put_batch_in_order lines (seq + 1) w in
          rw (map, cmd_put_batch, not_blank, put_all, text, whole)
            (ap (λ ns. (seq + 1) ∷ ns) numbers, world)
      | inr ((key, value), parts) ↦
          let r = c.put key value w in
          let (numbers, world) = cmd_put_batch_in_order lines (seq + 1) r.1 in
          let number =
            number-write_line (seq + 1) (c.milliseconds r.1 - c.milliseconds w) key r.0 in
          rw (map, cmd_put_batch, not_blank, put_all, text, parts)
            (rw number (ap (λ ns. (seq + 1) ∷ ns) numbers), world)
    ]
  ]
