-- ===== src/Smirk/Tree/NotNull.antt =====
-- A batch puts the null hash in no leaf (ciphera/pkg/smirk/src/tree/raw_api.rs).
use zerosats.Prelude.{
  ℕ, ◌≡◌, ◌≢◌, sym, subst, ◌∙◌, inl, inr, ◌||◌, true, false, List, ◌++◌, elem, elem-append, arith,
  Bool,
}
use zerosats.Smirk.Batch.{Batch, ok, insert_elements, remove_elements}
use zerosats.Smirk.Node.{Step, insert_change, remove_change, null_hash}
use zerosats.Smirk.Node.Progress.{HasNoNull}
use zerosats.Smirk.Node.NoNull.{
  NotNull, insert_without_hashing-HasNoNull, recalculate_hashes-HasNoNull,
}
use zerosats.Smirk.Tree.{Tree, changes, insert_batch}
use zerosats.Smirk.Tree.Paths.{All-append}
use zerosats.Smirk.Tree.Sorted.{steps, All-sort}
use zerosats.Smirk.Tree.Arrivals.{All-steps}
use zerosats.Smirk.Tree.Ran.{insert_batch-Ran}

changes-NotNull :
    (depth : ℕ) (inserts removes : List ℕ)
    → elem null_hash (inserts ++ removes) ≡ false
    → NotNull (changes depth inserts removes)
changes-NotNull depth inserts removes n =
    let P : Step → Type 0 = λ c. c.element ≢ null_hash in
    let both : (elem null_hash inserts || elem null_hash removes) ≡ false =
      sym (elem-append null_hash inserts removes) ∙ n in
    All-sort P (steps depth insert_change inserts ++ steps depth remove_change removes) (
      All-append P (steps depth insert_change inserts) (steps depth remove_change removes)
        (All-steps depth P insert_change inserts
          (λ e h z. absurd (ground (arith, both, subst (λ x. elem x inserts ≡ true) z h))))
        (All-steps depth P remove_change removes
          (λ e h z. absurd (ground (arith, both, subst (λ x. elem x removes ≡ true) z h)))))

module _ (hash_merge : ℕ → ℕ → ℕ) (depth : ℕ) {V : Type 0} where
  pub insert_batch-HasNoNull :
      (temp_noir : Bool) (t : Tree V) (b : Batch V) (t' : Tree V)
      → HasNoNull t.node
      → insert_batch hash_merge depth temp_noir t b ≡ ok t'
      → HasNoNull t'.node
  insert_batch-HasNoNull temp_noir t b t' full h =
      let run = insert_batch-Ran hash_merge depth temp_noir t b t' h in
      let middle : HasNoNull run.middle = elim run.made [
        | inl (_, same, _) ↦ subst HasNoNull (sym same) full
        | inr (q, _, n) ↦
            insert_without_hashing-HasNoNull hash_merge depth t.node 0
              (changes depth (insert_elements b) (remove_elements b)) full
              (changes-NotNull depth (insert_elements b) (remove_elements b) n) run.middle true q
      ] in
      recalculate_hashes-HasNoNull hash_merge depth run.middle t'.node middle run.recalculated
