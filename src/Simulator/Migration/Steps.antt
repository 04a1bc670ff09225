-- ===== src/Simulator/Migration/Steps.antt =====
-- The statements of a migration beside tables that have nothing to do with it.
use sentinel_chain.Base.{String, ◌≡◌, ◌∙◌, true, false, List, [], ◌∷◌, ◌++◌}
use sentinel_chain.Simulator.Schema.{Table, has, all_resolve, is_referred, without, with_full}
use sentinel_chain.Simulator.Schema.Laws.{Ddl, DdlLaws, Does}
use sentinel_chain.Simulator.Migration.{identify}
use sentinel_chain.Simulator.Migration.Frame.{
  Apart, append_assoc, all_resolve-frame, has-frame, is_referred-frame, without-frame,
  with_full-frame,
}

module _ {X : Type 0} {ddl : Ddl X} (laws : DdlLaws ddl) (base : List Table) where
  pub create_step :
      (t : Table) (xs : List Table)
      → Apart base t.name
      → has t.name xs ≡ false
      → all_resolve xs t.columns ≡ true
      → Does laws (ddl.create_table t) (base ++ xs) (base ++ (xs ++ t ∷ []))
  create_step t xs apart new resolve = record {
    does = λ s e.
        let fine =
          laws.creates t s (rw e (has-frame base xs t.name apart.new_name ∙ new))
            (rw e (all_resolve-frame base xs t.columns resolve)) in
        (fine, laws.created t s fine ∙ rw e (append_assoc base xs (t ∷ [])));
  }

  pub drop_step :
      (n : String) (xs : List Table)
      → Apart base n
      → has n xs ≡ true
      → is_referred n xs ≡ false
      → Does laws (ddl.drop_table n) (base ++ xs) (base ++ without n xs)
  drop_step n xs apart there free = record {
    does = λ s e.
        let fine =
          laws.drops n s (rw e (has-frame base xs n apart.new_name ∙ there))
            (rw e (is_referred-frame base xs n apart.unreferred ∙ free)) in
        (fine, laws.dropped n s fine ∙ rw e (without-frame base xs n apart.new_name));
  }

  pub identify_step :
      (n : String) (xs : List Table)
      → Apart base n
      → has n xs ≡ true
      → Does laws (identify ddl n) (base ++ xs) (base ++ with_full n xs)
  identify_step n xs apart there = record {
    does = λ s e.
        let fine = laws.alters n s (rw e (has-frame base xs n apart.new_name ∙ there)) in
        (fine, laws.altered n s fine ∙ rw e (with_full-frame base xs n apart.new_name));
  }
