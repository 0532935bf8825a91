-- ===== src/Balance/Transfer/Outside.antt =====
-- Chains of which no node is in another.
use puma.Base.{◌≡◌, refl, sym, ◌∙◌, arith, Bool, true, false, ◌||◌, ◌++◌}
use puma.Memory.{Ptr}
use puma.Node.Chain.{Cells, has, has-++, Apart, Apart-++}
use puma.Balance.Splice.{separate-sym}
use puma.Balance.Transfer.Stages.{Disjoint}

or_false : (x y : Bool) → (x || y) ≡ false → (x ≡ false) × (y ≡ false)
or_false true y e = ground (arith, e)
or_false false y e = (refl, e)

module _ (f_after t_after : Ptr) (kept moved grown : Cells) where
  pub outside_from :
      (q : Ptr) → has q (kept ++ moved) ≡ false → (has q kept ≡ false) × (has q moved ≡ false)
  outside_from q new = or_false (has q kept) (has q moved) (sym (has-++ q kept moved) ∙ new)

  pub outside :
      (q : Ptr)
      → has q ((kept ++ moved) ++ grown) ≡ false
      → (has q (kept ++ moved) ≡ false) × (has q grown ≡ false)
  outside q new =
      or_false (has q (kept ++ moved)) (has q grown) (sym (has-++ q (kept ++ moved) grown) ∙ new)

  pub Disjoint-Apart :
      Apart ((kept ++ moved) ++ grown)
      → has f_after ((kept ++ moved) ++ grown) ≡ false
      → has t_after ((kept ++ moved) ++ grown) ≡ false
      → Disjoint f_after t_after moved kept grown
  Disjoint-Apart apart no_f no_t =
      let (apart_from, apart_grown, cross) = Apart-++ (kept ++ moved) grown apart in
      let (apart_kept, apart_moved, cross') = Apart-++ kept moved apart_from in
      record {
        moved_apart = apart_moved;
        kept_apart = apart_kept;
        grown_apart = apart_grown;
        moved_kept = cross';
        moved_grown =
            separate-sym grown moved (λ q in_grown. (outside_from q (cross q in_grown)).1);
        grown_kept = λ q in_grown. (outside_from q (cross q in_grown)).0;
        f_moved = (outside_from f_after (outside f_after no_f).0).1;
        f_kept = (outside_from f_after (outside f_after no_f).0).0;
        f_grown = (outside f_after no_f).1;
        t_moved = (outside_from t_after (outside t_after no_t).0).1;
        t_kept = (outside_from t_after (outside t_after no_t).0).0;
        t_grown = (outside t_after no_t).1;
      }
