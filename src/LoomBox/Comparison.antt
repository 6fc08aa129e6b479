-- ===== src/LoomBox/Comparison.antt =====
-- The comparisons of boxes of src/loombox.rs, which compare the contents.
use oneshot.Prelude.{◌≡◌, ◌∙◌, Bool, Option}
use oneshot.LoomBox.Blocks.{Heap, Ran, done, ◌>>=◌, pure}
use oneshot.LoomBox.{Box, deref}
use oneshot.LoomBox.Laws.{bind-done}

-- `core::cmp::Ordering`
pub data Ordering : Type 0 where
  less equal greater : Ordering

-- `PartialEq`, `PartialOrd` and `Ord` of the content.
pub record PartialEq (A : Type 0) : Type 0 where
  pub eq : A → A → Bool
  pub ne : A → A → Bool

pub record PartialOrd (A : Type 0) : Type 0 where
  pub partial_cmp : A → A → Option Ordering
  pub lt : A → A → Bool
  pub le : A → A → Bool
  pub ge : A → A → Bool
  pub gt : A → A → Bool

pub record Ord (A : Type 0) : Type 0 where
  pub cmp : A → A → Ordering

module _ {A B : Type 0} where
  abbrev both : (A → A → B) → Box → Box → Heap A → Ran A B
  both f b c = do x ← deref b; y ← deref c; pure (f x y)

module _ {A B : Type 0} (f : A → A → B) (b c : Box) (x y : A) (heap : Heap A) where
  pub both-done :
      deref b heap ≡ done x heap → deref c heap ≡ done y heap → both f b c heap ≡ done (f x y) heap
  both-done h k =
      bind-done (deref b) (λ v. deref c >>= λ w. pure (f v w)) heap heap x h
      ∙ bind-done (deref c) (λ w. pure (f x w)) heap heap y k

module _ {A : Type 0} (o : PartialEq A) where
  unfoldable pub eq : Box → Box → Heap A → Ran A Bool
  eq = both o.eq

  unfoldable pub ne : Box → Box → Heap A → Ran A Bool
  ne = both o.ne

module _ {A : Type 0} (o : PartialOrd A) where
  unfoldable pub partial_cmp : Box → Box → Heap A → Ran A (Option Ordering)
  partial_cmp = both o.partial_cmp

  unfoldable pub lt : Box → Box → Heap A → Ran A Bool
  lt = both o.lt

  unfoldable pub le : Box → Box → Heap A → Ran A Bool
  le = both o.le

  unfoldable pub ge : Box → Box → Heap A → Ran A Bool
  ge = both o.ge

  unfoldable pub gt : Box → Box → Heap A → Ran A Bool
  gt = both o.gt

module _ {A : Type 0} (o : Ord A) where
  unfoldable pub cmp : Box → Box → Heap A → Ran A Ordering
  cmp = both o.cmp
