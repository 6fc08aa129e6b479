-- ===== src/LoomBox/Laws.antt =====
-- Blocks of the heap that are looked up after an update.
use oneshot.Prelude.{ℕ, ◌≡◌, ◌≢◌, refl, ap, Option, none, some, List, [], ◌∷◌, arith}
use oneshot.Memory.{Slot}
use oneshot.LoomBox.Blocks.{Block, find, remove, fill, Heap, Ran, done, panicked, invalid, ◌>>=◌}

module _ {A : Type 0} where
  -- Each block has an address of its own, which is not null.
  abbrev pub IsDistinct : List (Block A) → Type 0
  IsDistinct [] = Unit
  IsDistinct (b ∷ bs) = (find b.address bs ≡ none) × (b.address ≢ 0) × IsDistinct bs

  pub find-next :
      (p : ℕ) (b : Block A) (bs : List (Block A)) → p ≢ b.address → find p (b ∷ bs) ≡ find p bs
  find-next p b bs h = ground arith

  pub find-fill_other :
      (p q : ℕ) (v : Slot A) (bs : List (Block A)) → p ≢ q → find p (fill q v bs) ≡ find p bs
  find-fill_other p q v [] h = refl
  find-fill_other p q v (b ∷ bs) h = ground (arith, find-fill_other p q v bs h)

  pub find-remove_other : (p q : ℕ) (bs : List (Block A)) → p ≢ q → find p (remove q bs) ≡ find p bs
  find-remove_other p q [] h = refl
  find-remove_other p q (b ∷ bs) h = ground (arith, find-remove_other p q bs h)

  pub find-remove : (p : ℕ) (bs : List (Block A)) → IsDistinct bs → find p (remove p bs) ≡ none
  find-remove p [] h = refl
  find-remove p (b ∷ bs) h = ground (arith, find-remove p bs h.2)

  abbrev pub filled : Slot A → Option (Block A) → Option (Block A)
  filled v none = none
  filled v (some b) = some (record b { content = v })

  pub find-fill :
      (p : ℕ) (v : Slot A) (bs : List (Block A)) → find p (fill p v bs) ≡ filled v (find p bs)
  find-fill p v [] = refl
  find-fill p v (b ∷ bs) = ground (arith, find-fill p v bs)

  pub remove-fill :
      (p : ℕ) (v : Slot A) (bs : List (Block A)) → remove p (fill p v bs) ≡ remove p bs
  remove-fill p v [] = refl
  remove-fill p v (b ∷ bs) = ground (arith, remove-fill p v bs)

  absent-fill :
      (p q : ℕ) (v : Slot A) (bs : List (Block A)) → find p bs ≡ none → find p (fill q v bs) ≡ none
  absent-fill p q v [] h = refl
  absent-fill p q v (b ∷ bs) h = ground (arith, absent-fill p q v bs)

  absent-remove : (p q : ℕ) (bs : List (Block A)) → find p bs ≡ none → find p (remove q bs) ≡ none
  absent-remove p q [] h = refl
  absent-remove p q (b ∷ bs) h = ground (arith, absent-remove p q bs)

  pub fill-IsDistinct :
      (p : ℕ) (v : Slot A) (bs : List (Block A)) → IsDistinct bs → IsDistinct (fill p v bs)
  fill-IsDistinct p v [] h = tt
  fill-IsDistinct p v (b ∷ bs) h =
      ground (arith, absent-fill b.address p v bs h.0, fill-IsDistinct p v bs h.2)

  pub remove-IsDistinct : (p : ℕ) (bs : List (Block A)) → IsDistinct bs → IsDistinct (remove p bs)
  remove-IsDistinct p [] h = tt
  remove-IsDistinct p (b ∷ bs) h =
      ground (arith, absent-remove b.address p bs h.0, remove-IsDistinct p bs h.2)

module _ {A B C : Type 0} (c : Heap A → Ran A B) (f : B → Heap A → Ran A C) (heap heap' : Heap A)
    (b : B) where
  pub bind-done : c heap ≡ done b heap' → (c >>= f) heap ≡ f b heap'
  bind-done e =
      ap
        (λ (r : Ran A B). elim r [
          | done b heap' ↦ f b heap'
          | panicked ↦ panicked
          | invalid ↦ invalid
        ])
        e

module _ {A B C : Type 0} (c : Heap A → Ran A B) (f : B → Heap A → Ran A C) (heap : Heap A) where
  -- What a run of both was.
  pub bind-cases :
      (r : C) (after : Heap A)
      → (c >>= f) heap ≡ done r after
      → (x : B) × (between : Heap A) × (c heap ≡ done x between) × (f x between ≡ done r after)
  bind-cases r after e = split (c heap) refl e
    where
      split :
          (o : Ran A B)
          → c heap ≡ o
          → elim o [ done x h ↦ f x h | panicked ↦ panicked | invalid ↦ invalid ] ≡ done r after
          → (x : B) × (between : Heap A) × (c heap ≡ done x between) × (f x between ≡ done r after)
      split (done x h) same d = (x, h, same, d)
      split panicked same d = cc
      split invalid same d = cc
