-- ===== src/Memory/Outside.antt =====
-- What the rest of the program may do with memory.
use schema_strimzi_operator.Prelude.{ℕ, ◌≤◌, ◌<◌, ◌⊎◌, inl, inr, ◌≡◌, ◌≢◌, refl, arith, ◌∙◌}
use schema_strimzi_operator.Memory.{Heap}
use schema_strimzi_operator.Memory.Layout.{Layout}
use schema_strimzi_operator.Memory.Copying.{allocated, written, update-there}

elsewhere : (lo hi p q : ℕ) → (p < lo) ⊎ (hi ≤ p) → lo ≤ q → q < hi → q ≢ p
elsewhere lo hi p q (inl below) from to same = omega arith
elsewhere lo hi p q (inr above) from to same = omega arith

module _ {C : Type 0} (lo hi : ℕ) where
  -- From h to g by any number of allocations and writes, none of them to an address from lo up to,
  -- but without, hi.
  pub data Outside (h : Heap C) : Heap C → Type 0 where
    nothing : Outside h h
    allocates : {g : Heap C} → Outside h g → (c : C) → Outside h (allocated g c)
    writes :
        {g : Heap C}
        → Outside h g
        → (p : ℕ) (c : C) → (p < lo) ⊎ (hi ≤ p)
        → Outside h (written g p c)

  Outside-next : {h g : Heap C} → Outside h g → h.next ≤ g.next
  Outside-next nothing = omega arith
  Outside-next (allocates o c) = let ih = Outside-next o in omega arith
  Outside-next (writes o p c out) = Outside-next o

  pub Outside-cell :
      {h g : Heap C} → Outside h g → hi ≤ h.next → (q : ℕ) → lo ≤ q → q < hi → g.cell q ≡ h.cell q
  Outside-cell nothing bound q from to = refl
  Outside-cell (allocates {g} o c) bound q from to =
      let grows = Outside-next o in
      update-there g.cell g.next c q (λ same. omega arith) ∙ Outside-cell o bound q from to
  Outside-cell (writes {g} o p c out) bound q from to =
      update-there g.cell p c q (elsewhere lo hi p q out from to) ∙ Outside-cell o bound q from to

  -- What lies in these addresses stands for what it did.
  pub Outside-Reads :
      {T A : Type 0} (l : Layout C T A) {h g : Heap C} (x : T) (a : A)
      → Outside h g
      → hi ≤ h.next
      → l.Reads lo hi h x a
      → l.Reads lo hi g x a
  Outside-Reads l {h} {g} x a o bound r =
      l.frame lo hi lo hi h g x a (omega arith) (omega arith) (Outside-cell o bound) r
