-- ===== src/Memory/Layout.antt =====
-- What value a piece of memory stands for, and copies that share no memory with the original.
use schema_strimzi_operator.Prelude.{ℕ, ◌≤◌, ◌<◌, some, ◌≡◌, refl, arith, ◌∙◌}
use schema_strimzi_operator.Memory.{Heap, Cmd, return, ◌>>=◌}

-- How values of type A lie in memory as a T. `Reads lo hi h x a` says that x stands for a in the heap
-- h, and that all the cells that it reaches have addresses from lo up to, but without, hi.
pub record Layout (C T A : Type 0) : Type 1 where
  pub Reads : ℕ → ℕ → Heap C → T → A → Type 0
  -- It holds as long as these cells hold what they do.
  pub frame :
      (lo hi lo' hi' : ℕ) (h g : Heap C) (x : T) (a : A)
      → lo' ≤ lo
      → hi ≤ hi'
      → ((p : ℕ) → lo ≤ p → p < hi → g.cell p ≡ h.cell p)
      → Reads lo hi h x a
      → Reads lo' hi' g x a

module _ {C : Type 0} where
  -- The heap g has all that h has, and may have more.
  pub record Extends (h g : Heap C) : Type 0 where
    pub grows : h.next ≤ g.next
    pub same : (p : ℕ) → p < h.next → g.cell p ≡ h.cell p

  pub Extends-refl : (h : Heap C) → Extends h h
  Extends-refl h = record { grows = omega arith; same = λ p l. refl }

  pub Extends-trans : (h g k : Heap C) → Extends h g → Extends g k → Extends h k
  Extends-trans h g k e f =
      let grows = e.grows in
      let grows' = f.grows in
      record { grows = omega arith; same = λ p l. f.same p (omega arith) ∙ e.same p l }

  -- The command does not fault, leaves alone what is there, and what it returns satisfies P.
  pub record Makes {A : Type 0} (P : A → Heap C → Type 0) (m : Cmd C A) (h : Heap C) : Type 0 where
    pub value : A
    pub heap : Heap C
    pub run : m h ≡ some (value, heap)
    pub extends : Extends h heap
    pub holds : P value heap

  module _ {A : Type 0} {P : A → Heap C → Type 0} where
    pub Makes-return : (a : A) (h : Heap C) → P a h → Makes P (return a) h
    Makes-return a h p = record {
      value = a;
      heap = h;
      run = refl;
      extends = Extends-refl h;
      holds = p;
    }

    pub Makes-bind :
        {B : Type 0} {Q : B → Heap C → Type 0} (m : Cmd C A) (k : A → Cmd C B) (h : Heap C)
        → Makes P m h
        → ((a : A) (g : Heap C) → Extends h g → P a g → Makes Q (k a) g)
        → Makes Q (m >>= k) h
    Makes-bind m k h p next =
        let rest = next p.value p.heap p.extends p.holds in
        record {
          value = rest.value;
          heap = rest.heap;
          run = rw p.run rest.run;
          extends = Extends-trans h p.heap rest.heap p.extends rest.extends;
          holds = rest.holds;
        }

  module _ {T A : Type 0} (l : Layout C T A) where
    -- What is read stays in a heap that has more.
    pub carry :
        (lo hi lo' hi' : ℕ) (h g : Heap C) (x : T) (a : A)
        → lo' ≤ lo
        → hi ≤ hi'
        → hi ≤ h.next
        → Extends h g
        → l.Reads lo hi h x a
        → l.Reads lo' hi' g x a
    carry lo hi lo' hi' h g x a low high bound e r =
        l.frame lo hi lo' hi' h g x a low high (λ p from to. e.same p (omega arith)) r

    -- A copy of what lies in used memory stands for the same value, in memory that was unused.
    pub record Copies (copy : T → Cmd C T) : Type 0 where
      pub at :
          (lo hi : ℕ) (h : Heap C) (x : T) (a : A)
          → hi ≤ h.next
          → l.Reads lo hi h x a
          → Makes (λ y g. l.Reads h.next g.next g y a) (copy x) h

    -- A copy that is one of several, of which the first starts from the heap h.
    pub step :
        (copy : T → Cmd C T) (lo hi : ℕ) (h g : Heap C) (x : T) (a : A)
        → Copies copy
        → hi ≤ h.next
        → Extends h g
        → l.Reads lo hi h x a
        → Makes (λ y k. l.Reads h.next k.next k y a) (copy x) g
    step copy lo hi h g x a copies bound e r =
        let grows = e.grows in
        let made =
          copies.at lo hi g x a (omega arith)
            (carry lo hi lo hi h g x a (omega arith) (omega arith) bound e r) in
        record {
          value = made.value;
          heap = made.heap;
          run = made.run;
          extends = made.extends;
          holds =
              l.frame g.next made.heap.next h.next made.heap.next made.heap made.heap made.value a
                grows (omega arith) (λ p from to. refl) made.holds;
        }

    -- What it makes stays while the others are made.
    pub keep :
        (lo : ℕ) (h g : Heap C) (x : T) (a : A)
        → Extends h g
        → l.Reads lo h.next h x a
        → l.Reads lo g.next g x a
    keep lo h g x a e r = carry lo h.next lo g.next h g x a (omega arith) e.grows (omega arith) e r
