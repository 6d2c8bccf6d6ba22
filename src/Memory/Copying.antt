-- ===== src/Memory/Copying.antt =====
-- Layouts of plain values, pointers and slices, and what the copies of each of them make.
use schema_strimzi_operator.Prelude.{
  ℕ, ◌+◌, ◌≤◌, ◌<◌, Option, some, none, List, [], ◌∷◌, map, ◌≡◌, ◌≢◌, refl, arith, ◌∙◌,
}
use schema_strimzi_operator.Memory.{
  Heap, Cmd, Pointer, Storable, update, return, ◌>>=◌, ◌>>◌, alloc, load, store, copy_pointer,
  copy_each, copy_slice,
}
use schema_strimzi_operator.Memory.Layout.{
  Layout, Extends, Extends-trans, Makes, Makes-return, Makes-bind, carry, Copies,
}

module _ {C : Type 0} where
  -- A value without pointers.
  abbrev pub flat : (A : Type 0) → Layout C A A
  flat A = record {
    Reads = λ lo hi h x a. x ≡ a;
    frame = λ lo hi lo' hi' h g x a low high same r. r;
  }

  pub flat-Copies : {A : Type 0} → Copies (flat A) return
  flat-Copies = record { at = λ lo hi h x a bound r. Makes-return x h r }

  module _ {T A : Type 0} (s : Storable C T) (l : Layout C T A) where
    abbrev pub PointerReads : ℕ → ℕ → Heap C → Pointer → Option A → Type 0
    PointerReads lo hi h none none = Unit
    PointerReads lo hi h (some p) (some a) =
        (x : T) × (lo ≤ p) × (p < hi) × (h.cell p ≡ some (s.wrap x)) × l.Reads lo hi h x a
    PointerReads lo hi h _ _ = ⊥

    pub PointerReads-frame :
        (lo hi lo' hi' : ℕ) (h g : Heap C) (x : Pointer) (a : Option A)
        → lo' ≤ lo
        → hi ≤ hi'
        → ((p : ℕ) → lo ≤ p → p < hi → g.cell p ≡ h.cell p)
        → PointerReads lo hi h x a
        → PointerReads lo' hi' g x a
    PointerReads-frame lo hi lo' hi' h g none none low high same r = tt
    PointerReads-frame lo hi lo' hi' h g (some p) (some a) low high same (x, from, to, here, r) = (
      x,
      omega arith,
      omega arith,
      same p from to ∙ here,
      l.frame lo hi lo' hi' h g x a low high same r,
    )
    PointerReads-frame lo hi lo' hi' h g none (some a) low high same r = absurd r
    PointerReads-frame lo hi lo' hi' h g (some p) none low high same r = absurd r

    abbrev pub pointer : Layout C Pointer (Option A)
    pointer = record { Reads = PointerReads; frame = PointerReads-frame }

  module _ {T A : Type 0} (l : Layout C T A) where
    abbrev pub EachReads : ℕ → ℕ → Heap C → List T → List A → Type 0
    EachReads lo hi h [] [] = Unit
    EachReads lo hi h (x ∷ xs) (a ∷ values) = l.Reads lo hi h x a × EachReads lo hi h xs values
    EachReads lo hi h _ _ = ⊥

    EachReads-frame :
        (lo hi lo' hi' : ℕ) (h g : Heap C) (xs : List T) (values : List A)
        → lo' ≤ lo
        → hi ≤ hi'
        → ((p : ℕ) → lo ≤ p → p < hi → g.cell p ≡ h.cell p)
        → EachReads lo hi h xs values
        → EachReads lo' hi' g xs values
    EachReads-frame lo hi lo' hi' h g [] [] low high same r = tt
    EachReads-frame lo hi lo' hi' h g (x ∷ xs) (a ∷ values) low high same (r, rest) = (
      l.frame lo hi lo' hi' h g x a low high same r,
      EachReads-frame lo hi lo' hi' h g xs values low high same rest,
    )
    EachReads-frame lo hi lo' hi' h g [] (a ∷ values) low high same r = absurd r
    EachReads-frame lo hi lo' hi' h g (x ∷ xs) [] low high same r = absurd r

    abbrev each : Layout C (List T) (List A)
    each = record { Reads = EachReads; frame = EachReads-frame }

  module _ {T A : Type 0} (s : Storable C (List T)) (l : Layout C T A) where
    abbrev pub SliceReads : ℕ → ℕ → Heap C → Pointer → List A → Type 0
    SliceReads lo hi h none [] = Unit
    SliceReads lo hi h none (a ∷ values) = ⊥
    SliceReads lo hi h (some p) values =
        (xs : List T) × (lo ≤ p)
        × (p < hi)
        × (h.cell p ≡ some (s.wrap xs))
        × EachReads l lo hi h xs values

    pub SliceReads-frame :
        (lo hi lo' hi' : ℕ) (h g : Heap C) (x : Pointer) (values : List A)
        → lo' ≤ lo
        → hi ≤ hi'
        → ((p : ℕ) → lo ≤ p → p < hi → g.cell p ≡ h.cell p)
        → SliceReads lo hi h x values
        → SliceReads lo' hi' g x values
    SliceReads-frame lo hi lo' hi' h g none [] low high same r = tt
    SliceReads-frame lo hi lo' hi' h g none (a ∷ values) low high same r = absurd r
    SliceReads-frame lo hi lo' hi' h g (some p) values low high same (xs, from, to, here, r) = (
      xs,
      omega arith,
      omega arith,
      same p from to ∙ here,
      EachReads-frame l lo hi lo' hi' h g xs values low high same r,
    )

    abbrev pub slice : Layout C Pointer (List A)
    slice = record { Reads = SliceReads; frame = SliceReads-frame }

  update-here : (f : ℕ → Option C) (p : ℕ) (c : C) → update f p c p ≡ some c
  update-here f p c = ground arith

  pub update-there : (f : ℕ → Option C) (p : ℕ) (c : C) (q : ℕ) → q ≢ p → update f p c q ≡ f q
  update-there f p c q other = ground arith

  -- The heap after an allocation.
  abbrev pub allocated : Heap C → C → Heap C
  allocated h c = record { next = h.next + 1; cell = update h.cell h.next c }

  allocated-Extends : (h : Heap C) (c : C) → Extends h (allocated h c)
  allocated-Extends h c = record {
    grows = omega arith;
    same = λ p l. update-there h.cell h.next c p λ e. omega arith;
  }

  -- The heap after a write.
  abbrev pub written : Heap C → ℕ → C → Heap C
  written h p c = record h { cell = update h.cell p c }

  -- A write to a cell that an earlier heap does not have.
  written-Extends :
      (h g : Heap C) (p : ℕ) (c : C) → h.next ≤ p → Extends h g → Extends h (written g p c)
  written-Extends h g p c new e =
      let grows = e.grows in
      record {
        grows = omega arith;
        same = λ q l. update-there g.cell p c q (λ same. omega arith) ∙ e.same q l;
      }

  module _ {T : Type 0} (s : Storable C T) where
    load-ok : (p : ℕ) (x : T) (h : Heap C) → h.cell p ≡ some (s.wrap x) → load s p h ≡ some (x, h)
    unfolding load
    load-ok p x h here = rw (load, here, s.unwrap-wrap x) refl

    store-ok :
        (p : ℕ) (y : T) (c : C) (h : Heap C)
        → h.cell p ≡ some c
        → store s p y h ≡ some (tt, written h p (s.wrap y))
    unfolding store
    store-ok p y c h here = rw (store, here) refl

    -- What both copies come down to: a new cell, and in it the copy of what `get` reads.
    copy_cell-Makes :
        {A : Type 0} (l : Layout C T A) (zero : C) (get : Cmd C T) (copy : T → Cmd C T) (x : T)
        (a : A) (lo hi : ℕ) (h : Heap C)
        → hi ≤ h.next
        → get (allocated h zero) ≡ some (x, allocated h zero)
        → l.Reads lo hi h x a
        → Copies l copy
        → Makes
            (λ r g.
              (q : ℕ) × (y : T) × (r ≡ some q)
              × (h.next ≤ q)
              × (q < g.next)
              × (g.cell q ≡ some (s.wrap y))
              × l.Reads h.next g.next g y a)
            (alloc zero >>= λ q. get >>= λ x. copy x >>= λ y. store s q y >> return (some q))
            h
    unfolding alloc
    copy_cell-Makes l zero get copy x a lo hi h bound loaded r copies =
        let h1 = allocated h zero in
        let e1 = allocated-Extends h zero in
        let q = h.next in
        let copied =
          copies.at lo hi h1 x a (omega arith)
            (carry l lo hi lo hi h h1 x a (omega arith) (omega arith) bound e1 r) in
        let y = copied.value in
        let h2 = copied.heap in
        let e2 = copied.extends in
        let grows = e2.grows in
        let reserved = e2.same q (omega arith) ∙ update-here h.cell q zero in
        let h3 = written h2 q (s.wrap y) in
        record {
          value = some q;
          heap = h3;
          run = rw (loaded, copied.run, store-ok q y zero h2 reserved) refl;
          extends = written-Extends h h2 q (s.wrap y) (omega arith) (Extends-trans h h1 h2 e1 e2);
          holds = (
            q,
            y,
            refl,
            omega arith,
            omega arith,
            update-here h2.cell q (s.wrap y),
            l.frame h1.next h2.next h.next h3.next h2 h3 y a (omega arith) (omega arith)
                (λ k from l. update-there h2.cell q (s.wrap y) k λ same. omega arith) copied.holds,
          );
        }

    pub copy_pointer-nil :
        (copy : T → Cmd C T) (h : Heap C) → copy_pointer s copy none h ≡ some (none, h)
    unfolding copy_pointer
    copy_pointer-nil copy h = refl

    copy_pointer-Makes :
        {A : Type 0} (l : Layout C T A) (copy : T → Cmd C T)
        → Copies l copy
        → (lo hi : ℕ) (h : Heap C) (x : Pointer) (a : Option A) → hi ≤ h.next
        → PointerReads s l lo hi h x a
        → Makes (λ y g. PointerReads s l h.next g.next g y a) (copy_pointer s copy x) h
    unfolding copy_pointer
    copy_pointer-Makes l copy copies lo hi h none none bound r = Makes-return none h tt
    copy_pointer-Makes l copy copies lo hi h none (some a) bound r = absurd r
    copy_pointer-Makes l copy copies lo hi h (some p) none bound r = absurd r
    copy_pointer-Makes l copy copies lo hi h (some p) (some a) bound (x, from, to, here, r) =
        let zero = s.wrap s.zero in
        let e = allocated-Extends h zero in
        let loaded = load-ok p x (allocated h zero) (e.same p (omega arith) ∙ here) in
        let made = copy_cell-Makes l zero (load s p) copy x a lo hi h bound loaded r copies in
        let (q, y, is, low, high, there, reads) = made.holds in
        record {
          value = made.value;
          heap = made.heap;
          run = made.run;
          extends = made.extends;
          holds = rw is (y, low, high, there, reads);
        }

    pub copy_pointer-Copies :
        {A : Type 0} (l : Layout C T A) (copy : T → Cmd C T)
        → Copies l copy
        → Copies (pointer s l) (copy_pointer s copy)
    unfolding copy_pointer
    copy_pointer-Copies l copy copies = record {
      at = λ lo hi h x a bound r. copy_pointer-Makes l copy copies lo hi h x a bound r;
    }

  module _ {T A : Type 0} (l : Layout C T A) (copy : T → Cmd C T) (copies : Copies l copy) where
    copy_each-Makes :
        (lo hi : ℕ) (h : Heap C) (xs : List T) (values : List A)
        → hi ≤ h.next
        → EachReads l lo hi h xs values
        → Makes (λ ys g. EachReads l h.next g.next g ys values) (copy_each copy xs) h
    unfolding copy_each
    copy_each-Makes lo hi h [] [] bound r = Makes-return [] h tt
    copy_each-Makes lo hi h [] (a ∷ values) bound r = absurd r
    copy_each-Makes lo hi h (x ∷ xs) [] bound r = absurd r
    copy_each-Makes lo hi h (x ∷ xs) (a ∷ values) bound (r, rest) =
        let first = copies.at lo hi h x a bound r in
        Makes-bind (copy x) _ h first λ y h1 e1 read.
          let grows = e1.grows in
          Makes-bind (copy_each copy xs) _ h1
            (copy_each-Makes lo hi h1 xs values (omega arith)
              (carry (each l) lo hi lo hi h h1 xs values (omega arith) (omega arith) bound e1 rest))
            λ ys h2 e2 reads.
              let grows2 = e2.grows in
              Makes-return (y ∷ ys) h2 (
                carry l h.next h1.next h.next h2.next h1 h2 y a (omega arith) (omega arith)
                    (omega arith) e2 read,
                (each l).frame h1.next h2.next h.next h2.next h2 h2 ys values (omega arith)
                    (omega arith) (λ p from to. refl) reads,
              )

    copy_each-Copies : Copies (each l) (copy_each copy)
    copy_each-Copies = record { at = copy_each-Makes }

    copy_slice-Makes :
        (s : Storable C (List T)) (zero : T) (lo hi : ℕ) (h : Heap C) (x : Pointer)
        (values : List A)
        → hi ≤ h.next
        → SliceReads s l lo hi h x values
        → Makes (λ y g. SliceReads s l h.next g.next g y values) (copy_slice s zero copy x) h
    unfolding copy_slice
    copy_slice-Makes s zero lo hi h none [] bound r = Makes-return none h tt
    copy_slice-Makes s zero lo hi h none (a ∷ values) bound r = absurd r
    copy_slice-Makes s zero lo hi h (some p) values bound (xs, from, to, here, r) =
        let made =
          copy_cell-Makes s (each l) (s.wrap (map (λ _. zero) xs)) (return xs) (copy_each copy) xs
            values lo hi h bound refl r copy_each-Copies in
        let (q, ys, is, low, high, there, reads) = made.holds in
        record {
          value = made.value;
          heap = made.heap;
          run = rw (load-ok s p xs h here) made.run;
          extends = made.extends;
          holds = rw is (ys, low, high, there, reads);
        }

    pub copy_slice-Copies :
        (s : Storable C (List T)) (zero : T) → Copies (slice s l) (copy_slice s zero copy)
    copy_slice-Copies s zero = record { at = copy_slice-Makes s zero }
