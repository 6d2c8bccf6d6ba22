-- ===== src/Memory.antt =====
-- Go's memory: values at addresses, and commands that allocate, read and write them.
pub mod Layout
pub mod Copying
pub mod Outside
use schema_strimzi_operator.Prelude.{
  ℕ, ◌+◌, ◌*◌, ◌==◌, nat_eq, if◌then◌else◌, Option, some, none, List, [], ◌∷◌, map, ◌≡◌,
}

-- C is what a cell can hold; the addresses from `next` on are unused.
pub record Heap (C : Type 0) : Type 0 where
  pub next : ℕ
  pub cell : ℕ → Option C

-- `none` is a fault, such as a read through a dangling pointer.
abbrev pub Cmd : Type 0 → Type 0 → Type 0
Cmd C A = Heap C → Option (A × Heap C)

-- A pointer or the address of a slice's elements; `none` is nil.
abbrev pub Pointer : Type 0
Pointer = Option ℕ

-- The cells that hold a value of type T, and the zero value of T.
pub record Storable (C T : Type 0) : Type 0 where
  pub wrap : T → C
  pub unwrap : C → Option T
  pub zero : T
  pub unwrap-wrap : (x : T) → unwrap (wrap x) ≡ some x

abbrev pub update : {C : Type 0} → (ℕ → Option C) → ℕ → C → ℕ → Option C
update f p c q = if q == p then some c else f q

module _ {C : Type 0} where
  abbrev pub return : {A : Type 0} → A → Cmd C A
  return a h = some (a, h)

  abbrev pub and_then : {A B : Type 0} → Option (A × Heap C) → (A → Cmd C B) → Option (B × Heap C)
  and_then none k = none
  and_then (some (a, h)) k = k a h

  infixl 5 ◌>>=◌ ◌>>◌
  abbrev pub ◌>>=◌ : {A B : Type 0} → Cmd C A → (A → Cmd C B) → Cmd C B
  ◌>>=◌ m k h = and_then (m h) k

  abbrev pub ◌>>◌ : {B : Type 0} → Cmd C (Unit {0}) → Cmd C B → Cmd C B
  m >> k = m >>= λ _. k

  unfoldable pub alloc : C → Cmd C ℕ
  alloc c h = some (h.next, record { next = h.next + 1; cell = update h.cell h.next c })

  module _ {T : Type 0} (s : Storable C T) where
    -- `*p`
    unfoldable pub load : ℕ → Cmd C T
    load p h = elim (h.cell p) [
      | none ↦ none
      | some c ↦ elim (s.unwrap c) [ none ↦ none | some x ↦ some (x, h) ]
    ]

    -- `*p = x`
    unfoldable pub store : ℕ → T → Cmd C (Unit {0})
    store p x h = elim (h.cell p) [
      | none ↦ none
      | some c ↦ some (tt, record h { cell = update h.cell p (s.wrap x) })
    ]

    -- `if in != nil { out = new(T); … }`, with what is done for `*out` and `*in`. It is the body of a
    -- `DeepCopy`, and the part of a `DeepCopyInto` for a field that is a pointer.
    unfoldable pub copy_pointer : (T → Cmd C T) → Pointer → Cmd C Pointer
    unfolding load store alloc
    copy_pointer copy none = return none
    copy_pointer copy (some p) = do
      q ← alloc (s.wrap s.zero)
      x ← load p
      y ← copy x
      store q y
      return (some q)

  -- The loop over the elements of a slice.
  unfoldable pub copy_each : {T : Type 0} → (T → Cmd C T) → List T → Cmd C (List T)
  copy_each copy [] = return []
  copy_each copy (x ∷ xs) = do y ← copy x; ys ← copy_each copy xs; return (y ∷ ys)

  -- `if in != nil { out = make([]T, len(in)); … }`, with what is done for `out[i]` and `in[i]`. The
  -- elements of a slice are one cell, written when the loop is done: nothing reads them before.
  unfoldable pub copy_slice :
      {T : Type 0} → Storable C (List T) → T → (T → Cmd C T) → Pointer → Cmd C Pointer
  unfolding load store alloc copy_each
  copy_slice s zero copy none = return none
  copy_slice s zero copy (some p) = do
    xs ← load s p
    q ← alloc (s.wrap (map (λ _. zero) xs))
    ys ← copy_each copy xs
    store s q ys
    return (some q)
