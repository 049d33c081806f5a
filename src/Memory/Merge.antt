-- ===== src/Memory/Merge.antt =====
-- The two merges of free, on the headers of neighbours in the row of blocks.
use implementing_os_and_syst.Base.{
  ℕ, ◌+◌, ◌%◌, ◌≤◌, ◌<◌, ◌≡◌, ◌≢◌, refl, sym, ap, subst, ◌∙◌, ◌⊎◌, inl, inr, Bool, true, false,
  List, [], ◌∷◌, Bool-cases, arith,
}
use implementing_os_and_syst.Memory.{
  MemoryChunk, Headers, header, size_mod, put, set_prev, merge_prev, merge_next,
}
use implementing_os_and_syst.Memory.Blocks.{Block, span, absorb}
use implementing_os_and_syst.Memory.Chain.{start_of, header_of, Chain, Chain-frame, Becomes}

-- The chunk at `a` takes in the chunk at `n`.
pub join : ℕ → ℕ → Headers → Headers
join a n h = set_prev (h n).next a (
    put a
      (record (h a) { next = (h n).next; size = ((h a).size + ((h n).size + header)) % size_mod })
      h)

module _ (a n next : ℕ) (h : Headers) (at : (h n).next ≡ next) (apart : next ≢ a) where
  join_self :
      join a n h a
      ≡ record (h a) { next = next; size = ((h a).size + ((h n).size + header)) % size_mod }
  unfolding join
  join_self = ground arith

  join_next : next ≢ 0 → join a n h next ≡ record (h next) { prev = a }
  unfolding join
  join_next ne = ground arith

  join_others : (x : ℕ) → x ≢ a → (next ≡ 0) ⊎ (x ≢ next) → join a n h x ≡ h x
  unfolding join
  join_others x p q = ground arith

join_tail :
    (a n : ℕ) (bs : List Block) (h : Headers) (e : ℕ)
    → a < n
    → n < e
    → (h n).next ≡ start_of e bs
    → 0 < a
    → Chain h n e bs
    → Chain (join a n h) a e bs
join_tail a n [] h e lt lt' at pos c = tt
join_tail a n (b ∷ bs) h e lt lt' at pos c = (
  join_next a n e h at (omega arith) (omega arith)
      ∙ ap (λ (k : MemoryChunk). record k { prev = a }) c.0,
  Chain-frame h _ e (e + header + b.size) bs
      (λ x lo hi. join_others a n e h at (omega arith) x (omega arith) (inr (omega arith))) c.1,
)

-- A block takes in the one behind it.
pub join_row :
    (a prev : ℕ) (b n : Block) (bs : List Block) (h : Headers)
    → 0 < a
    → a + span (b ∷ n ∷ bs) ≤ size_mod
    → Chain h prev a (b ∷ n ∷ bs)
    → Becomes a h
        (join a (a + header + b.size) h)
        prev
        (record b { size = b.size + (n.size + header) } ∷ bs)
join_row a prev b n bs h pos bound c = ((first, second), front)
  where
    e : ℕ
    e = a + header + b.size + header + n.size

    end : a + header + (b.size + (n.size + header)) ≡ e
    end = omega arith

    next : (h (a + header + b.size)).next ≡ start_of e bs
    next = ap (λ (k : MemoryChunk). k.next) c.1.0

    ahead : (start_of e bs ≡ 0) ⊎ (start_of e bs ≡ e)
    ahead = elim bs as (λ r. (start_of e r ≡ 0) ⊎ (start_of e r ≡ e)) [
      | [] ↦ inl refl
      | _ ↦ inr refl
    ]

    apart : start_of e bs ≢ a
    apart = elim ahead [ inl q ↦ omega arith | inr q ↦ omega arith ]

    self : join a (a + header + b.size) h a ≡ record {
      next = start_of e bs;
      prev = prev;
      allocated = b.allocated;
      size = (b.size + (n.size + header)) % size_mod;
    }
    self =
        join_self a (a + header + b.size) (start_of e bs) h next apart ∙ ground (arith, c.0, c.1.0)

    fits : (b.size + (n.size + header)) % size_mod ≡ b.size + (n.size + header)
    fits = omega arith

    first :
        join a (a + header + b.size) h a
        ≡ header_of prev a (record b { size = b.size + (n.size + header) }) bs
    first = rw end (rw fits at self)

    second : Chain (join a (a + header + b.size) h) a (a + header + (b.size + (n.size + header))) bs
    second =
        rw end (join_tail a (a + header + b.size) bs h e (omega arith) (omega arith) next pos c.1.1)

    front : (x : ℕ) → x < a → join a (a + header + b.size) h x ≡ h x
    front x lt =
        join_others a (a + header + b.size) (start_of e bs) h next apart x (omega arith)
          (elim ahead [ inl q ↦ inl q | inr q ↦ inr (omega arith) ])

merge_next-join :
    (a n : ℕ) (h : Headers)
    → (h a).next ≡ n
    → n ≢ 0
    → (h n).allocated ≡ false
    → merge_next a h ≡ join a n h
unfolding merge_next join
merge_next-join a n h at ne free = ground arith

merge_next-skip :
    (a : ℕ) (h : Headers)
    → ((h a).next ≡ 0) ⊎ ((h (h a).next).allocated ≡ true)
    → merge_next a h ≡ h
unfolding merge_next
merge_next-skip a h k = ground arith

pub merge_prev-join :
    (a n : ℕ) (h : Headers)
    → (h n).prev ≡ a
    → a ≢ 0
    → (h a).allocated ≡ false
    → merge_prev n h ≡ (a, join a n h)
unfolding merge_prev join
merge_prev-join a n h at ne free = ground arith

pub merge_prev-skip :
    (n : ℕ) (h : Headers)
    → ((h n).prev ≡ 0) ⊎ ((h (h n).prev).allocated ≡ true)
    → merge_prev n h ≡ (n, h)
unfolding merge_prev
merge_prev-skip n h k = ground arith

absorb_keep :
    (size : ℕ) (n : Block) (bs : List Block)
    → n.allocated ≡ true
    → absorb size (n ∷ bs) ≡ record { size = size; allocated = false } ∷ n ∷ bs
absorb_keep size n bs e = ground arith

absorb_join :
    (size : ℕ) (n : Block) (bs : List Block)
    → n.allocated ≡ false
    → absorb size (n ∷ bs) ≡ record { size = size + (n.size + header); allocated = false } ∷ bs
absorb_join size n bs e = ground arith

-- The second merge of free, on a free block.
pub merge_next_row :
    (a prev : ℕ) (b : Block) (bs : List Block) (h : Headers)
    → b.allocated ≡ false
    → 0 < a
    → a + span (b ∷ bs) ≤ size_mod
    → Chain h prev a (b ∷ bs)
    → Becomes a h (merge_next a h) prev (absorb b.size bs)
merge_next_row a prev b [] h free pos bound c =
    rw (merge_next-skip a h (inl (ap (λ (k : MemoryChunk). k.next) c.0))) (
      (c.0 ∙ ap (λ f. record { next = 0; prev = prev; allocated = f; size = b.size }) free, tt),
      λ x lt. refl,
    )
merge_next_row a prev b (n ∷ bs) h free pos bound c = elim (Bool-cases n.allocated) [
  | inl e ↦ subst (Becomes a h (merge_next a h) prev) (sym (absorb_keep b.size n bs e)) (
      subst (λ g. Becomes a h g prev (record { size = b.size; allocated = false } ∷ n ∷ bs))
        (sym (merge_next-skip a h (inr (at_next ∙ e))))
        ((c.0 ∙ ap (marked (a + header + b.size)) free, c.1), λ x lt. refl))
  | inr e ↦ subst (Becomes a h (merge_next a h) prev) (sym (absorb_join b.size n bs e)) (
      subst
        (λ g.
          Becomes a h g prev (record { size = b.size + (n.size + header); allocated = false } ∷ bs))
        (sym (
          merge_next-join a (a + header + b.size) h (ap (λ (k : MemoryChunk). k.next) c.0)
            (omega arith) (ap (λ (k : MemoryChunk). k.allocated) c.1.0 ∙ e)))
        (free_head (join_row a prev b n bs h pos bound c)))
]
  where
    marked : ℕ → Bool → MemoryChunk
    marked next f = record { next = next; prev = prev; allocated = f; size = b.size }

    at_next : (h (h a).next).allocated ≡ n.allocated
    at_next = ground (arith, c.0, c.1.0)

    free_head :
        {h' : Headers}
        → Becomes a h h' prev (record b { size = b.size + (n.size + header) } ∷ bs)
        → Becomes a h h' prev (record { size = b.size + (n.size + header); allocated = false } ∷ bs)
    free_head {h'} t =
        subst
          (λ f.
            Becomes a h h' prev (record { size = b.size + (n.size + header); allocated = f } ∷ bs))
          free t
