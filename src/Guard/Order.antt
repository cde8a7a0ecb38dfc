-- ===== src/Guard/Order.antt =====
-- What the guards use of the order of floats, and what their sorting does with it.
use meta_posting.Prelude.{Bool, true, false, ◌≡◌, refl, inl, inr, List, [], ◌∷◌, All, Bool-cases}
use mathlib.Core.List.{Perm}
use mathlib.Core.List.Perm
use meta_posting.Guard.{Checkpoint, insert, sort}

-- `<` on floats that are not NaN: a strict order in which being incomparable is an equivalence
-- (0 and -0 are such a pair).
pub record IsFloatOrder {F : Type 0} (lt : F → F → Bool) : Type 0 where
  pub irrefl : (a : F) → lt a a ≡ false
  pub trans : (a b c : F) → lt a b ≡ true → lt b c ≡ true → lt a c ≡ true
  pub cotrans : (a b c : F) → lt a b ≡ false → lt b c ≡ false → lt a c ≡ false

module _ {F : Type 0} (lt : F → F → Bool) where
  -- Each spend is below those that follow it.
  abbrev pub IsAscending : List (Checkpoint F) → Type 0
  IsAscending [] = Unit
  IsAscending (c ∷ cs) = All (λ d. lt c.spend d.spend ≡ true) cs × IsAscending cs

  -- No spend is above one that follows it.
  abbrev pub IsSorted : List (Checkpoint F) → Type 0
  IsSorted [] = Unit
  IsSorted (c ∷ cs) = All (λ d. lt d.spend c.spend ≡ false) cs × IsSorted cs

module _ {F : Type 0} (lt : F → F → Bool) (zero : F) (order : IsFloatOrder lt) where
  asym : (a b : F) → lt a b ≡ true → lt b a ≡ false
  asym a b h = elim (Bool-cases (lt b a)) [
    | inl k ↦ cc (order.trans a b a h k, order.irrefl a)
    | inr k ↦ k
  ]

  insert-perm : (c : Checkpoint F) (ds : List (Checkpoint F)) → Perm (insert lt zero c ds) (c ∷ ds)
  unfolding insert
  insert-perm c [] = Perm.rfl
  insert-perm c (d ∷ ds) = elim (Bool-cases (lt d.spend c.spend)) [
    | inl t ↦ rw t (Perm.trans (Perm.cons d (insert-perm c ds)) (Perm.swap c d ds))
    | inr t ↦ rw t Perm.rfl
  ]

  -- Sorting loses and adds nothing.
  pub sort-perm : (cs : List (Checkpoint F)) → Perm (sort lt zero cs) cs
  unfolding sort
  sort-perm [] = Perm.rfl
  sort-perm (c ∷ cs) = Perm.trans (insert-perm c (sort lt zero cs)) (Perm.cons c (sort-perm cs))

  insert-All :
      (P : Checkpoint F → Type 0) (c : Checkpoint F) (ds : List (Checkpoint F))
      → P c
      → All P ds
      → All P (insert lt zero c ds)
  unfolding insert
  insert-All P c [] h hs = (h, tt)
  insert-All P c (d ∷ ds) h hs = elim (Bool-cases (lt d.spend c.spend)) [
    | inl t ↦ rw t (hs.0, insert-All P c ds h hs.1)
    | inr t ↦ rw t (h, hs)
  ]

  not_above :
      (c d : Checkpoint F) (ds : List (Checkpoint F))
      → lt d.spend c.spend ≡ false
      → All (λ x. lt x.spend d.spend ≡ false) ds
      → All (λ x. lt x.spend c.spend ≡ false) ds
  not_above c d [] t h = tt
  not_above c d (x ∷ ds) t h = (order.cotrans x.spend d.spend c.spend h.0 t, not_above c d ds t h.1)

  insert-IsSorted :
      (c : Checkpoint F) (ds : List (Checkpoint F))
      → IsSorted lt ds
      → IsSorted lt (insert lt zero c ds)
  unfolding insert
  insert-IsSorted c [] h = (tt, tt)
  insert-IsSorted c (d ∷ ds) h = elim (Bool-cases (lt d.spend c.spend)) [
    | inl t ↦ rw t (
      insert-All (λ x. lt x.spend d.spend ≡ false) c ds (asym d.spend c.spend t) h.0,
      insert-IsSorted c ds h.1,
    )
    | inr t ↦ rw t ((t, not_above c d ds t h.0), h)
  ]

  pub sort-IsSorted : (cs : List (Checkpoint F)) → IsSorted lt (sort lt zero cs)
  unfolding sort
  sort-IsSorted [] = tt
  sort-IsSorted (c ∷ cs) = insert-IsSorted c (sort lt zero cs) (sort-IsSorted cs)

  -- An ascending ladder is already in order.
  insert-least :
      (c : Checkpoint F) (ds : List (Checkpoint F))
      → All (λ d. lt c.spend d.spend ≡ true) ds
      → insert lt zero c ds ≡ c ∷ ds
  unfolding insert
  insert-least c [] h = refl
  insert-least c (d ∷ ds) h = rw (asym c.spend d.spend h.0)

  pub sort-ascending : (cs : List (Checkpoint F)) → IsAscending lt cs → sort lt zero cs ≡ cs
  unfolding sort
  sort-ascending [] h = refl
  sort-ascending (c ∷ cs) h = rw (sort-ascending cs h.1) (insert-least c cs h.0)
