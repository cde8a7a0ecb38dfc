-- ===== src/Queue/Order.antt =====
-- The order in which due jobs are claimed, and the choice of the first.
use meta_posting.Prelude.{
  ℕ, ◌<◌, ◌⊎◌, Bool, true, false, ◌≡◌, refl, List, [], ◌∷◌, Option, none, some, All, ◌&&◌, arith,
  Bool-cases, inl, inr, In, here, there,
}
use meta_posting.Prelude.Int.{◌≤ℤ◌}
use meta_posting.Schema.{Job}
use meta_posting.Queue.{before, earlier, is_candidate, candidate}

pub and_right : (a b : Bool) → (a && b) ≡ true → b ≡ true
and_right true b h = h
and_right false b h = cc

pub and_left : (a b : Bool) → (a && b) ≡ true → a ≡ true
and_left true b h = refl
and_left false b h = h

before_asym : (a b : Job) → before a b ≡ true → before b a ≡ false
unfolding before
before_asym a b h = ground arith

before_negtrans : (a b c : Job) → before a b ≡ false → before b c ≡ false → before a c ≡ false
unfolding before
before_negtrans a b c h k = ground arith

-- `c` is first among the candidates of `js`.
abbrev pub IsFirst : (ℕ → Bool) → ℕ → Job → List Job → Type 0
IsFirst locked now c = All (λ x. is_candidate locked now x ≡ true → before x c ≡ false)

IsFirst-weaken :
    (locked : ℕ → Bool) (now : ℕ) (b c : Job) (js : List Job)
    → before b c ≡ false
    → IsFirst locked now b js
    → IsFirst locked now c js
IsFirst-weaken locked now b c [] h f = tt
IsFirst-weaken locked now b c (x ∷ js) h f =
    (λ due. before_negtrans x b c (f.0 due) h, IsFirst-weaken locked now b c js h f.1)

none_IsFirst :
    (locked : ℕ → Bool) (now : ℕ) (c : Job) (js : List Job)
    → All (λ x. is_candidate locked now x ≡ false) js
    → IsFirst locked now c js
none_IsFirst locked now c [] h = tt
none_IsFirst locked now c (x ∷ js) h = (λ due. cc (h.0), none_IsFirst locked now c js h.1)

before_irrefl : (a : Job) → before a a ≡ false
unfolding before
before_irrefl a = ground arith

module _ (locked : ℕ → Bool) (now : ℕ) where
  -- What `candidate` returns.
  abbrev pub Chosen : List Job → Option Job → Type 0
  Chosen js none = All (λ x. is_candidate locked now x ≡ false) js
  Chosen js (some c) = (is_candidate locked now c ≡ true) × In c js × IsFirst locked now c js

  Chosen-skip :
      (j : Job) (js : List Job) (best : Option Job)
      → is_candidate locked now j ≡ false
      → Chosen js best
      → Chosen (j ∷ js) best
  Chosen-skip j js none e h = (e, h)
  Chosen-skip j js (some c) e h = (h.0, there h.1, ((λ due. cc e), h.2))

  Chosen-earlier :
      (j : Job) (js : List Job) (best : Option Job)
      → is_candidate locked now j ≡ true
      → Chosen js best
      → Chosen (j ∷ js) (earlier j best)
  Chosen-earlier j js none e h =
      (e, here refl, ((λ due. before_irrefl j), none_IsFirst locked now j js h))
  Chosen-earlier j js (some k) e h = elim (Bool-cases (before k j)) [
    | inl k_first ↦ rw k_first (h.0, there h.1, ((λ due. before_asym k j k_first), h.2))
    | inr j_first ↦
        rw j_first
          (e, here refl, ((λ due. before_irrefl j), IsFirst-weaken locked now k j js j_first h.2))
  ]

  -- The row chosen is a candidate of the table and comes first among them; no row is chosen only
  -- if there is no candidate.
  pub candidate-Chosen : (js : List Job) → Chosen js (candidate locked now js)
  unfolding candidate
  candidate-Chosen [] = tt
  candidate-Chosen (j ∷ js) = elim (Bool-cases (is_candidate locked now j)) [
    | inl e ↦ rw e (Chosen-earlier j js _ e (candidate-Chosen js))
    | inr e ↦ rw e (Chosen-skip j js _ e (candidate-Chosen js))
  ]

-- What the queue promises: a higher priority goes first, then what is available earlier, then what
-- is older, then the smaller id.
abbrev pub Precedes : Job → Job → Type 0
Precedes a b =
    (¬ (a.priority ≤ℤ b.priority))
    ⊎ ((a.priority ≤ℤ b.priority)
        × (b.priority ≤ℤ a.priority)
        × ((a.available_at < b.available_at)
            ⊎ ((a.available_at ≡ b.available_at)
                × ((a.created_at < b.created_at)
                    ⊎ ((a.created_at ≡ b.created_at) × (a.id < b.id))))))

before-Precedes : (a b : Job) → Precedes a b → before a b ≡ true
unfolding before
before-Precedes a b h = ground arith

-- No candidate of `js` precedes `c`.
abbrev pub LeadsAll : (ℕ → Bool) → ℕ → Job → List Job → Type 0
LeadsAll locked now c = All (λ x. is_candidate locked now x ≡ true → ¬ Precedes x c)

pub IsFirst-LeadsAll :
    (locked : ℕ → Bool) (now : ℕ) (c : Job) (js : List Job)
    → IsFirst locked now c js
    → LeadsAll locked now c js
IsFirst-LeadsAll locked now c [] h = tt
IsFirst-LeadsAll locked now c (x ∷ js) h =
    (λ due p. cc (before-Precedes x c p, h.0 due), IsFirst-LeadsAll locked now c js h.1)
