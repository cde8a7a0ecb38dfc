-- ===== src/Sql/Laws.antt =====
-- Laws of the table operations: what an update does to the row of a key, and to all rows.
use meta_posting.Prelude.{
  ◌||◌, ℕ, ◌≡◌, refl, ◌≢◌, Bool, true, false, ◌&&◌, none, some, List, [], ◌∷◌, ◌==◌, All,
  if◌then◌else◌, arith, Bool-cases, inl, inr, ==_iff, length, sym, ◌∙◌, All-append, All-in, In,
  here, there, ◌++◌,
}
use mathlib.Core.Path.{subst}
use mathlib.Core.Option
use meta_posting.Sql.{update_where, any_row, select_where, count_where, find_key, UniqueKeys}

pub any_row-append {ℓ} :
    {A : Type ℓ} (q : A → Bool) (xs ys : List A)
    → any_row q (xs ++ ys) ≡ (any_row q xs || any_row q ys)
unfolding any_row
any_row-append q [] ys = refl
any_row-append q (x ∷ xs) ys = elim (Bool-cases (q x)) [
  | inl e ↦ rw e refl
  | inr e ↦ rw e (any_row-append q xs ys)
]

module _ {ℓ} {A : Type ℓ} where
  -- An update that keeps `P` on the rows it meets keeps it on the table.
  pub All-update_where {κ} :
      (P : A → Type κ) (p : A → Bool) (f : A → A)
      → ((x : A) → P x → p x ≡ true → P (f x))
      → (xs : List A) → All P xs
      → All P (update_where p f xs)
  unfolding update_where
  All-update_where P p f keep [] h = tt
  All-update_where P p f keep (x ∷ xs) h = elim (Bool-cases (p x)) [
    | inl e ↦ rw e (keep x h.0 e, All-update_where P p f keep xs h.1)
    | inr e ↦ rw e (h.0, All-update_where P p f keep xs h.1)
  ]

  -- Rows that satisfy `P` before the update satisfy `Q` after it.
  pub All-update_where_to {κ μ} :
      (P : A → Type κ) (Q : A → Type μ) (p : A → Bool) (f : A → A)
      → ((x : A) → P x → p x ≡ true → Q (f x))
      → ((x : A) → P x → p x ≡ false → Q x)
      → (xs : List A) → All P xs
      → All Q (update_where p f xs)
  unfolding update_where
  All-update_where_to P Q p f met unmet [] h = tt
  All-update_where_to P Q p f met unmet (x ∷ xs) h = elim (Bool-cases (p x)) [
    | inl e ↦ rw e (met x h.0 e, All-update_where_to P Q p f met unmet xs h.1)
    | inr e ↦ rw e (unmet x h.0 e, All-update_where_to P Q p f met unmet xs h.1)
  ]

  pub length-update_where :
      (p : A → Bool) (f : A → A) (xs : List A) → length (update_where p f xs) ≡ length xs
  unfolding update_where
  length-update_where p f [] = refl
  length-update_where p f (x ∷ xs) = rw (length-update_where p f xs)

  pub All-select_where {κ} :
      (P : A → Type κ) (p : A → Bool) (xs : List A) → All P xs → All P (select_where p xs)
  unfolding select_where
  All-select_where P p [] h = tt
  All-select_where P p (x ∷ xs) h = elim (Bool-cases (p x)) [
    | inl e ↦ rw e (h.0, All-select_where P p xs h.1)
    | inr e ↦ rw e (All-select_where P p xs h.1)
  ]

  pub All-selected : (p : A → Bool) (xs : List A) → All (λ x. p x ≡ true) (select_where p xs)
  unfolding select_where
  All-selected p [] = tt
  All-selected p (x ∷ xs) = elim (Bool-cases (p x)) [
    | inl e ↦ rw (e, ◌≡◌) (e, All-selected p xs)
    | inr e ↦ rw e (All-selected p xs)
  ]

some_eq {ℓ} : {A : Type ℓ} {x y : A} → some x ≡ some y → x ≡ y
some_eq e = cc

module _ {ℓ} {A : Type ℓ} (key : A → ℕ) where
  -- The row of a key after an update is the row of the key before it, updated if it met the test.
  pub find_key-update_where :
      (k : ℕ) (p : A → Bool) (f : A → A)
      → ((x : A) → key (f x) ≡ key x)
      → (xs : List A)
      → find_key key k (update_where p f xs)
        ≡ Option.map (λ x. if p x then f x else x) (find_key key k xs)
  unfolding find_key update_where
  find_key-update_where k p f keep [] = refl
  find_key-update_where k p f keep (x ∷ xs) = elim (Bool-cases (p x)) [
    | inl e ↦ ground (arith, e, keep x, find_key-update_where k p f keep xs)
    | inr e ↦ ground (arith, e, keep x, find_key-update_where k p f keep xs)
  ]

  pub find_key_key : (k : ℕ) (xs : List A) (x : A) → find_key key k xs ≡ some x → key x ≡ k
  unfolding find_key
  find_key_key k [] x h = cc
  find_key_key k (y ∷ xs) x h = ground (arith, find_key_key k xs x)

  pub All-find_key {κ} :
      (P : A → Type κ) (k : ℕ) (xs : List A) (x : A) → All P xs → find_key key k xs ≡ some x → P x
  unfolding find_key
  All-find_key P k [] x h e = cc
  All-find_key P k (y ∷ xs) x h e = elim (Bool-cases (key y == k)) [
    | inl t ↦ subst P (some_eq (rw t at e)) h.0
    | inr t ↦ All-find_key P k xs x h.1 (rw t at e)
  ]

  any_row_absent :
      (k : ℕ) (p : A → Bool) (xs : List A)
      → All (λ y. key y ≢ k) xs
      → any_row (λ x. (key x == k) && p x) xs ≡ false
  unfolding any_row
  any_row_absent k p [] h = refl
  any_row_absent k p (x ∷ xs) h = ground (arith, h.0, any_row_absent k p xs h.1)

  -- Under the primary key, an update of one row's key reaches that row or none.
  pub any_row-find_key :
      (k : ℕ) (p : A → Bool) (xs : List A)
      → UniqueKeys key xs
      → any_row (λ x. (key x == k) && p x) xs
        ≡ elim (find_key key k xs) [ none ↦ false | some x ↦ p x ]
  unfolding find_key any_row
  any_row-find_key k p [] u = refl
  any_row-find_key k p (x ∷ xs) u = elim (Bool-cases (key x == k)) [
    | inl t ↦ ground (arith, any_row_absent k p xs (rw (← (==_iff _ _).0 t) u.0))
    | inr t ↦ ground (arith, any_row-find_key k p xs u.1)
  ]

  -- Keys stay unique under an update that keeps the key.
  keys_kept :
      (k : ℕ) (p : A → Bool) (f : A → A)
      → ((x : A) → key (f x) ≡ key x)
      → (xs : List A) → All (λ y. key y ≢ k) xs
      → All (λ y. key y ≢ k) (update_where p f xs)
  keys_kept k p f keep xs h =
      All-update_where (λ y. key y ≢ k) p f (λ x fresh _ e. fresh (sym (keep x) ∙ e)) xs h

  pub UniqueKeys-update_where :
      (p : A → Bool) (f : A → A)
      → ((x : A) → key (f x) ≡ key x)
      → (xs : List A) → UniqueKeys key xs
      → UniqueKeys key (update_where p f xs)
  unfolding update_where
  UniqueKeys-update_where p f keep [] u = tt
  UniqueKeys-update_where p f keep (x ∷ xs) u = elim (Bool-cases (p x)) [
    | inl e ↦
        rw (e, keep x) (keys_kept (key x) p f keep xs u.0, UniqueKeys-update_where p f keep xs u.1)
    | inr e ↦ rw e (keys_kept (key x) p f keep xs u.0, UniqueKeys-update_where p f keep xs u.1)
  ]

  pub UniqueKeys-append :
      (xs : List A) (y : A)
      → UniqueKeys key xs
      → All (λ x. key x ≢ key y) xs
      → UniqueKeys key (xs ++ y ∷ [])
  UniqueKeys-append [] y u h = (tt, tt)
  UniqueKeys-append (x ∷ xs) y u h = (
    All-append (λ z. key z ≢ key x) xs (y ∷ []) u.0 ((λ e. h.0 (sym e)), tt),
    UniqueKeys-append xs y u.1 h.1,
  )

  -- Under the primary key a row is the only one with its key.
  not_keyed :
      (c : A) (xs : List A) → All (λ y. key y ≢ key c) xs → All (λ x. key x ≡ key c → x ≡ c) xs
  not_keyed c [] h = tt
  not_keyed c (x ∷ xs) h = ((λ e. absurd (h.0 e)), not_keyed c xs h.1)

  pub UniqueKeys-only :
      (c : A) (xs : List A) → UniqueKeys key xs → In c xs → All (λ x. key x ≡ key c → x ≡ c) xs
  UniqueKeys-only c [] u m = elim m [ ]
  UniqueKeys-only c (x ∷ xs) u (here e) =
      ((λ _. sym e), subst (λ d. All (λ y. key y ≡ key d → y ≡ d) xs) (sym e) (not_keyed x xs u.0))
  UniqueKeys-only c (x ∷ xs) u (there m) =
      ((λ e. absurd (All-in (λ y. key y ≢ key x) xs u.0 m (sym e))), UniqueKeys-only c xs u.1 m)

  -- A row stays found when others are added behind it.
  pub find_key-append :
      (k : ℕ) (xs ys : List A) {x : A}
      → find_key key k xs ≡ some x
      → find_key key k (xs ++ ys) ≡ some x
  unfolding find_key
  find_key-append k [] ys h = absurd (cc)
  find_key-append k (z ∷ xs) ys h = elim (Bool-cases (key z == k)) [
    | inl t ↦ rw t (rw t at h)
    | inr t ↦ rw t (find_key-append k xs ys (rw t at h))
  ]

  pub find_key-In : (k : ℕ) (xs : List A) (x : A) → find_key key k xs ≡ some x → In x xs
  unfolding find_key
  find_key-In k [] x h = absurd (cc)
  find_key-In k (y ∷ xs) x h = elim (Bool-cases (key y == k)) [
    | inl t ↦ here (sym (some_eq (rw t at h)))
    | inr t ↦ there (find_key-In k xs x (rw t at h))
  ]

module _ {ℓ κ} {A : Type ℓ} (key : A → ℕ) (P : A → Type κ) (f : A → A) where
  All-update_only :
      (c : A) (xs : List A)
      → P (f c)
      → All (λ x. key x ≡ key c → x ≡ c) xs
      → All P xs
      → All P (update_where (λ x. key x == key c) f xs)
  unfolding update_where
  All-update_only c [] good only h = tt
  All-update_only c (x ∷ xs) good only h = elim (Bool-cases (key x == key c)) [
    | inl e ↦ rw e (
      subst (λ y. P (f y)) (sym (only.0 ((==_iff _ _).0 e))) good,
      All-update_only c xs good only.1 h.1,
    )
    | inr e ↦ rw e (h.0, All-update_only c xs good only.1 h.1)
  ]

  -- An update of the one row with a key keeps `P` if the new row satisfies it.
  pub All-update_key :
      (c : A) (xs : List A)
      → UniqueKeys key xs
      → In c xs
      → All P xs
      → P (f c)
      → All P (update_where (λ x. key x == key c) f xs)
  All-update_key c xs u m h good = All-update_only c xs good (UniqueKeys-only key c xs u m) h

module _ {ℓ} {A : Type ℓ} where
  -- A count that reads nothing of what an update writes is the same after it.
  pub count_where-update_where :
      (p q : A → Bool) (f : A → A)
      → ((x : A) → q (f x) ≡ q x)
      → (xs : List A) → count_where q (update_where p f xs) ≡ count_where q xs
  unfolding count_where update_where
  count_where-update_where p q f same [] = refl
  count_where-update_where p q f same (x ∷ xs) =
      ground (arith, same x, count_where-update_where p q f same xs)
