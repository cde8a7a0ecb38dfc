-- ===== src/Insights/Rotation.antt =====
-- The round robin over ad accounts (internal/platform/database/insights_cursor_repository.go).
use meta_posting.Prelude.{
  ℕ, zero, suc, ◌+◌, ◌-◌, ◌≤◌, ◌<◌, min, Bool, true, false, ◌≡◌, refl, sym, ap, ◌∙◌, ◌&&◌, ◌||◌,
  Option, none, some, List, [], ◌∷◌, ◌++◌, ◌==◌, ltb, leb, length, arith, Bool-cases, inl, inr,
  if◌then◌else◌,
}
use mathlib.Core.List.{append-nil}
use meta_posting.Sql.{select_where}

-- An ad account with what the query joins to it; the rows are in the order of the ids.
pub record AccountRow : Type 0 where
  pub id : ℕ
  pub connection_id : ℕ
  pub connection_is_active : Bool
  pub is_active : Bool
  pub account_status : ℕ
  pub throttled_until : Option ℕ

-- `servableAccountStatuses`.
abbrev pub is_servable : ℕ → Bool
is_servable status = (status == 1) || ((status == 3) || ((status == 8) || (status == 9)))

abbrev pub is_free : ℕ → Option ℕ → Bool
is_free now none = true
is_free now (some until) = ltb until now

abbrev pub is_candidate : ℕ → ℕ → AccountRow → Bool
is_candidate connection now a =
    (a.connection_id == connection)
    && (a.connection_is_active
        && (a.is_active && (is_servable a.account_status && is_free now a.throttled_until)))

unfoldable pub take {ℓ} : {A : Type ℓ} → ℕ → List A → List A
take zero xs = []
take (suc n) [] = []
take (suc n) (x ∷ xs) = x ∷ take n xs

unfoldable pub drop {ℓ} : {A : Type ℓ} → ℕ → List A → List A
drop zero xs = xs
drop (suc n) [] = []
drop (suc n) (x ∷ xs) = drop n xs

-- A stored offset that is out of range counts as 0.
abbrev pub valid_offset : ℕ → ℕ → ℕ
valid_offset size offset = if leb size offset then 0 else offset

-- The slice from the offset on, and the next offset.
unfoldable pub slice_of : {A : Type 0} → ℕ → ℕ → List A → List A × ℕ
unfolding take drop
slice_of limit offset candidates =
    let size = length candidates in
    let start = valid_offset size offset in
    let stop = min (start + limit) size in
    (take (stop - start) (drop start candidates), if leb size stop then 0 else stop)

abbrev pub is_none : {A : Type 0} → List A → Bool
is_none [] = true
is_none (x ∷ xs) = false

-- `DueAdAccounts`: the slice, and the cursor after it. Without candidates the cursor stays; `none`
-- is the refusal of a limit of 0.
unfoldable pub due_ad_accounts : ℕ → ℕ → ℕ → ℕ → List AccountRow → Option (List AccountRow × ℕ)
unfolding select_where slice_of
due_ad_accounts connection limit now offset rows =
    let candidates = select_where (is_candidate connection now) rows in
    if limit == 0
    then none
    else if is_none candidates
    then some ([], offset)
    else some (slice_of limit offset candidates)

length-drop {ℓ} : {A : Type ℓ} (n : ℕ) (xs : List A) → length (drop n xs) ≡ length xs - n
unfolding drop
length-drop zero xs = omega arith
length-drop (suc n) [] = omega arith
length-drop (suc n) (x ∷ xs) = length-drop n xs ∙ omega arith

take-drop {ℓ} : {A : Type ℓ} (n : ℕ) (xs : List A) → take n xs ++ drop n xs ≡ xs
unfolding take drop
take-drop zero xs = refl
take-drop (suc n) [] = refl
take-drop (suc n) (x ∷ xs) = ap (λ ys. x ∷ ys) (take-drop n xs)

take-all {ℓ} : {A : Type ℓ} (n : ℕ) (xs : List A) → length xs ≤ n → take n xs ≡ xs
unfolding take
take-all zero [] h = refl
take-all zero (x ∷ xs) h = absurd (omega arith)
take-all (suc n) [] h = refl
take-all (suc n) (x ∷ xs) h = ap (λ ys. x ∷ ys) (take-all n xs (omega arith))

drop-nil {ℓ} : {A : Type ℓ} (n : ℕ) → drop {A = A} n [] ≡ []
unfolding drop
drop-nil zero = refl
drop-nil (suc n) = refl

drop-drop {ℓ} : {A : Type ℓ} (m n : ℕ) (xs : List A) → drop m (drop n xs) ≡ drop (n + m) xs
unfolding drop
drop-drop m n [] = rw (drop-nil n, drop-nil m, drop-nil (n + m)) refl
drop-drop m zero (x ∷ xs) = let same : m ≡ zero + m = omega arith in ap (λ k. drop k (x ∷ xs)) same
drop-drop m (suc n) (x ∷ xs) =
    let same : suc (n + m) ≡ suc n + m = omega arith in
    drop-drop m n xs ∙ ap (λ k. drop k (x ∷ xs)) same

-- The accounts that some calls in a row hand out, and the cursor behind them.
unfoldable pub turns : {A : Type 0} → ℕ → ℕ → ℕ → List A → List A × ℕ
unfolding slice_of
turns zero limit offset candidates = ([], offset)
turns (suc n) limit offset candidates =
    let (slice, next) = slice_of limit offset candidates in
    let (rest, last) = turns n limit next candidates in (slice ++ rest, last)

module _ {A : Type 0} (limit : ℕ) (candidates : List A) where
  abbrev start_of : ℕ → ℕ
  start_of offset = valid_offset (length candidates) offset

  -- The end of the rotation is reached, with what is left handed out.
  abbrev pub Completes : ℕ → ℕ → Type 0
  Completes most offset =
      (k : ℕ) × (k ≤ most)
      × (turns k limit offset candidates ≡ (drop (start_of offset) candidates, 0))

  last-slice_of :
      (offset : ℕ)
      → length candidates ≤ start_of offset + limit
      → slice_of limit offset candidates ≡ (drop (start_of offset) candidates, 0)
  unfolding slice_of
  last-slice_of offset h =
      let size = length candidates in
      let stop : min (start_of offset + limit) size ≡ size = omega arith in
      let rest = length-drop (start_of offset) candidates in
      let whole : leb size size ≡ true = ground arith in
      rw
        (
          stop,
          whole,
          take-all (size - start_of offset) (drop (start_of offset) candidates) (omega arith),
        )
        refl

  next-slice_of :
      (offset : ℕ)
      → start_of offset + limit < length candidates
      → slice_of limit offset candidates
        ≡ (take limit (drop (start_of offset) candidates), start_of offset + limit)
  unfolding slice_of
  next-slice_of offset h =
      let size = length candidates in
      let stop : min (start_of offset + limit) size ≡ start_of offset + limit = omega arith in
      let more : leb size (start_of offset + limit) ≡ false = ground arith in
      let wide : start_of offset + limit - start_of offset ≡ limit = omega arith in
      rw (stop, more, wide) refl

  -- One call, and then some more.
  turns-suc :
      (n offset next : ℕ) (slice rest : List A) (last : ℕ)
      → slice_of limit offset candidates ≡ (slice, next)
      → turns n limit next candidates ≡ (rest, last)
      → turns (suc n) limit offset candidates ≡ (slice ++ rest, last)
  unfolding turns
  turns-suc n offset next slice rest last h k =
      ap
        (λ (p : List A × ℕ).
          (p.0 ++ (turns n limit p.1 candidates).0, (turns n limit p.1 candidates).1))
        h
      ∙ ap (λ (p : List A × ℕ). (slice ++ p.0, p.1)) k

  start_of-valid : (offset : ℕ) → offset < length candidates → start_of offset ≡ offset
  start_of-valid offset h = ground arith

  turns-Completes_within :
      (most offset : ℕ)
      → 1 ≤ limit
      → length candidates - start_of offset ≤ most
      → start_of offset < length candidates
      → Completes most offset
  unfolding turns
  turns-Completes_within zero offset positive enough valid = absurd (omega arith)
  turns-Completes_within (suc most) offset positive enough valid =
      elim (Bool-cases (leb (length candidates) (start_of offset + limit))) [
        | inl e ↦
            let last = last-slice_of offset (ground arith) in
            (
              1,
              omega arith,
              turns-suc 0 offset 0 (drop (start_of offset) candidates) [] 0 last refl
                  ∙ ap (λ xs. (xs, 0)) (append-nil (drop (start_of offset) candidates)),
            )
        | inr e ↦
            let inside : start_of offset + limit < length candidates = ground arith in
            let next = next-slice_of offset inside in
            let same = start_of-valid (start_of offset + limit) inside in
            let (k, few, rest) =
              turns-Completes_within most (start_of offset + limit) positive (rw same (omega arith))
                (rw same inside) in
            (
              suc k,
              omega arith,
              turns-suc k offset (start_of offset + limit)
                    (take limit (drop (start_of offset) candidates))
                    (drop (start_of offset + limit) candidates) 0 next
                    (rest ∙ ap (λ n. (drop n candidates, 0)) same)
                  ∙ ap (λ xs. (xs, 0))
                      (ap (λ xs. take limit (drop (start_of offset) candidates) ++ xs)
                          (sym (drop-drop limit (start_of offset) candidates))
                        ∙ take-drop limit (drop (start_of offset) candidates)),
            )
      ]

  -- While the candidates stay the same, at most as many calls as there are candidates hand out every
  -- candidate from the cursor on, each once and in order, and leave the cursor at 0; from 0 on, or from
  -- a cursor out of range, these are all candidates. The limit is at least 1, as the code demands.
  pub turns-Completes :
      (offset : ℕ) → 1 ≤ limit → 1 ≤ length candidates → Completes (length candidates) offset
  turns-Completes offset positive some_left =
      turns-Completes_within (length candidates) offset positive (omega arith) (ground arith)
