-- ===== src/Worker/Messages.antt =====
-- The error text that a worker stores (internal/worker/runner.go, truncateMessage), as bytes. What
-- the standard library calls valid UTF-8, and how it repairs a text, are parameters.
use meta_posting.Prelude.{
  ℕ, zero, suc, ◌≤◌, ◌<◌, Bool, true, false, ◌||◌, not, ◌≡◌, refl, List, [], ◌∷◌, leb, length,
  arith, Bool-cases, inl, inr, if◌then◌else◌,
}
use meta_posting.Prelude.Int.{ℤ, pos, ltb_ℤ, pos_part}

abbrev pub take : ℕ → List ℕ → List ℕ
take zero bs = []
take (suc n) [] = []
take (suc n) (b ∷ bs) = b ∷ take n bs

length-take : (n : ℕ) (bs : List ℕ) → length (take n bs) ≤ n
length-take zero bs = omega arith
length-take (suc n) [] = omega arith
length-take (suc n) (b ∷ bs) = omega (arith, length-take n bs)

exactly : (k n : ℕ) → k ≤ suc n → n < k → k ≡ suc n
exactly k n fits large = omega arith

module _ (valid_string : List ℕ → Bool) where
  -- The loop that drops the last byte until what is left is valid, from a length on.
  unfoldable pub shorten : ℕ → List ℕ → List ℕ
  shorten zero bs = []
  shorten (suc n) bs =
      let shorter = shorten n bs in
      if valid_string (take (suc n) bs) then take (suc n) bs else shorter

  unfoldable pub truncate_message : (List ℕ → List ℕ) → List ℕ → ℤ → List ℕ
  unfolding shorten
  truncate_message to_valid message max_bytes =
      if not (ltb_ℤ (pos 0) max_bytes) || leb (length (to_valid message)) (pos_part max_bytes)
      then to_valid message
      else shorten (pos_part max_bytes) (to_valid message)

  -- The longest valid prefix of at most `n` bytes.
  pub record IsLongest (n : ℕ) (bs out : List ℕ) : Type 0 where
    pub size : ℕ
    pub fits : size ≤ n
    pub prefix : out ≡ take size bs
    pub valid : valid_string out ≡ true
    pub longest : (k : ℕ) → size < k → k ≤ n → valid_string (take k bs) ≡ false

  cutoff :
      (n k : ℕ) (bs : List ℕ)
      → valid_string (take (suc n) bs) ≡ false
      → k ≤ suc n
      → n < k
      → valid_string (take k bs) ≡ false
  cutoff n k bs broken fits large = rw (exactly k n fits large) broken

  shorten-IsLongest : valid_string [] ≡ true → (n : ℕ) (bs : List ℕ) → IsLongest n bs (shorten n bs)
  unfolding shorten
  shorten-IsLongest empty zero bs = record {
    size = 0;
    fits = omega arith;
    prefix = refl;
    valid = empty;
    longest = λ k below fits. absurd (omega arith);
  }
  shorten-IsLongest empty (suc n) bs = elim (Bool-cases (valid_string (take (suc n) bs))) [
    | inl whole ↦ rw whole (record {
      size = suc n;
      fits = omega arith;
      prefix = refl;
      valid = whole;
      longest = λ k below fits. absurd (omega arith);
    })
    | inr broken ↦
        let shorter = shorten-IsLongest empty n bs in
        rw broken (record {
          size = shorter.size;
          fits = omega (arith, shorter.fits);
          prefix = shorter.prefix;
          valid = shorter.valid;
          longest = λ k below fits. elim (Bool-cases (leb k n)) [
            | inl small ↦ shorter.longest k below (ground arith)
            | inr large ↦ cutoff n k bs broken fits (ground arith)
          ];
        })
  ]

  shortened : (bs : List ℕ) (n : ℕ) {out : List ℕ} → IsLongest n bs out → length out ≤ n
  shortened bs n cut = rw cut.prefix (omega (length-take cut.size bs, cut.fits, arith))

  kept :
      (to_valid : List ℕ → List ℕ) (message : List ℕ) (limit : ℕ)
      → 0 < limit
      → length (to_valid message) ≤ limit
      → truncate_message to_valid message (pos limit) ≡ to_valid message
  unfolding truncate_message
  kept to_valid message limit some_room short = ground arith

  cut_down :
      (to_valid : List ℕ → List ℕ) (message : List ℕ) (limit : ℕ)
      → 0 < limit
      → limit < length (to_valid message)
      → truncate_message to_valid message (pos limit) ≡ shorten limit (to_valid message)
  unfolding truncate_message
  cut_down to_valid message limit some_room long = ground arith

  -- With a positive limit the stored text is valid UTF-8 and has at most that many bytes; it is the
  -- repaired text itself if that fits, and its longest valid prefix that fits otherwise.
  pub truncate_message-IsLongest :
      (to_valid : List ℕ → List ℕ) (message : List ℕ) (limit : ℕ)
      → valid_string [] ≡ true
      → ((bs : List ℕ) → valid_string (to_valid bs) ≡ true)
      → 0 < limit
      → (valid_string (truncate_message to_valid message (pos limit)) ≡ true)
        × (length (truncate_message to_valid message (pos limit)) ≤ limit)
        × ((length (to_valid message) ≤ limit
              → truncate_message to_valid message (pos limit) ≡ to_valid message)
            × (limit < length (to_valid message)
                → IsLongest limit
                    (to_valid message)
                    (truncate_message to_valid message (pos limit))))
  truncate_message-IsLongest to_valid message limit empty repaired some_room =
      let cut = shorten-IsLongest empty limit (to_valid message) in
      elim (Bool-cases (leb (length (to_valid message)) limit)) [
        | inl short ↦
            rw (kept to_valid message limit some_room (ground arith))
              (repaired message, ground arith, ((λ _. refl), (λ long. absurd (ground arith))))
        | inr long ↦ rw (cut_down to_valid message limit some_room (ground arith)) (
          cut.valid,
          shortened (to_valid message) limit cut,
          ((λ short. absurd (ground arith)), (λ _. cut)),
        )
      ]
