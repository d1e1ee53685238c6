-- ===== src/Crypto/Secret/Laws.antt =====
-- Checking a guess against the stored digests.
use num_duel.Prelude.{
  ℕ, refl, ◌∙◌, ◌+◌, ◌*◌, length, length-append, ◌≤◌, ◌≡◌, List, [], ◌∷◌, ◌++◌, text_eq_iff, arith,
}
use num_duel.Model.{Four, Text, Uuid, ok}
use num_duel.Game.Judge.{to_list, judge_digit, judge_digits}
use num_duel.Game.Validate.Laws.{IsSecret}
use num_duel.Crypto.Secret.{
  hex, split_colon, join_colon, compare_digest, message, digest, hash, verify_parts, verify,
}
use num_duel.Crypto.Secret.Split.{NoColon, split-append, split_last, hex-NoColon, hex_injective}

-- The keyed hash does not confuse the decimal digits of one position of one secret.
abbrev pub NoCollision : (Text → List ℕ) → (Uuid → Text) → Uuid → ℕ → Type 0
NoCollision hmac uuid_text game slot =
    (position a b : ℕ)
    → a ≤ 9
    → b ≤ 9
    → hmac (message hmac uuid_text game slot position a)
      ≡ hmac (message hmac uuid_text game slot position b)
    → a ≡ b

pub length-hex : (bs : List ℕ) → length (hex bs) ≡ 2 * length bs
unfolding hex
length-hex [] = refl
length-hex (b ∷ bs) = omega (arith, length-hex bs)

length-four :
    (p q r s : Text)
    → length (join_colon (p ∷ q ∷ r ∷ s ∷ [])) ≡ length p + length q + length r + length s + 3
unfolding join_colon
length-four p q r s = omega (
  arith,
  length-append p (58 ∷ (q ++ 58 ∷ (r ++ 58 ∷ s))),
  length-append q (58 ∷ (r ++ 58 ∷ s)),
  length-append r (58 ∷ s),
)

-- With a keyed hash of 32 bytes, as HMAC-SHA256 is, a stored secret has 259 bytes.
length-hash :
    (hmac : Text → List ℕ) (uuid_text : Uuid → Text) (s : Four ℕ) (game : Uuid) (slot : ℕ)
    → ((t : Text) → length (hmac t) ≡ 32)
    → length (hash hmac uuid_text s game slot) ≡ 259
unfolding hash digest
length-hash hmac uuid_text s game slot size =
    let part : (i d : ℕ) → length (hex (hmac (message hmac uuid_text game slot i d))) ≡ 64 = λ i d.
      omega (
        arith,
        length-hex (hmac (message hmac uuid_text game slot i d)),
        size (message hmac uuid_text game slot i d),
      ) in
    length-four _ _ _ _ ∙ omega (arith, part 0 s.d0, part 1 s.d1, part 2 s.d2, part 3 s.d3)

-- Joining four texts without a colon and splitting gives them back.
split-join_four :
    (p q r s : Text)
    → NoColon p
    → NoColon q
    → NoColon r
    → NoColon s
    → split_colon (join_colon (p ∷ q ∷ r ∷ s ∷ [])) ≡ p ∷ q ∷ r ∷ s ∷ []
unfolding join_colon
split-join_four p q r s hp hq hr hs = rw (
  split-append p (q ++ 58 ∷ (r ++ 58 ∷ s)) hp,
  split-append q (r ++ 58 ∷ s) hq,
  split-append r s hr,
  split_last s hs,
)

module _ (hmac : Text → List ℕ) (uuid_text : Uuid → Text) (game : Uuid) (slot : ℕ) where
  digest-NoColon : (i d : ℕ) → NoColon (digest hmac uuid_text game slot i d)
  unfolding digest
  digest-NoColon i d = hex-NoColon _

  split-hash :
      (s : Four ℕ)
      → split_colon (hash hmac uuid_text s game slot)
        ≡ digest hmac uuid_text game slot 0 s.d0
          ∷ digest hmac uuid_text game slot 1 s.d1
          ∷ digest hmac uuid_text game slot 2 s.d2
          ∷ digest hmac uuid_text game slot 3 s.d3
          ∷ []
  unfolding hash
  split-hash s =
      split-join_four _ _ _ _ (digest-NoColon 0 s.d0) (digest-NoColon 1 s.d1)
        (digest-NoColon 2 s.d2) (digest-NoColon 3 s.d3)

  module _ (safe : NoCollision hmac uuid_text game slot) where
    digest_injective :
        (i a b : ℕ)
        → a ≤ 9
        → b ≤ 9
        → digest hmac uuid_text game slot i a ≡ digest hmac uuid_text game slot i b
        → a ≡ b
    unfolding digest
    digest_injective i a b ha hb h = safe i a b ha hb (hex_injective _ _ h)

    compare-digest :
        (i a b : ℕ)
        → a ≤ 9
        → b ≤ 9
        → compare_digest (digest hmac uuid_text game slot i a) (digest hmac uuid_text game slot i b)
          ≡ judge_digit a b
    unfolding judge_digit
    compare-digest i a b ha hb = ground (
      arith,
      text_eq_iff (digest hmac uuid_text game slot i a) (digest hmac uuid_text game slot i b),
      digest_injective i a b ha hb,
    )

    -- When the keyed hash does not confuse the digits of one position, checking a guess of four
    -- different digits against the stored hash of a secret of four different digits gives the
    -- judgement of the two numbers.
    pub verify-hash :
        (s g : Four ℕ)
        → IsSecret s
        → IsSecret g
        → verify hmac uuid_text (hash hmac uuid_text s game slot) g game slot
          ≡ ok (to_list (judge_digits s g))
    unfolding verify verify_parts judge_digits to_list
    verify-hash s g hs hg = rw (
      split-hash s,
      verify_parts,
      compare-digest 0 s.d0 g.d0 hs.le0 hg.le0,
      compare-digest 1 s.d1 g.d1 hs.le1 hg.le1,
      compare-digest 2 s.d2 g.d2 hs.le2 hg.le2,
      compare-digest 3 s.d3 g.d3 hs.le3 hg.le3,
    )
