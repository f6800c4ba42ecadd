-- ===== src/Nat/Stun/Offsets.antt =====
-- What the parser of STUN answers reads at an offset.
use decentis.Prelude.{
  ℕ, zero, suc, ◌+◌, ◌≤◌, ◌<◌, List, [], ◌∷◌, length, drop, get_elem?, ◌≡◌, refl, sym, ap, ◌∙◌,
  arith, length-drop,
}
use decentis.Nat.Stun.{index, u16_at, u32_at}

get_elem?-drop : (o i : ℕ) (xs : List ℕ) → get_elem? (drop o xs) i ≡ get_elem? xs (o + i)
get_elem?-drop zero i xs = let e : 0 + i ≡ i = omega arith in rw e
get_elem?-drop (suc o) i [] = refl
get_elem?-drop (suc o) i (x ∷ xs) =
    let e : suc o + i ≡ suc (o + i) = omega arith in rw e (get_elem?-drop o i xs)

index-eq : (xs ys : List ℕ) (i j : ℕ) → get_elem? xs i ≡ get_elem? ys j → index xs i ≡ index ys j
unfolding index
index-eq xs ys i j e = ground (arith, e)

-- What the parser reads at an offset it reads at the start of the bytes from there on.
module _ (response : List ℕ) (offset : ℕ) (s : List ℕ) (at : drop offset response ≡ s) where
  pub index-drop : (i j : ℕ) → i ≡ offset + j → index response i ≡ index s j
  index-drop i j e =
      index-eq response s i j
        (rw e (sym (get_elem?-drop offset j response) ∙ ap (λ xs. get_elem? xs j) at))

  pub u16_at-drop : (i j : ℕ) → i ≡ offset + j → u16_at response i ≡ u16_at s j
  unfolding u16_at
  u16_at-drop i j e = ground (arith, index-drop i j e, index-drop (i + 1) (j + 1) (omega arith))

  pub u32_at-drop : (i j : ℕ) → i ≡ offset + j → u32_at response i ≡ u32_at s j
  unfolding u32_at
  u32_at-drop i j e = ground (
    arith,
    index-drop i j e,
    index-drop (i + 1) (j + 1) (omega arith),
    index-drop (i + 2) (j + 2) (omega arith),
    index-drop (i + 3) (j + 3) (omega arith),
  )

  pub in_range : (n : ℕ) → 0 < n → n ≤ length s → offset + n ≤ length response
  in_range n pos h = omega (arith, length-drop offset response, ap length at)
