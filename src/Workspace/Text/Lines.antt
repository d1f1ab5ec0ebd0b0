-- ===== src/Workspace/Text/Lines.antt =====
-- The joined lines and the prefix of a line that is too long, in internal/workspace/text.go.
use codexlink.Prelude.{
  ℕ, zero, suc, ◌+◌, ◌≤◌, ◌<◌, true, false, List, [], ◌∷◌, ◌++◌, ◌≡◌, refl, arith, length, take,
  length-append,
}
use codexlink.Workspace.Text.{cost, is_none_selected, join_lines, utf8_safe_prefix, safe_end}

pub length-join_lines-snoc :
    (ls : List (List ℕ)) (line : List ℕ)
    → length (join_lines (ls ++ line ∷ [])) ≡ length (join_lines ls) + cost ls line
unfolding join_lines cost
length-join_lines-snoc [] line = omega arith
length-join_lines-snoc (l ∷ []) line = omega (arith, length-append l (10 ∷ line))
length-join_lines-snoc (l ∷ m ∷ ls) line = omega (
  arith,
  length-append l (10 ∷ join_lines (m ∷ ls)),
  length-append l (10 ∷ join_lines (m ∷ ls ++ line ∷ [])),
  length-join_lines-snoc (m ∷ ls) line,
)

length-take_le {ℓ} : {A : Type ℓ} (n : ℕ) (xs : List A) → length (take n xs) ≤ n
length-take_le zero xs = omega arith
length-take_le (suc n) [] = omega arith
length-take_le (suc n) (x ∷ xs) = omega (arith, length-take_le n xs)

safe_end_le : (bytes : List ℕ) (n : ℕ) → safe_end bytes n ≤ n
unfolding safe_end
safe_end_le bytes zero = omega arith
safe_end_le bytes (suc n) = ground (arith, safe_end_le bytes n)

pub length-utf8_safe_prefix_le :
    (bytes : List ℕ) (limit : ℕ) → length (utf8_safe_prefix bytes limit) ≤ limit
unfolding utf8_safe_prefix
length-utf8_safe_prefix_le bytes limit =
    ground (arith, length-take_le (safe_end bytes limit) bytes, safe_end_le bytes limit)

pub none_selected : (ls : List (List ℕ)) → is_none_selected ls ≡ true → ls ≡ []
unfolding is_none_selected
none_selected [] h = refl
none_selected (l ∷ ls) h = ground arith

pub some_selected : (ls : List (List ℕ)) → is_none_selected ls ≡ false → 0 < length ls
unfolding is_none_selected
some_selected [] h = ground arith
some_selected (l ∷ ls) h = omega arith
