-- ===== src/Control/Paths/Safe.antt =====
-- The file names that internal/control/store.go accepts in a plan stay below the workspace: their parts,
-- between the slashes, are names.
use mathlib.Core.Path.{subst}
use mathlib.Core.List.{reverse, reverse-cons}
use codexlink.Prelude.{
  ℕ, Bool, true, false, ◌||◌, List, [], ◌∷◌, ◌++◌, ◌≡◌, ◌≢◌, refl, arith, ◌==◌, if◌then◌else◌,
  bytes_eq, bytes_eq_iff, Bool-cases, inl, inr, String, ◌∙◌, sym, ap,
}
use codexlink.Prelude.Text.{codes, is_empty, any_code, has_prefix}
use codexlink.Control.Paths.{
  dot, dot_dot, onto_first, split, join, up, reduce, or_dot, clean, is_bad_file,
}

abbrev pub AllParts : (List ℕ → Type 0) → List (List ℕ) → Type 0
AllParts P [] = Unit {0}
AllParts P (p ∷ ps) = P p × AllParts P ps

abbrev is_slash : ℕ → Bool
is_slash c = c == b'/'

-- A part between slashes, and one that `path.Clean` keeps.
abbrev NoSlash : List ℕ → Type 0
NoSlash p = any_code is_slash p ≡ false

abbrev Kept : List ℕ → Type 0
Kept p = NoSlash p × (is_empty p ≡ false) × (bytes_eq p dot ≡ false)

abbrev IsUp : List ℕ → Type 0
IsUp p = bytes_eq p dot_dot ≡ true

-- The parts kept so far, the last one first: under a `..` there are only such.
abbrev Front : List (List ℕ) → Type 0
Front [] = Unit {0}
Front (p ∷ ps) = (IsUp p → AllParts IsUp ps) × Front ps

onto_first-NoSlash :
    (c : ℕ) (ps : List (List ℕ))
    → is_slash c ≡ false
    → AllParts NoSlash ps
    → AllParts NoSlash (onto_first c ps)
unfolding onto_first any_code
onto_first-NoSlash c [] h a = (ground (arith, h), tt)
onto_first-NoSlash c (p ∷ ps) h a = (ground (arith, h, a.0), a.1)

split-NoSlash : (s : List ℕ) → AllParts NoSlash (split s)
unfolding split any_code
split-NoSlash [] = (refl, tt)
split-NoSlash (c ∷ s) = elim (Bool-cases (c == b'/')) [
  | inl slash ↦ rw slash (refl, split-NoSlash s)
  | inr other ↦ rw other (onto_first-NoSlash c (split s) other (split-NoSlash s))
]

-- What is kept, and in which order.
abbrev Good : List (List ℕ) → Type 0
Good kept = AllParts Kept kept × Front kept

dots-Kept : Kept dot_dot
unfolding any_code bytes_eq
dots-Kept = (refl, refl, refl)

up-Good : (kept : List (List ℕ)) → Good kept → Good (up false kept)
unfolding up
up-Good [] g = ((dots-Kept, tt), ((λ _. tt), tt))
up-Good (p ∷ kept) g = elim (Bool-cases (bytes_eq p dot_dot)) [
  | inl dots ↦ rw dots ((dots-Kept, g.0), ((λ _. (dots, g.1.0 dots)), g.1))
  | inr name ↦ rw name (g.0.1, g.1.1)
]

abbrev next : List (List ℕ) → List ℕ → List (List ℕ)
next kept p =
    if is_empty p || bytes_eq p dot
    then kept
    else if bytes_eq p dot_dot
    then up false kept
    else p ∷ kept

next-Good : (kept : List (List ℕ)) (p : List ℕ) → NoSlash p → Good kept → Good (next kept p)
next-Good kept p n g = elim (Bool-cases (is_empty p || bytes_eq p dot)) [
  | inl nothing ↦ rw nothing g
  | inr part ↦ elim (Bool-cases (bytes_eq p dot_dot)) [
    | inl dots ↦ rw (part, dots) (up-Good kept g)
    | inr name ↦
        rw (part, name)
          (
            ((n, ground (arith, part), ground (arith, part)), g.0),
            ((λ h. absurd (ground (arith, h, name))), g.1),
          )
  ]
]

-- The parts that are left, in their order.
abbrev Reduced : List (List ℕ) → Type 0
Reduced ps = (k : List (List ℕ)) × Good k × (ps ≡ reverse k)

reduce-Reduced :
    (kept ps : List (List ℕ)) → AllParts NoSlash ps → Good kept → Reduced (reduce false kept ps)
unfolding reduce
reduce-Reduced kept [] a g = (kept, g, refl)
reduce-Reduced kept (p ∷ ps) a g = reduce-Reduced (next kept p) ps a.1 (next-Good kept p a.0 g)

AllParts-append :
    (P : List ℕ → Type 0) (ps : List (List ℕ)) (p : List ℕ)
    → AllParts P ps
    → P p
    → AllParts P (ps ++ (p ∷ []))
AllParts-append P [] p a h = (h, tt)
AllParts-append P (q ∷ ps) p a h = (a.0, AllParts-append P ps p a.1 h)

reverse-AllParts :
    (P : List ℕ → Type 0) (ps : List (List ℕ)) → AllParts P ps → AllParts P (reverse ps)
reverse-AllParts P [] a = tt
reverse-AllParts P (p ∷ ps) a =
    rw (reverse-cons p ps) (AllParts-append P (reverse ps) p (reverse-AllParts P ps a.1) a.0)

abbrev NotUp : List ℕ → Type 0
NotUp p = bytes_eq p dot_dot ≡ false

abbrev FirstNotUp : List (List ℕ) → Type 0
FirstNotUp [] = Unit {0}
FirstNotUp (p ∷ ps) = NotUp p

append-NotUp :
    (ps : List (List ℕ)) (p : List ℕ)
    → FirstNotUp (ps ++ (p ∷ []))
    → (FirstNotUp ps → AllParts NotUp ps)
    → (IsUp p → AllParts IsUp ps)
    → AllParts NotUp (ps ++ (p ∷ []))
append-NotUp [] p h f g = (h, tt)
append-NotUp (q ∷ ps) p h f g = elim (Bool-cases (bytes_eq p dot_dot)) [
  | inl dots ↦ absurd (ground (arith, h, (g dots).0))
  | inr name ↦ AllParts-append NotUp (q ∷ ps) p (f h) name
]

reverse-NotUp : (k : List (List ℕ)) → Front k → FirstNotUp (reverse k) → AllParts NotUp (reverse k)
reverse-NotUp [] f h = tt
reverse-NotUp (p ∷ k) f h =
    let h' : FirstNotUp (reverse k ++ (p ∷ [])) = rw (reverse-cons p k) at h in
    rw (reverse-cons p k)
      (append-NotUp (reverse k) p h' (reverse-NotUp k f.1) (λ u. reverse-AllParts IsUp k (f.0 u)))

split-part : (p : List ℕ) → NoSlash p → split p ≡ p ∷ []
unfolding split onto_first any_code
split-part [] n = refl
split-part (c ∷ p) n = ground (arith, n, split-part p)

split-part_slash : (p s : List ℕ) → NoSlash p → split (p ++ (b'/' ∷ s)) ≡ p ∷ split s
unfolding split onto_first any_code
split-part_slash [] s n = refl
split-part_slash (c ∷ p) s n = ground (arith, n, split-part_slash p s)

-- `split` undoes `join`.
split-join :
    (p : List ℕ) (ps : List (List ℕ)) → AllParts NoSlash (p ∷ ps) → split (join (p ∷ ps)) ≡ p ∷ ps
unfolding join
split-join p [] a = split-part p a.0
split-join p (q ∷ ps) a =
    split-part_slash p (join (q ∷ ps)) a.0 ∙ ap (λ z. p ∷ z) (split-join q ps a.1)

or_dot-join :
    (p : List ℕ) (ps : List (List ℕ)) → is_empty p ≡ false → or_dot (join (p ∷ ps)) ≡ join (p ∷ ps)
unfolding join
or_dot-join [] ps e = absurd (ground arith)
or_dot-join (c ∷ p) [] e = refl
or_dot-join (c ∷ p) (q ∷ ps) e = refl

Kept-NoSlash : (ps : List (List ℕ)) → AllParts Kept ps → AllParts NoSlash ps
Kept-NoSlash [] a = tt
Kept-NoSlash (p ∷ ps) a = (a.0.0, Kept-NoSlash ps a.1)

join_up :
    (p : List ℕ) (ps : List (List ℕ))
    → bytes_eq (join (p ∷ ps)) dot_dot ≡ false
    → has_prefix (join (p ∷ ps)) (b'.' ∷ b'.' ∷ b'/' ∷ []) ≡ false
    → NotUp p
unfolding join has_prefix
join_up p [] h k = h
join_up p (q ∷ ps) h k = elim (Bool-cases (bytes_eq p dot_dot)) [
  | inr name ↦ name
  | inl dots ↦ absurd (
      ground (
        arith,
        k,
        ap (λ z. has_prefix (z ++ (b'/' ∷ join (q ∷ ps))) (b'.' ∷ b'.' ∷ b'/' ∷ []))
            ((bytes_eq_iff p dot_dot).0 dots),
      ))
]

-- A name of a file or a folder.
abbrev pub IsName : List ℕ → Type 0
IsName p = (p ≢ []) × (p ≢ dot) × (p ≢ dot_dot)

names_of : (ps : List (List ℕ)) → AllParts Kept ps → AllParts NotUp ps → AllParts IsName ps
names_of [] a n = tt
names_of (p ∷ ps) a n = (
  (
    λ e. ground (arith, a.0.1, ap is_empty e),
    λ e. ground (arith, a.0.2, bytes_eq_iff p dot, e),
    λ e. ground (arith, n.0, bytes_eq_iff p dot_dot, e),
  ),
  names_of ps a.1 n.1,
)

clean-names :
    (path : List ℕ) (ps : List (List ℕ))
    → Reduced ps
    → or_dot (join ps) ≡ path
    → bytes_eq path dot ≡ false
    → bytes_eq path dot_dot ≡ false
    → has_prefix path (b'.' ∷ b'.' ∷ b'/' ∷ []) ≡ false
    → AllParts IsName (split path)
clean-names path [] r e d u v =
    unfold join in absurd (ground (arith, d, bytes_eq_iff path dot, sym e))
clean-names path (p ∷ ps) (k, g, q) e d u v =
    let kept : AllParts Kept (p ∷ ps) = rw (sym q) at (reverse-AllParts Kept k g.0) in
    let same : join (p ∷ ps) ≡ path = sym (or_dot-join p ps kept.0.1) ∙ e in
    let first = join_up p ps (rw (sym same) at u) (rw (sym same) at v) in
    let h : FirstNotUp (reverse k) = subst FirstNotUp q first in
    let names : AllParts NotUp (p ∷ ps) = rw (sym q) at (reverse-NotUp k g.1 h) in
    rw (sym same) (rw (split-join p ps (Kept-NoSlash (p ∷ ps) kept)) (names_of (p ∷ ps) kept names))

-- A file name that a plan may have stays below the workspace: it does not start with a slash, and each of
-- its parts between slashes is a name, neither empty nor `.` nor `..`.
pub is_bad_file-names :
    (name : String)
    → is_bad_file name ≡ false
    → (has_prefix (codes name) (b'/' ∷ []) ≡ false) × AllParts IsName (split (codes name))
unfolding is_bad_file clean
is_bad_file-names name h =
    let path = codes name in
    let (rooted, d, u, v, e) : (has_prefix path (b'/' ∷ []) ≡ false)
        × (bytes_eq path dot ≡ false)
        × (bytes_eq path dot_dot ≡ false)
        × (has_prefix path (b'.' ∷ b'.' ∷ b'/' ∷ []) ≡ false)
        × (or_dot (join (reduce false [] (split path))) ≡ path) =
      ground (arith, h, bytes_eq_iff (or_dot (join (reduce false [] (split path)))) path) in
    (
      rooted,
      clean-names path (reduce false [] (split path))
          (reduce-Reduced [] (split path) (split-NoSlash path) (tt, tt)) e d u v,
    )
