-- ===== src/Prelude/Text.antt =====
-- Python's `str` as a list of code points: literals, tests and formatting.
use Prim.Native.Nat.{ℕ, ◌+◌}
use Prim.Native.Char.{code}
use Prim.Native.String.{String}
use mathlib.Core.Path.{◌≡◌, refl, ap}
use mathlib.Core.Logic.{inl, inr}
use mathlib.Core.Bool.{Bool, true, false, ◌&&◌, ◌||◌}
use mathlib.Core.List.{[], ◌∷◌, ◌++◌}
use native.Mathlib.Omega.{arith}
use unlearning.Prelude.Tests.{Bool-cases, leb, ◌==◌, if◌then◌else◌}
use unlearning.Prelude.Outcome.{Str}

-- A literal.
abbrev pub codes : String → Str
codes String.[] = []
codes (String.◌∷◌ c s) = code c ∷ codes s

-- `s.startswith(p)`
abbrev pub starts_with : Str → Str → Bool
starts_with s [] = true
starts_with [] (c ∷ p) = false
starts_with (d ∷ s) (c ∷ p) = d == c && starts_with s p

-- `p in s`
abbrev pub is_infix : Str → Str → Bool
is_infix p [] = starts_with [] p
is_infix p (d ∷ s) = starts_with (d ∷ s) p || is_infix p s

-- The characters that `str.strip` removes.
unfoldable pub is_space : ℕ → Bool
is_space c =
    (leb 9 c && leb c 13)
    || (leb 28 c && leb c 32)
    || c == 133
    || c == 160
    || c == 5760
    || (leb 8192 c && leb c 8202)
    || c == 8232
    || c == 8233
    || c == 8239
    || c == 8287
    || c == 12288

unfoldable pub lstrip : Str → Str
lstrip [] = []
lstrip (c ∷ s) = if is_space c then lstrip s else c ∷ s

abbrev pub is_empty : Str → Bool
is_empty [] = true
is_empty (d ∷ t) = false

-- Drops trailing white space.
unfoldable pub rstrip : Str → Str
rstrip [] = []
rstrip (c ∷ s) = let rest = rstrip s in if is_space c && is_empty rest then [] else c ∷ rest

-- `s.strip()`
unfoldable pub strip : Str → Str
unfolding lstrip rstrip
strip s = rstrip (lstrip s)

rstrip_idem : (s : Str) → rstrip (rstrip s) ≡ rstrip s
unfolding rstrip
rstrip_idem [] = refl
rstrip_idem (c ∷ s) = ground (arith, rstrip_idem s)

-- Stripping twice is stripping once.
pub strip_idem : (s : Str) → strip (strip s) ≡ strip s
unfolding strip
strip_idem [] = refl
strip_idem (c ∷ s) = ground (arith, strip_idem s, rstrip_idem s)

-- `s.lower()` on ASCII letters. It is used for tests against words of ASCII letters with no `k`, to
-- which no other letter is lowered.
unfoldable pub lower : Str → Str
lower [] = []
lower (c ∷ s) = (if leb b'A' c && leb c b'Z' then c + 32 else c) ∷ lower s

starts_with-split : (p s : Str) → starts_with s p ≡ true → (post : Str) × (s ≡ p ++ post)
starts_with-split [] s h = (s, refl)
starts_with-split (c ∷ p) [] h = absurd (cc)
starts_with-split (c ∷ p) (d ∷ s) h =
    let (post, e) = starts_with-split p s (ground arith) in (post, ground arith)

pub starts_with-append : (p post : Str) → starts_with (p ++ post) p ≡ true
starts_with-append [] post = ground arith
starts_with-append (c ∷ p) post = ground (arith, starts_with-append p post)

starts-is_infix : (p s : Str) → starts_with s p ≡ true → is_infix p s ≡ true
starts-is_infix p [] h = h
starts-is_infix p (d ∷ s) h = rw h

-- A text that is found stands between two others.
pub is_infix-split :
    (p s : Str) → is_infix p s ≡ true → (pre : Str) × (post : Str) × (s ≡ pre ++ (p ++ post))
is_infix-split p [] h = let (post, e) = starts_with-split p [] h in ([], post, e)
is_infix-split p (d ∷ s) h = elim (Bool-cases (starts_with (d ∷ s) p)) [
  | inl here ↦ let (post, e) = starts_with-split p (d ∷ s) here in ([], post, e)
  | inr later ↦
      let (pre, post, e) = is_infix-split p s (ground arith) in (d ∷ pre, post, ap (◌∷◌ d) e)
]

pub split-is_infix : (p pre post : Str) → is_infix p (pre ++ (p ++ post)) ≡ true
split-is_infix p [] post = starts-is_infix p (p ++ post) (starts_with-append p post)
split-is_infix p (d ∷ pre) post = ground (arith, split-is_infix p pre post)
