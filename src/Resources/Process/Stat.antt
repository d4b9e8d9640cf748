-- ===== src/Resources/Process/Stat.antt =====
-- The fields of a process's stat line are found whatever the name of the process contains.
use dls.Common.{
  ℕ, suc, ◌+◌, ◌<◌, ◌≡◌, refl, List, [], ◌∷◌, ◌++◌, Bool, true, false, ◌&&◌, not, Option, none,
  some, leb, ◌==◌, nat_eq, length, Text, drop, arith, length-append, subst,
}
use dls.Resources.{is_space}
use dls.Resources.Process.{
  rfind, skip_space, after_word, skip_token, skip_tokens, read_ticks, update_cpu_ticks,
}

-- A field of the line: not empty, with no white space and no closing parenthesis.
abbrev pub plain : Text → Bool
plain [] = true
plain (c ∷ cs) = not (is_space c) && not (c == 41) && plain cs

abbrev pub IsField : Text → Type 0
IsField f = (plain f ≡ true) × (0 < length f)

abbrev pub AllFields : List Text → Type 0
AllFields [] = Unit
AllFields (f ∷ fs) = IsField f × AllFields fs

-- a text without a closing parenthesis
abbrev pub unclosed : Text → Bool
unclosed [] = true
unclosed (c ∷ cs) = not (c == 41) && unclosed cs

-- the fields with a space before each, and then a space and the rest of the line
abbrev pub spaced : List Text → Text → Text
spaced [] rest = 32 ∷ rest
spaced (f ∷ fs) rest = 32 ∷ (f ++ spaced fs rest)

rfind-unclosed : (ys : Text) → unclosed ys ≡ true → rfind 41 ys ≡ none
unfolding rfind
rfind-unclosed [] h = refl
rfind-unclosed (y ∷ ys) h =
    let rest = rfind-unclosed ys (ground (arith, h)) in ground (arith, h, rest)

rfind-append : (xs ys : Text) → unclosed ys ≡ true → rfind 41 (xs ++ 41 ∷ ys) ≡ some (length xs)
unfolding rfind
rfind-append [] ys h = rw (rfind-unclosed ys h) refl
rfind-append (x ∷ xs) ys h = rw (rfind-append xs ys h) refl

unclosed-append : (xs ys : Text) → plain xs ≡ true → unclosed ys ≡ true → unclosed (xs ++ ys) ≡ true
unclosed-append [] ys hx hy = hy
unclosed-append (x ∷ xs) ys hx hy =
    let rest = unclosed-append xs ys (ground (arith, hx)) hy in ground (arith, hx, rest)

unclosed-spaced :
    (fs : List Text) (rest : Text)
    → AllFields fs
    → unclosed rest ≡ true
    → unclosed (spaced fs rest) ≡ true
unclosed-spaced [] rest fields h = h
unclosed-spaced (f ∷ fs) rest ((p, l), fields) h =
    unclosed-append f (spaced fs rest) p (unclosed-spaced fs rest fields h)

after_word-append : (f rest : Text) → plain f ≡ true → after_word (f ++ 32 ∷ rest) ≡ 32 ∷ rest
unfolding after_word
after_word-append [] rest p = refl
after_word-append (c ∷ cs) rest p =
    let next = after_word-append cs rest (ground (arith, p)) in ground (arith, p, next)

skip_token_field :
    (f rest : Text)
    → IsField f
    → (skip_token (f ++ 32 ∷ rest) ≡ some (32 ∷ rest))
      × (skip_token (32 ∷ (f ++ 32 ∷ rest)) ≡ some (32 ∷ rest))
unfolding skip_token skip_space
skip_token_field [] rest (p, l) = ground arith
skip_token_field (c ∷ cs) rest (p, l) =
    let next = after_word-append (c ∷ cs) rest p in
    let begins : is_space c ≡ false = ground (arith, p) in
    (rw (skip_token, begins, next) refl, rw (skip_token, begins, next) refl)

-- every list of fields begins with a space
skip_tokens-spaced :
    (fs : List Text) (rest : Text)
    → AllFields fs
    → skip_tokens (length fs) (spaced fs rest) ≡ some (32 ∷ rest)
unfolding skip_tokens
skip_tokens-spaced [] rest fields = refl
skip_tokens-spaced (f ∷ []) rest (field, fields) =
    let (bare, led) = skip_token_field f rest field in rw (skip_tokens, led) refl
skip_tokens-spaced (f ∷ g ∷ fs) rest (field, fields) =
    let (bare, led) = skip_token_field f (g ++ spaced fs rest) field in
    rw (skip_tokens, led) (skip_tokens-spaced (g ∷ fs) rest fields)

skip_tokens_line :
    (f : Text) (fs : List Text) (rest : Text)
    → IsField f
    → AllFields fs
    → skip_tokens (suc (length fs)) (f ++ spaced fs rest) ≡ some (32 ∷ rest)
unfolding skip_tokens
skip_tokens_line f [] rest field fields =
    let (bare, led) = skip_token_field f rest field in rw (skip_tokens, bare) refl
skip_tokens_line f (g ∷ fs) rest field fields =
    let (bare, led) = skip_token_field f (g ++ spaced fs rest) field in
    rw (skip_tokens, bare) (skip_tokens-spaced (g ∷ fs) rest fields)

drop-append_two : (xs ys : Text) (c d : ℕ) → drop (length xs + 2) (xs ++ c ∷ d ∷ ys) ≡ ys
drop-append_two [] ys c d = refl
drop-append_two (x ∷ xs) ys c d = ground (arith, drop-append_two xs ys c d)

-- Whatever stands before the last closing parenthesis (the process's name may hold spaces and
-- parentheses), where eleven fields separated by a space follow it, the ticks read are those of what
-- stands after the eleventh.
pub update_cpu_ticks-stat_line :
    (scan_long : Text → Option (ℕ × Text)) (before : Text) (f : Text) (fs : List Text) (rest : Text)
    → IsField f
    → AllFields fs
    → length fs ≡ 10
    → unclosed rest ≡ true
    → update_cpu_ticks scan_long (some (before ++ 41 ∷ 32 ∷ (f ++ spaced fs rest)))
      ≡ read_ticks scan_long (32 ∷ rest)
unfolding update_cpu_ticks skip_tokens
update_cpu_ticks-stat_line scan_long before f fs rest field fields ten ends =
    let tail = f ++ spaced fs rest in
    let line = before ++ 41 ∷ 32 ∷ tail in
    let (p, some_f) = field in
    let closed =
      rfind-append before (32 ∷ tail)
        (unclosed-append f (spaced fs rest) p (unclosed-spaced fs rest fields ends)) in
    let eleven : skip_tokens 11 tail ≡ some (32 ∷ rest) =
      subst (λ n. skip_tokens (suc n) tail ≡ some (32 ∷ rest)) ten
        (skip_tokens_line f fs rest field fields) in
    let long : leb (length line) (length before + 2) ≡ false =
      ground
        (arith, length-append before (41 ∷ 32 ∷ tail), length-append f (spaced fs rest), some_f) in
    rw (update_cpu_ticks, closed, drop-append_two before tail 41 32, eleven, long) refl
