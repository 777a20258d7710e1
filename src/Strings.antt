-- ===== src/Strings.antt =====
-- Go's `strings` on texts: TrimSpace, Contains, Cut, Split, Fields, HasPrefix, ReplaceAll.
mod Pieces
use stornas.Base.{
  ℕ, zero, suc, ◌+◌, Bool, not, ◌&&◌, ◌||◌, Option, none, some, List, ◌==◌, leb, nat_eq,
  if◌then◌else◌, ◌<>◌, select,
}
use Prim.Native.Char.{Char, code}
use Prim.Native.String.{String, [], ◌∷◌, find, len, slice}
use text.Mathlib.Text.{starts_with}
use Pieces.{whole, start, push, last_piece}

-- `unicode.IsSpace`.
abbrev pub is_space : Char → Bool
is_space c =
    let n = code c in
    leb 9 n && leb n 13
    || nat_eq n 32
    || nat_eq n 133
    || nat_eq n 160
    || nat_eq n 5760
    || leb 8192 n && leb n 8202
    || nat_eq n 8232
    || nat_eq n 8233
    || nat_eq n 8239
    || nat_eq n 8287
    || nat_eq n 12288

abbrev is_newline : Char → Bool
is_newline c = nat_eq (code c) 10

abbrev is_colon : Char → Bool
is_colon c = nat_eq (code c) 58

abbrev trim_left : String → String
trim_left [] = []
trim_left (c ∷ s) = let rest = trim_left s in if is_space c then rest else c ∷ s

-- A text of spaces only is dropped whole.
abbrev trim_right : String → String
trim_right [] = []
trim_right (c ∷ s) = let rest = trim_right s in if is_space c && rest == "" then [] else c ∷ rest

-- `strings.TrimSpace`.
unfoldable pub trim_space : String → String
trim_space s = trim_left (trim_right s)

-- `strings.Contains`: `find` answers past the end where there is none.
unfoldable pub has_text : String → String → Bool
has_text s t = leb (find s t) (len s)

-- `strings.Split` at the characters of a kind.
unfoldable pub split_by : (Char → Bool) → String → List String
split_by p [] = whole ""
split_by p (c ∷ s) = let rest = split_by p s in if p c then start rest else push (c ∷ []) rest

unfoldable pub lines : String → List String
lines s = split_by is_newline s

-- `strings.Fields`.
unfoldable pub fields : String → List String
fields s = select (λ (f : String). not (f == "")) (split_by is_space s)

-- `strings.Cut` at the first colon.
unfoldable pub cut_colon : String → Option (String × String)
cut_colon [] = none
cut_colon (c ∷ s) =
    let rest = cut_colon s in
    if is_colon c then some ("", s) else elim rest [ none ↦ none | some (k, v) ↦ some (c ∷ k, v) ]

-- What stands behind the last colon, or the text without one.
unfoldable pub after_last_colon : String → String
after_last_colon s = last_piece (split_by is_colon s)

-- `strings.HasPrefix`.
unfoldable pub has_prefix : String → String → Bool
has_prefix s t = starts_with s t

-- `strings.SplitN(s, t, 2)[0]`: the text before the first `t`, or all of it.
unfoldable pub before_text : String → String → String
before_text s t = slice s 0 (find s t)

-- `strings.TrimPrefix(s[i:], t)` at the index `i` of the first `t`; `none` where there is none.
unfoldable pub after_text : String → String → Option String
after_text s t = if leb (find s t) (len s) then some (slice s (find s t + len t) (len s)) else none

-- `strings.ReplaceAll` of a text that is not empty; each round takes at least a character.
replace_rounds : ℕ → String → String → String → String
replace_rounds zero s old new = s
replace_rounds (suc n) s old new =
    let rest = replace_rounds n (slice s (find s old + len old) (len s)) old new in
    if leb (find s old) (len s) then slice s 0 (find s old) <> new <> rest else s

unfoldable pub replace_all : String → String → String → String
unfolding replace_rounds
replace_all s old new = replace_rounds (len s) s old new
