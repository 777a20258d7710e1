-- ===== src/Tasks/Author.antt =====
-- Whom `MergeAuthor` of internal/tasks/tasks.go finds in the branches that are made for proposals.
use stornas.Base.{
  ℕ, ◌+◌, String, ◌≡◌, refl, sym, ap, ◌∙◌, ◌≢◌, false, some, nat_eq, ◌<>◌, test_of_ne,
}
use Prim.Native.Char.{Char, code}
use Prim.Native.String.append
use Prim.Native.String.{[], ◌∷◌, len, slice}
use text.Mathlib.TextPositions.{starts_with-append, slice-append_middle, len-append}
use text.Mathlib.TextLemmas.{append-nil}
use stornas.Strings.{has_prefix}
use stornas.Tasks.{cut_prefix, push_first, cut_slash, user_of_cut, user_of_rest, merge_author}

-- The text has no slash.
abbrev pub NoSlash : String → Type 0
NoSlash [] = Unit
NoSlash (c ∷ s) = (nat_eq (code c) 47 ≡ false) × NoSlash s

slice_rest : (s t : String) → slice (s <> t) (len s) (len (s <> t)) ≡ t
slice_rest s t =
    ap (λ (n : ℕ). slice (s <> t) (len s) n) (len-append s t)
    ∙ ap (λ (u : String). slice (s <> u) (len s) (len s + len t)) (sym (append-nil t))
    ∙ slice-append_middle s t ""

cut_prefix-append : (s t : String) → cut_prefix (s <> t) s ≡ some t
unfolding has_prefix
cut_prefix-append s t = rw (starts_with-append s t) (ap some (slice_rest s t))

cons-append : (c : Char) (s : String) → (c ∷ "") <> s ≡ c ∷ s
cons-append c s = append.cons c "" s ∙ ap (λ (u : String). c ∷ u) (append.nil s)

cut_slash-slash : (rest : String) → cut_slash ("/" <> rest) ≡ some ("", rest)
unfolding cut_slash
cut_slash-slash rest = ap cut_slash (cons-append "/" rest)

cut_slash-cons :
    (c : Char) (s : String)
    → nat_eq (code c) 47 ≡ false
    → cut_slash (c ∷ s) ≡ push_first (c ∷ "") (cut_slash s)
unfolding cut_slash
cut_slash-cons c s e = rw e refl

cut_slash-append :
    (user rest : String) → NoSlash user → cut_slash (user <> ("/" <> rest)) ≡ some (user, rest)
cut_slash-append [] rest h = ap cut_slash (append.nil ("/" <> rest)) ∙ cut_slash-slash rest
cut_slash-append (c ∷ s) rest h =
    ap cut_slash (append.cons c s ("/" <> rest))
    ∙ cut_slash-cons c (s <> ("/" <> rest)) h.0
    ∙ ap (push_first (c ∷ "")) (cut_slash-append s rest h.1)
    ∙ ap (λ (u : String). some (u, rest)) (cons-append c s)

-- A branch that is named for a user of a proposal, "prefix/user/rest", is attributed to that user,
-- whoever posted the request, if neither the prefix nor the user is empty and the user has no slash.
pub merge_author-branch :
    (prefix user rest poster : String)
    → prefix ≢ ""
    → user ≢ ""
    → NoSlash user
    → merge_author ((prefix <> "/") <> (user <> ("/" <> rest))) prefix poster ≡ user
unfolding merge_author
merge_author-branch prefix user rest poster p u n = rw (test_of_ne _ _ p) (
    ap (user_of_rest poster) (cut_prefix-append (prefix <> "/") (user <> ("/" <> rest)))
    ∙ ap (user_of_cut poster) (cut_slash-append user rest n)
    ∙ (rw (test_of_ne _ _ u) refl))
