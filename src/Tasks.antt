-- ===== src/Tasks.antt =====
-- internal/tasks/tasks.go: the feed of recent tasks. Times are nanoseconds since the epoch. The nested
-- map of merges is a list with one entry for each repository and number, since an inner map that is
-- empty cannot be observed.
pub mod Ring
pub mod Author
mod Examples
use stornas.Base.{
  ℕ, ◌+◌, String, Bool, true, not, ◌&&◌, Option, none, some, List, [], ◌∷◌, ◌==◌, ltb, nat_eq,
  if◌then◌else◌, ◌<>◌, length, take, find, select,
}
use Prim.Native.Char.{code}
use Prim.Native.String
use Prim.Native.String.{len, slice}
use stornas.Strings.{has_prefix}
use stornas.EventBus.{Bus, publish, task_changed}

-- `opsCap`, and `MergeRetention`, one hour.
abbrev pub ops_cap : ℕ
ops_cap = 100

abbrev pub merge_retention : ℕ
merge_retention = 3600000000000

pub record Op : Type 0 where
  pub verb : String
  pub namespace : String
  pub name : String
  pub by : String
  pub succeeded : Bool
  pub at : ℕ

pub record Merge : Type 0 where
  pub repo_url : String
  pub number : ℕ
  pub url : String
  pub title : String
  pub by : String
  pub at : ℕ

pub record Feed : Type 0 where
  pub bus : Bus
  pub ops : List Op
  pub merges : List Merge

-- `New`.
abbrev pub new_feed : Bus → Feed
new_feed bus = record { bus = bus; ops = []; merges = [] }

-- The ring is cut when it is over its capacity.
unfoldable pub cut_ring : ℕ → List Op → List Op
cut_ring cap ops = if ltb cap (length ops) then take cap ops else ops

-- `RecordOp`.
unfoldable pub record_op : Op → Feed → Feed
record_op op f = record f { bus = publish task_changed f.bus; ops = cut_ring ops_cap (op ∷ f.ops) }

abbrev pub has_key : String → ℕ → Merge → Bool
has_key repo n m = m.repo_url == repo && nat_eq m.number n

-- Go's `==` on the structs.
abbrev pub same_merge : Merge → Merge → Bool
same_merge a b =
    a.repo_url == b.repo_url
    && nat_eq a.number b.number
    && a.url == b.url
    && a.title == b.title
    && a.by == b.by
    && nat_eq a.at b.at

-- The row is new, or differs from the one that is there.
abbrev pub is_change : Merge → Option Merge → Bool
is_change m none = true
is_change m (some prev) = not (same_merge prev m)

unfoldable pub put_merge : Merge → List Merge → List Merge
put_merge m [] = m ∷ []
put_merge m (x ∷ xs) =
    let rest = put_merge m xs in if has_key m.repo_url m.number x then m ∷ xs else x ∷ rest

-- `m.At.Before(cutoff)`, for the cutoff of `RecordMerge` at a time.
abbrev pub is_outdated : ℕ → Merge → Bool
is_outdated now m = ltb (m.at + merge_retention) now

-- `pruneLocked`.
unfoldable pub prune : ℕ → List Merge → List Merge
prune now ms = select (λ m. not (is_outdated now m)) ms

-- `RecordMerge`, at a time.
unfoldable pub record_merge : ℕ → Merge → Feed → Feed
record_merge now m f =
    let changed = is_change m (find (has_key m.repo_url m.number) f.merges) in
    record f {
      bus = if changed then publish task_changed f.bus else f.bus;
      merges = prune now (put_merge m f.merges);
    }

-- `Merges`: newest first; the order of equal times is not determined.
unfoldable pub insert_merge : Merge → List Merge → List Merge
insert_merge m [] = m ∷ []
insert_merge m (x ∷ xs) =
    let rest = insert_merge m xs in if ltb m.at x.at then x ∷ rest else m ∷ x ∷ xs

unfoldable pub sorted_merges : List Merge → List Merge
sorted_merges [] = []
sorted_merges (m ∷ ms) = insert_merge m (sorted_merges ms)

-- `strings.CutPrefix`, and `strings.Cut` at the first slash.
abbrev pub cut_prefix : String → String → Option String
cut_prefix s t = if has_prefix s t then some (slice s (len t) (len s)) else none

abbrev pub push_first : String → Option (String × String) → Option (String × String)
push_first c none = none
push_first c (some (k, v)) = some (c <> k, v)

unfoldable pub cut_slash : String → Option (String × String)
cut_slash String.[] = none
cut_slash (String.◌∷◌ c s) =
    let rest = cut_slash s in
    if nat_eq (code c) 47 then some ("", s) else push_first (String.◌∷◌ c "") rest

abbrev pub user_of_cut : String → Option (String × String) → String
user_of_cut poster none = poster
user_of_cut poster (some (user, rest)) = if user == "" then poster else user

abbrev pub user_of_rest : String → Option String → String
user_of_rest poster none = poster
user_of_rest poster (some rest) = user_of_cut poster (cut_slash rest)

-- `MergeAuthor`.
unfoldable pub merge_author : String → String → String → String
merge_author head_ref prefix poster =
    if prefix == "" then poster else user_of_rest poster (cut_prefix head_ref (prefix <> "/"))
