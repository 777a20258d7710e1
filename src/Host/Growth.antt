-- ===== src/Host/Growth.antt =====
-- How a log grows: by commands that each meet a condition on what ran before them.
use stornas.Base.{String, ◌≡◌, refl, true, Option, none, some, ◌∷◌}
use stornas.Host.{Command, Log, Reply, ran, run_failed, error_of, succeeds, unless_failed}

-- The log grew by commands that meet `P`, which may look at the log before each.
pub data Grows (P : Log → Command → Type 0) (log : Log) : Log → Type 0 where
  same : Grows P log log
  more : {l : Log} {c : Command} → Grows P log l → P l c → Grows P log (c ∷ l)

-- A log as it was when the commands that followed had not run.
pub data Before (l : Log) : Log → Type 0 where
  now : Before l l
  later : {m : Log} {c : Command} → Before l m → Before l (c ∷ m)

pub Before-trans : (a b c : Log) → Before a b → Before b c → Before a c
Before-trans a b c h now = h
Before-trans a b (x ∷ m) h (later i) = later (Before-trans a b m h i)

module _ {P : Log → Command → Type 0} where
  pub Grows-trans : (a b c : Log) → Grows P a b → Grows P b c → Grows P a c
  Grows-trans a b c g same = g
  Grows-trans a b (x ∷ l) g (more h i) = more (Grows-trans a b l g h) i

  pub Grows-unless_failed :
      (log : Log) (r : Log × Option String) (next : Log → Log × Option String)
      → Grows P log r.0
      → ((l : Log) → Grows P l (next l).0)
      → Grows P log (unless_failed r next).0
  unfolding unless_failed
  Grows-unless_failed log (l, some e) next g h = g
  Grows-unless_failed log (l, none) next g h = Grows-trans log l (next l).0 g (h l)

  pub Grows-Before : (a b : Log) → Grows P a b → Before a b
  Grows-Before a b same = now
  Grows-Before a (c ∷ l) (more g x) = later (Grows-Before a l g)

  -- Growth under a condition that is weaker.
  pub Grows-map :
      {Q : Log → Command → Type 0} (a b : Log)
      → ((l : Log) (c : Command) → P l c → Q l c)
      → Grows P a b
      → Grows Q a b
  Grows-map a b f same = same
  Grows-map a (c ∷ l) f (more g x) = more (Grows-map a l f g) (f l c x)

pub Before-unless_failed :
    (log : Log) (r : Log × Option String) (next : Log → Log × Option String)
    → Before log r.0
    → ((l : Log) → Before l (next l).0)
    → Before log (unless_failed r next).0
unfolding unless_failed
Before-unless_failed log (l, some e) next b h = b
Before-unless_failed log (l, none) next b h = Before-trans log l (next l).0 b (h l)

pub succeeds-error_of : (r : Reply) → error_of r ≡ none → succeeds r ≡ true
succeeds-error_of (ran out) h = refl
succeeds-error_of (run_failed out e) h = cc

-- Nothing failed: the second step ran after the first.
pub split_none :
    (r : Log × Option String) (next : Log → Log × Option String)
    → (unless_failed r next).1 ≡ none
    → (r.1 ≡ none) × (unless_failed r next ≡ next r.0)
unfolding unless_failed
split_none (l, some e) next h = absurd (cc)
split_none (l, none) next h = (refl, refl)

-- A command ran, after a log that was then the whole log.
pub record Ran (c : Command) (final : Log) (P : Log → Type 0) : Type 0 where
  pub before : Log
  pub is_before : Before (c ∷ before) final
  pub found : P before

pub Ran-later : (c : Command) (a b : Log) (P : Log → Type 0) → Before a b → Ran c a P → Ran c b P
Ran-later c a b P h r = record {
  before = r.before;
  is_before = Before-trans (c ∷ r.before) a b r.is_before h;
  found = r.found;
}

-- A command ran since a log.
pub record RanSince (log : Log) (c : Command) (final : Log) (P : Log → Type 0) : Type 0 where
  pub before : Log
  pub is_since : Before log before
  pub is_before : Before (c ∷ before) final
  pub found : P before

pub RanSince-later :
    (log : Log) (c : Command) (a b : Log) (P : Log → Type 0)
    → Before a b
    → RanSince log c a P
    → RanSince log c b P
RanSince-later log c a b P h r = record {
  before = r.before;
  is_since = r.is_since;
  is_before = Before-trans (c ∷ r.before) a b r.is_before h;
  found = r.found;
}

pub RanSince-earlier :
    (log l : Log) (c : Command) (final : Log) (P : Log → Type 0)
    → Before log l
    → RanSince l c final P
    → RanSince log c final P
RanSince-earlier log l c final P h r = record {
  before = r.before;
  is_since = Before-trans log l r.before h r.is_since;
  is_before = r.is_before;
  found = r.found;
}
