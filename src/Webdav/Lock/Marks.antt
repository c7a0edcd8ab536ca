-- ===== src/Webdav/Lock/Marks.antt =====
-- Setting and clearing the held mark of locks in a consistent lock system.
use cloudreve.Prelude.{
  ℕ, zero, suc, ◌+◌, ◌<◌, ◌≤◌, ◌≡◌, refl, ◌∙◌, ap, Bool, true, false, Option, none, some, List, ◌⊎◌,
  inl, inr, ◌==◌, ==→≡, ==_refl, arith, if◌then◌else◌,
}
use cloudreve.Webdav.Lock.State.{Node, MemLs}
use cloudreve.Webdav.Lock.Methods.{Held, each, hold, unhold}
use cloudreve.Webdav.Lock.Members.{In}
use cloudreve.Webdav.Lock.Consistent.{IsConsistent, IsIssued}
use cloudreve.Webdav.Lock.Touch.{Touched, Touched-IsConsistent, Touched-IsIssued}
use cloudreve.Webdav.Lock.Holding.{hold_lem, unhold_lem}

-- How often a node stands in what a Confirm holds.
abbrev pub count_one : ℕ → Option ℕ → ℕ
count_one n none = 0
count_one n (some k) = if k == n then 1 else 0

abbrev pub count_held : ℕ → Held → ℕ
count_held n (a, b) = count_one n a + count_one n b

-- The held mark of every node in `held` is now `mark`, and nothing else about the locks changed.
pub record Marked (mark : Bool) (count : ℕ → ℕ) (m : MemLs) (locks : List ℕ) (f : MemLs)
    : Type 0 where
  pub consistent : IsConsistent f locks
  pub issued : IsIssued m locks → IsIssued f locks
  pub gen : f.gen ≡ m.gen
  pub marked : (n : ℕ) → 0 < count n → (f.nodes n).held ≡ mark
  pub other : (n : ℕ) → count n ≡ 0 → f.nodes n ≡ m.nodes n

-- The nodes of an option are locks that carry the held mark `mark`.
abbrev pub AllMarked : Bool → MemLs → List ℕ → Option ℕ → Type 0
AllMarked mark m locks none = Unit
AllMarked mark m locks (some n) = In n locks × ((m.nodes n).held ≡ mark)

Touched-Marked :
    {mark : Bool} {m f : MemLs} {locks : List ℕ} {n : ℕ}
    → IsConsistent m locks
    → In n locks
    → Touched n m f
    → (f.nodes n).held ≡ mark
    → Marked mark (λ k. count_one k (some n)) m locks f
Touched-Marked {mark} {m} {f} {locks} {n} h i t e = record {
  consistent = Touched-IsConsistent h i t;
  issued = Touched-IsIssued h i t;
  gen = t.gen;
  marked = λ k lt. ground (arith, ==→≡ n k, e);
  other = λ k z. t.other k (λ p. ground (arith, ==_refl n));
}

Marked-none :
    {mark : Bool} {m : MemLs} {locks : List ℕ}
    → IsConsistent m locks
    → Marked mark (λ k. count_one k none) m locks m
Marked-none h = record {
  consistent = h;
  issued = λ s. s;
  gen = refl;
  marked = λ k lt. absurd (omega arith);
  other = λ k z. refl;
}

pub hold-each :
    (o : Option ℕ) (m : MemLs) (locks : List ℕ)
    → IsConsistent m locks
    → AllMarked false m locks o
    → (f : MemLs) × (each hold o m ≡ some f) × Marked true (λ k. count_one k o) m locks f
hold-each none m locks h a = (m, refl, Marked-none h)
hold-each (some n) m locks h (i, free) =
    let (f, e, t, held) = hold_lem h n i free in (f, e, Touched-Marked h i t held)

pub unhold-each :
    (o : Option ℕ) (m : MemLs) (locks : List ℕ)
    → IsConsistent m locks
    → AllMarked true m locks o
    → (f : MemLs) × (each unhold o m ≡ some f) × Marked false (λ k. count_one k o) m locks f
unhold-each none m locks h a = (m, refl, Marked-none h)
unhold-each (some n) m locks h (i, held) =
    let (f, e, t, free) = unhold_lem h n i held in (f, e, Touched-Marked h i t free)

pub Marked-both :
    {mark : Bool} {m f g : MemLs} {locks : List ℕ} {a b : ℕ → ℕ}
    → Marked mark a m locks f
    → Marked mark b f locks g
    → Marked mark (λ k. a k + b k) m locks g
Marked-both {mark} {m} {f} {g} {locks} {a} {b} p q = record {
  consistent = q.consistent;
  issued = λ s. q.issued (p.issued s);
  gen = q.gen ∙ p.gen;
  marked = λ k lt. elim (b_cases (b k)) [
    | inl z ↦ ap (λ (n : Node). n.held) (q.other k z) ∙ p.marked k (omega arith)
    | inr s ↦ q.marked k s
  ];
  other = λ k z. q.other k (omega arith) ∙ p.other k (omega arith);
}
  where
    b_cases : (n : ℕ) → (n ≡ 0) ⊎ (0 < n)
    b_cases zero = inl refl
    b_cases (suc n) = inr (omega arith)

-- Another mark does not touch a node that it does not name.
pub AllMarked-other :
    (mark : Bool) {mark' : Bool} {count : ℕ → ℕ} {m f : MemLs} {locks : List ℕ}
    → Marked mark' count m locks f
    → (b : Option ℕ) → ((n : ℕ) → b ≡ some n → count n ≡ 0)
    → AllMarked mark m locks b
    → AllMarked mark f locks b
AllMarked-other mark p none d h = tt
AllMarked-other mark p (some n) d (i, e) = (i, ap (λ (x : Node). x.held) (p.other n (d n refl)) ∙ e)

-- A node that is counted once stands in one of the two options.
pub apart_lem :
    (a b : Option ℕ) (n : ℕ) → b ≡ some n → count_one n a + count_one n b ≤ 1 → count_one n a ≡ 0
apart_lem a none n q t = cc
apart_lem a (some k) n q t = ground (arith, ==_refl n)
