-- ===== src/Webdav/Lock/Holders.antt =====
-- The Confirms that are not released, and the locks that they hold, under each method.
use cloudreve.Prelude.{
  ℕ, zero, suc, ◌+◌, ◌<◌, ◌≤◌, ◌≡◌, ◌≢◌, refl, sym, ◌∙◌, ap, true, false, List, [], ◌∷◌, ◌⊎◌, inl,
  inr, Bytes, arith,
}
use native.Mathlib.Decide.{ℕ_discrete}
use cloudreve.Webdav.Lock.State.{Condition, LockDetails, Node, MemLs, erase}
use cloudreve.Webdav.Lock.Methods.{Held}
use cloudreve.Webdav.Lock.Members.{In, In-erase, In-erase_ne, not-In-erase}
use cloudreve.Webdav.Lock.Consistent.{IsConsistent, IsIssued}
use cloudreve.Webdav.Lock.Touch.{Touched}
use cloudreve.Webdav.Lock.Collect.{Collected}
use cloudreve.Webdav.Lock.Contract.{Created, Unlocked}
use cloudreve.Webdav.Lock.Marks.{count_held, Marked}
use cloudreve.Webdav.Lock.Confirms.{Confirmed}
use cloudreve.Webdav.Lock.System.{System}

-- How often a node stands in the Confirms that are not released.
unfoldable pub holders : ℕ → List Held → ℕ
holders n [] = 0
holders n (h ∷ hs) = count_held n h + holders n hs

-- Exactly the held locks stand in a Confirm that is not released, each in one.
pub record IsHolding (m : MemLs) (locks : List ℕ) (out : List Held) : Type 0 where
  pub once : (n : ℕ) → holders n out ≤ 1
  pub held : (n : ℕ) → 0 < holders n out → In n locks × ((m.nodes n).held ≡ true)
  pub all : (n : ℕ) → In n locks → (m.nodes n).held ≡ true → 0 < holders n out

pub record IsSound (s : System) (locks : List ℕ) : Type 0 where
  pub consistent : IsConsistent s.ls locks
  pub issued : IsIssued s.ls locks
  pub holding : IsHolding s.ls locks s.out

pub zero_cases : (n : ℕ) → (n ≡ 0) ⊎ (0 < n)
zero_cases zero = inl refl
zero_cases (suc n) = inr (omega arith)

pub IsHolding-collect :
    {now : ℕ} {m f : MemLs} {locks locks' : List ℕ} {out : List Held}
    → IsConsistent m locks
    → Collected now m locks f locks'
    → IsHolding m locks out
    → IsHolding f locks' out
IsHolding-collect {now} {m} h c p = record {
  once = p.once;
  held = λ n lt.
      let (i, e) = p.held n lt in
      elim (c.ended n i) [
        | inl j ↦ (j, (c.kept n j).1.held ∙ e)
        | inr (q, late) ↦ absurd (ground (arith, (h.lock n i).waits))
      ];
  all = λ n j e. let (i, s) = c.kept n j in p.all n i (sym s.held ∙ e);
}

pub IsHolding-create :
    {m f : MemLs} {locks : List ℕ} {given : LockDetails} {n : ℕ} {token : Bytes} {out : List Held}
    → Created m locks given n token f
    → IsHolding m locks out
    → IsHolding f (n ∷ locks) out
IsHolding-create {m} {f} {locks} {given} {n} {token} {out} c p = record {
  once = p.once;
  held = λ k lt. let (i, e) = p.held k lt in (inr i, (c.kept k i).1.held ∙ e);
  all = go;
}
  where
    go : (k : ℕ) → In k (n ∷ locks) → (f.nodes k).held ≡ true → 0 < holders k out
    go k (inl q) e = absurd (ground (arith, c.free))
    go k (inr i) e = p.all k i (sym (c.kept k i).1.held ∙ e)

pub IsHolding-unlock :
    {m f : MemLs} {locks : List ℕ} {token : Bytes} {n : ℕ} {out : List Held}
    → IsConsistent m locks
    → Unlocked m locks token n f
    → IsHolding m locks out
    → IsHolding f (erase n locks) out
IsHolding-unlock {m} {f} {locks} {token} {n} {out} h u p = record {
  once = p.once;
  held = λ k lt.
      let (i, e) = p.held k lt in
      let ne : k ≢ n = λ q. ground (arith, u.free) in
      (In-erase_ne k n locks i ne, (u.kept k ne).held ∙ e);
  all = λ k j e.
      let ne : k ≢ n = λ q. not-In-erase n locks h.distinct (rw q at j) in
      p.all k (In-erase k n locks j) (sym (u.kept k ne).held ∙ e);
}

pub IsHolding-refresh :
    {m f : MemLs} {locks : List ℕ} {n : ℕ} {out : List Held}
    → Touched n m f
    → (m.nodes n).held ≡ false
    → (f.nodes n).held ≡ false
    → IsHolding m locks out
    → IsHolding f locks out
IsHolding-refresh {m} {f} {locks} {n} t free still p = record {
  once = p.once;
  held = λ k lt.
      let (i, e) = p.held k lt in
      let ne : k ≢ n = λ q. ground arith in (i, ap (λ (x : Node). x.held) (t.other k ne) ∙ e);
  all = λ k i e. elim (ℕ_discrete k n) [
    | yes q ↦ absurd (ground arith)
    | no ne ↦ p.all k i (sym (ap (λ (x : Node). x.held) (t.other k ne)) ∙ e)
  ];
}

pub IsHolding-confirm :
    {m f : MemLs} {locks : List ℕ} {conditions : List Condition} {name0 name1 : Bytes} {h : Held}
    {out : List Held}
    → Confirmed m locks conditions name0 name1 h f
    → IsHolding m locks out
    → IsHolding f locks (h ∷ out)
unfolding holders
IsHolding-confirm {m} {f} {locks} {conditions} {name0} {name1} {h} {out} c p = record {
  once = λ n. elim (zero_cases (count_held n h)) [
    | inl z ↦ omega (arith, p.once n)
    | inr s ↦
        let (i, free) = c.member n s in
        let z : holders n out ≡ 0 = none_held n free in omega (arith, c.once n)
  ];
  held = λ n lt. elim (zero_cases (count_held n h)) [
    | inl z ↦
        let (i, e) = p.held n (omega arith) in
        (i, ap (λ (x : Node). x.held) (c.marked.other n z) ∙ e)
    | inr s ↦ ((c.member n s).0, c.marked.marked n s)
  ];
  all = λ n i e. elim (zero_cases (count_held n h)) [
    | inl z ↦ omega (arith, p.all n i (sym (ap (λ (x : Node). x.held) (c.marked.other n z)) ∙ e))
    | inr s ↦ omega arith
  ];
}
  where
    none_held : (n : ℕ) → (m.nodes n).held ≡ false → holders n out ≡ 0
    none_held n free = elim (zero_cases (holders n out)) [
      | inl z ↦ z
      | inr s ↦ absurd (ground (arith, p.held n s))
    ]

pub IsHolding-release :
    (h : Held) {m f : MemLs} {locks : List ℕ} {out rest : List Held}
    → ((n : ℕ) → holders n out ≡ count_held n h + holders n rest)
    → Marked false (λ n. count_held n h) m locks f
    → IsHolding m locks out
    → IsHolding f locks rest
IsHolding-release h {m} {f} {locks} {out} {rest} split c p = record {
  once = λ n. omega (arith, p.once n, split n);
  held = λ n lt. elim (zero_cases (count_held n h)) [
    | inl z ↦
        let (i, e) = p.held n (omega (arith, split n)) in
        (i, ap (λ (x : Node). x.held) (c.other n z) ∙ e)
    | inr s ↦ absurd (omega (arith, p.once n, split n))
  ];
  all = λ n i e. elim (zero_cases (count_held n h)) [
    | inl z ↦ omega (arith, split n, p.all n i (sym (ap (λ (x : Node). x.held) (c.other n z)) ∙ e))
    | inr s ↦ absurd (ground (arith, c.marked n s))
  ];
}
